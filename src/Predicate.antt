-- ===== src/Predicate.antt =====
-- htrace-webapp/src/main/webapp/app/predicate.js: the types of search predicates, and how the
-- text that the user enters is made into a value that htraced accepts.
pub mod Laws
use incubator_htrace.Prelude.{
  ℕ, Bool, true, false, not, ◌&&◌, ◌||◌, Option, none, some, List, [], ◌∷◌, ◌++◌, leb, ◌==◌, Text,
  text, text_eq, all_units, some_unit, if◌then◌else◌,
}
use incubator_htrace.Format.{
  Error, Result, ok, throw, ◌>>=◌, empty_number, not_a_number, empty_text, MomentJs, is_number,
  to_string, time_to_string, parse_date, moment_to_string, normalize_span_id,
}

-- `\s` of a regular expression.
abbrev pub is_space : ℕ → Bool
is_space c =
    (leb 9 c && leb c 13)
    || c == 32
    || c == 160
    || c == 5760
    || (leb 8192 c && leb c 8202)
    || c == 8232
    || c == 8233
    || c == 8239
    || c == 8287
    || c == 12288
    || c == 65279

-- `val.match(/[^\s]/)`
abbrev pub has_non_space : Text → Bool
has_non_space = some_unit (λ c. not (is_space c))

-- The checks give nothing; a result is the text itself, for the caller to go on with.
unfoldable pub check_string_is_positive_whole_number : Text → Result Text
check_string_is_positive_whole_number val =
    if not (is_number val)
    then (if not (has_non_space val) then throw empty_number else throw not_a_number)
    else ok val

unfoldable pub check_string_is_not_empty : Text → Result Text
check_string_is_not_empty val = if not (has_non_space val) then throw empty_text else ok val

-- `htrace.PType`
pub record PType : Type 0 where
  pub name : Text
  pub field : Text
  pub op : Text

abbrev not_implemented : Text → Text
not_implemented field = text "Normalization not implemented for field '" ++ field ++ text "'"

module _ (m : MomentJs) where
  -- The `switch` over the field, and its cases.
  unfoldable pub normalize : PType → Text → Result Text
  unfolding check_string_is_positive_whole_number check_string_is_not_empty
  normalize p val =
      if text_eq p.field (text "begin")
      then (parse_date m val >>= λ d. ok (time_to_string (m.value_of d)))
      else if text_eq p.field (text "end")
      then (parse_date m val >>= λ d. ok (time_to_string (m.value_of d)))
      else if text_eq p.field (text "description")
      then check_string_is_not_empty val
      else if text_eq p.field (text "duration")
      then check_string_is_positive_whole_number val
      else if text_eq p.field (text "spanid")
      then normalize_span_id val
      else if text_eq p.field (text "tracerid")
      then check_string_is_not_empty val
      else ok (not_implemented p.field)

  unfoldable pub get_default_value : PType → Text
  get_default_value p =
      if text_eq p.field (text "begin")
      then moment_to_string m m.now
      else if text_eq p.field (text "end")
      then moment_to_string m m.now
      else if text_eq p.field (text "description")
      then []
      else if text_eq p.field (text "duration")
      then text "0"
      else if text_eq p.field (text "spanid")
      then []
      else if text_eq p.field (text "tracerid")
      then []
      else text "(unknown)"

-- The cases of `parsePType`: the name, the field, the operation.
abbrev pub ptypes : List PType
ptypes =
    record { name = text "Began at or after"; field = text "begin"; op = text "ge" }
    ∷ record { name = text "Began at or before"; field = text "begin"; op = text "le" }
    ∷ record { name = text "Ended at or after"; field = text "end"; op = text "ge" }
    ∷ record { name = text "Ended at or before"; field = text "end"; op = text "le" }
    ∷ record { name = text "Description contains"; field = text "description"; op = text "cn" }
    ∷ record { name = text "Description is exactly"; field = text "description"; op = text "eq" }
    ∷ record { name = text "Duration is at least"; field = text "duration"; op = text "ge" }
    ∷ record { name = text "Duration is at most"; field = text "duration"; op = text "le" }
    ∷ record { name = text "Span ID is"; field = text "spanid"; op = text "eq" }
    ∷ record { name = text "TracerId contains"; field = text "tracerid"; op = text "cn" }
    ∷ record { name = text "TracerId is exactly"; field = text "tracerid"; op = text "eq" }
    ∷ []

-- The first case whose label is the name; behind the last one, null.
pub find_ptype : List PType → Text → Option PType
find_ptype [] name = none
find_ptype (p ∷ ps) name = if text_eq name p.name then some p else find_ptype ps name

unfoldable pub parse_ptype : Text → Option PType
unfolding find_ptype
parse_ptype name = find_ptype ptypes name

-- `htrace.Predicate`
pub record Predicate : Type 0 where
  pub op : Text
  pub field : Text
  pub val : Text
