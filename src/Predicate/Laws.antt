-- ===== src/Predicate/Laws.antt =====
-- What predicate.js accepts in each field, and what it sends to htraced.
use incubator_htrace.Prelude.{
  some_inj, ◌≡◌, ◌↔◌, refl, sym, ap, subst, ◌∙◌, true, Option, none, some, List, [], ◌∷◌, Text,
  text, text_eq, text_eq_sound, if◌then◌else◌, arith, Bool-cases, All, Any, inl, inr,
}
use incubator_htrace.Format.{
  Result, ok, ◌>>=◌, MomentJs, is_number, time_to_string, parse_date, normalize_span_id,
}
use incubator_htrace.Format.Laws.{IsSpanId, normalize_span_id_iff}
use incubator_htrace.Predicate.{
  has_non_space, check_string_is_positive_whole_number, check_string_is_not_empty, PType, normalize,
  ptypes, find_ptype, parse_ptype,
}

find_ptype-some :
    (ps : List PType) (name : Text) {p : PType}
    → find_ptype ps name ≡ some p
    → (p.name ≡ name) × Any (λ q. q ≡ p) ps
unfolding find_ptype
find_ptype-some [] name h = cc
find_ptype-some (q ∷ ps) name {p} h = elim (Bool-cases (text_eq name q.name)) [
  | inl same ↦
      let e : q ≡ p = some_inj (rw same at h) in
      (sym (text_eq_sound name q.name same ∙ ap (λ (x : PType). x.name) e), inl e)
  | inr other ↦ let (e, a) = find_ptype-some ps name (rw other at h) in (e, inr a)
]

-- The name that `parsePType` is given is the name of the type that it returns, and that type is
-- one of its eleven.
pub parse_ptype_lem :
    (name : Text) (p : PType)
    → parse_ptype name ≡ some p
    → (p.name ≡ name) × Any (λ q. q ≡ p) ptypes
unfolding parse_ptype
parse_ptype_lem name p h = find_ptype-some ptypes name h

-- The four sorts of values that the fields have.
pub data Kind : Type 0 where
  date number id free_text : Kind

pub kind_of : Text → Option Kind
kind_of field =
    if text_eq field (text "begin")
    then some date
    else if text_eq field (text "end")
    then some date
    else if text_eq field (text "description")
    then some free_text
    else if text_eq field (text "duration")
    then some number
    else if text_eq field (text "spanid")
    then some id
    else if text_eq field (text "tracerid")
    then some free_text
    else none

module _ (m : MomentJs) where
  -- A value that htraced accepts for a field, and the text that the user entered for it.
  abbrev pub IsAccepted : Kind → Text → Text → Type 0
  IsAccepted date val out =
      (d : m.Moment) × (parse_date m val ≡ ok d) × (out ≡ time_to_string (m.value_of d))
  IsAccepted number val out = (is_number val ≡ true) × (out ≡ val)
  IsAccepted id val out = IsSpanId val × (out ≡ val)
  IsAccepted free_text val out = (has_non_space val ≡ true) × (out ≡ val)

  normalize_kind : Kind → Text → Result Text
  normalize_kind date val = parse_date m val >>= λ d. ok (time_to_string (m.value_of d))
  normalize_kind number val = check_string_is_positive_whole_number val
  normalize_kind id val = normalize_span_id val
  normalize_kind free_text val = check_string_is_not_empty val

  normalize_of_kind :
      (p : PType) (val : Text) (k : Kind)
      → kind_of p.field ≡ some k
      → normalize m p val ≡ normalize_kind k val
  unfolding normalize kind_of normalize_kind
  normalize_of_kind p val k h = ground arith

  normalize_kind_iff :
      (k : Kind) (val out : Text) → (normalize_kind k val ≡ ok out) ↔ IsAccepted k val out
  unfolding normalize_kind check_string_is_positive_whole_number check_string_is_not_empty
  normalize_kind_iff date val out = (λ h. ground arith, λ h. ground arith)
  normalize_kind_iff number val out = (λ h. ground arith, λ h. ground arith)
  normalize_kind_iff id val out =
      ((normalize_span_id_iff val out).0, (normalize_span_id_iff val out).1)
  normalize_kind_iff free_text val out = (λ h. ground arith, λ h. ground arith)

listed_kinds : All (λ p. (k : Kind) × (kind_of p.field ≡ some k)) ptypes
unfolding kind_of
listed_kinds = (
  (date, refl),
  (
    (date, refl),
    (
      (date, refl),
      (
        (date, refl),
        (
          (free_text, refl),
          (
            (free_text, refl),
            (
              (number, refl),
              ((number, refl), ((id, refl), ((free_text, refl), ((free_text, refl), tt)))),
            ),
          ),
        ),
      ),
    ),
  ),
)

of_listed :
    (P : PType → Type 0) (ps : List PType) (p : PType) → All P ps → Any (λ q. q ≡ p) ps → P p
of_listed P [] p h a = absurd a
of_listed P (q ∷ ps) p h (inl e) = subst P e h.0
of_listed P (q ∷ ps) p h (inr a) = of_listed P ps p h.1 a

parse_ptype-kind :
    (name : Text) (p : PType) → parse_ptype name ≡ some p → (k : Kind) × (kind_of p.field ≡ some k)
parse_ptype-kind name p h =
    of_listed (λ p. (k : Kind) × (kind_of p.field ≡ some k)) ptypes p listed_kinds
      (parse_ptype_lem name p h).1

module _ (m : MomentJs) where
  -- The field of every type that `parsePType` returns is one that `normalize` handles: it has a
  -- kind, and `normalize` gives a value exactly when the text is acceptable for this kind, and then
  -- the value that goes with the text.
  pub normalize_iff :
      (name : Text) (p : PType) (val out : Text)
      → parse_ptype name ≡ some p
      → (k : Kind) × (kind_of p.field ≡ some k)
        × ((normalize m p val ≡ ok out) ↔ IsAccepted m k val out)
  normalize_iff name p val out h =
      let (k, e) = parse_ptype-kind name p h in
      (k, e, rw (normalize_of_kind m p val k e) (normalize_kind_iff m k val out))
