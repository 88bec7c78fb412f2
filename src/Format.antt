-- ===== src/Format.antt =====
-- htrace-webapp/src/main/webapp/app/string.js: dates and span ids as the user types them.
--
-- moment.js is not part of the program, so its moments and what is called of them are a
-- parameter. An exception is a value of `Error`, one constructor for each `throw` of string.js
-- and predicate.js, with what its text quotes.
pub mod Laws
use incubator_htrace.Prelude.{
  Option, none, some, ℕ, zero, suc, ◌+◌, ◌-◌, ◌*◌, ◌/◌, ◌%◌, ◌++◌, ltb, Bool, true, false, not,
  ◌&&◌, ◌||◌, List, [], ◌∷◌, length, Text, text, all_units, some_unit, leb, ◌==◌, if◌then◌else◌,
}
use incubator_htrace.Prelude.Int.{ℤ, pos, negsuc}

pub data Error : Type 0 where
  bad_date : Error
  bad_span_id_length : Text → ℕ → Error
  bad_span_id_digits : Text → Error
  empty_number : Error
  not_a_number : Error
  empty_text : Error

pub data Result {ℓ} (A : Type ℓ) : Type ℓ where
  ok : A → Result A
  throw : Error → Result A

infixl 5 ◌>>=◌
abbrev pub ◌>>=◌ {ℓ κ} : {A : Type ℓ} {B : Type κ} → Result A → (A → Result B) → Result B
ok a >>= f = f a
throw e >>= f = throw e

-- What the program calls of moment.js: `moment.utc(ms)`, `moment.utc(val, format, true)`,
-- `moment.utc(m)`, `isValid`, `valueOf`, `moment()`, and `format(format)`. The value of an invalid
-- moment is NaN, here `none`.
pub record MomentJs : Type 1 where
  pub Moment : Type 0
  pub utc : ℤ → Moment
  pub utc_strict : Text → Text → Moment
  pub is_valid : Moment → Bool
  pub utc_of : Moment → Moment
  pub value_of : Moment → Option ℤ
  pub now : Moment
  pub format : Moment → Text → Text

abbrev pub is_digit : ℕ → Bool
is_digit c = leb b'0' c && leb c b'9'

-- `/^[0-9]([0-9]*)$/`
abbrev pub is_number : Text → Bool
is_number [] = false
is_number (c ∷ s) = is_digit c && all_units is_digit s

-- `parseInt(val, 10)` of a text of digits. A JavaScript number holds it exactly up to 2^53. Beyond
-- that it is rounded, but then it is no time that a date can have, rounded or not, and
-- `moment.utc` of it is invalid.
unfoldable pub parse_int_from : ℕ → Text → ℕ
parse_int_from n [] = n
parse_int_from n (c ∷ s) = parse_int_from (10 * n + (c - b'0')) s

-- `n.toString()` of a number that is not negative: its decimal digits. The fuel bounds their count.
pub digits_of : ℕ → ℕ → Text
digits_of zero n = []
digits_of (suc fuel) n =
    let front = digits_of fuel (n / 10) in
    if ltb n 10 then (b'0' + n) ∷ [] else front ++ (b'0' + n % 10) ∷ []

unfoldable pub to_string : ℤ → Text
unfolding digits_of
to_string (pos n) = digits_of (suc n) n
to_string (negsuc n) = b'-' ∷ digits_of (suc (suc n)) (suc n)

-- `valueOf().toString()`
abbrev pub time_to_string : Option ℤ → Text
time_to_string none = text "NaN"
time_to_string (some t) = to_string t

abbrev pub full_format : Text
full_format = text "YYYY-MM-DDTHH:mm:ss,SSS"

-- `toTry`
abbrev pub date_formats : List Text
date_formats =
    full_format ∷ text "YYYY-MM-DDTHH:mm:ss" ∷ text "YYYY-MM-DDTHH:mm" ∷ text "YYYY-MM-DD" ∷ []

module _ (m : MomentJs) where
  -- The loop over `toTry`, and the `throw` behind it.
  pub try_formats : List Text → Text → Result m.Moment
  try_formats [] val = throw bad_date
  try_formats (f ∷ fs) val =
      let rest = try_formats fs val in
      if m.is_valid (m.utc_strict val f) then ok (m.utc_strict val f) else rest

  unfoldable pub parse_date : Text → Result m.Moment
  unfolding try_formats parse_int_from
  parse_date val =
      if is_number val
      then ok (m.utc (pos (parse_int_from 0 val)))
      else try_formats date_formats val

  -- `dateToString` of a time in milliseconds, and of a moment.
  unfoldable pub date_to_string : ℤ → Text
  date_to_string val = m.format (m.utc val) full_format

  unfoldable pub moment_to_string : m.Moment → Text
  moment_to_string val = m.format (m.utc_of val) full_format

abbrev pub is_hex : ℕ → Bool
is_hex c = is_digit c || (leb b'a' c && leb c b'f') || (leb b'A' c && leb c b'F')

unfoldable pub normalize_span_id : Text → Result Text
normalize_span_id str =
    if not (length str == 32)
    then throw (bad_span_id_length str (length str))
    else if some_unit (λ c. not (is_hex c)) str
    then throw (bad_span_id_digits str)
    else ok str
