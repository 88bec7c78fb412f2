-- ===== src/Format/Laws.antt =====
-- What string.js accepts, and what it makes of it.
use incubator_htrace.Prelude.{
  ℕ, zero, suc, ltb, ◌+◌, ◌-◌, ◌*◌, ◌/◌, ◌%◌, ◌≡◌, ◌≢◌, ◌<◌, ◌↔◌, refl, sym, ap, ◌∙◌, Bool, true,
  false, List, [], ◌∷◌, ◌++◌, length, Text, all_units, some_unit-eq-not_all, arith, Bool-cases, All,
  ◌⊎◌, inl, inr,
}
use incubator_htrace.Prelude.Int.{pos}
use incubator_htrace.Format.{
  bad_date, ok, throw, MomentJs, is_digit, is_number, parse_int_from, digits_of, to_string,
  date_formats, try_formats, parse_date, is_hex, normalize_span_id,
}

-- A span id as htraced expects it.
pub record IsSpanId (s : Text) : Type 0 where
  pub long : length s ≡ 32
  pub hex : all_units is_hex s ≡ true

-- `normalizeSpanId` accepts a text exactly when it has 32 characters, all hexadecimal digits, and
-- what it accepts it gives back as it is.
pub normalize_span_id_iff :
    (s out : Text) → (normalize_span_id s ≡ ok out) ↔ (IsSpanId s × (out ≡ s))
unfolding normalize_span_id
normalize_span_id_iff s out = (
  λ h. (
    record {
      long = ground (arith, some_unit-eq-not_all is_hex s);
      hex = ground (arith, some_unit-eq-not_all is_hex s);
    },
    ground arith,
  ),
  λ h. ground (arith, some_unit-eq-not_all is_hex s),
)

parse_int_from-append :
    (xs ys : Text) (n : ℕ) → parse_int_from n (xs ++ ys) ≡ parse_int_from (parse_int_from n xs) ys
unfolding parse_int_from
parse_int_from-append [] ys n = refl
parse_int_from-append (c ∷ xs) ys n = parse_int_from-append xs ys (10 * n + (c - b'0'))

all_units-append :
    (p : ℕ → Bool) (xs ys : Text)
    → all_units p xs ≡ true
    → all_units p ys ≡ true
    → all_units p (xs ++ ys) ≡ true
all_units-append p [] ys h k = k
all_units-append p (c ∷ xs) ys h k = ground (arith, all_units-append p xs ys)

parse_int-digits_of : (fuel n : ℕ) → n < fuel → parse_int_from 0 (digits_of fuel n) ≡ n
unfolding digits_of
parse_int-digits_of zero n h = absurd (omega arith)
parse_int-digits_of (suc fuel) n h = elim (Bool-cases (ltb n 10)) [
  | inl small ↦ rw small (unfold parse_int_from in omega arith)
  | inr big ↦
      rw (big, parse_int_from-append, parse_int-digits_of fuel (n / 10) (ground arith))
        (unfold parse_int_from in omega arith)
]

digits_of-is_digit : (fuel n : ℕ) → all_units is_digit (digits_of fuel n) ≡ true
unfolding digits_of
digits_of-is_digit zero n = refl
digits_of-is_digit (suc fuel) n = elim (Bool-cases (ltb n 10)) [
  | inl small ↦ rw small (ground arith)
  | inr big ↦ rw big (
      all_units-append is_digit (digits_of fuel (n / 10)) _ (digits_of-is_digit fuel (n / 10))
        (ground arith))
]

is_number_of_digits : (s : Text) → s ≢ [] → all_units is_digit s ≡ true → is_number s ≡ true
is_number_of_digits [] ne h = absurd (ne refl)
is_number_of_digits (c ∷ s) ne h = h

digits_of-ne-nil : (fuel n : ℕ) → n < fuel → digits_of fuel n ≢ []
unfolding digits_of
digits_of-ne-nil zero n h = absurd (omega arith)
digits_of-ne-nil (suc fuel) n h = elim (Bool-cases (ltb n 10)) [
  | inl small ↦ rw small (λ e. cc)
  | inr big ↦ rw big (append_singleton-ne-nil (digits_of fuel (n / 10)) (b'0' + n % 10))
]
  where
    append_singleton-ne-nil : (xs : Text) (x : ℕ) → xs ++ x ∷ [] ≢ []
    append_singleton-ne-nil [] x e = cc
    append_singleton-ne-nil (y ∷ xs) x e = cc

-- The decimal digits of a number are read as that number.
pub parse_int-to_string :
    (n : ℕ) → (is_number (to_string (pos n)) ≡ true) × (parse_int_from 0 (to_string (pos n)) ≡ n)
unfolding to_string
parse_int-to_string n = (
  is_number_of_digits (digits_of (suc n) n) (digits_of-ne-nil (suc n) n (omega arith))
      (digits_of-is_digit (suc n) n),
  parse_int-digits_of (suc n) n (omega arith),
)

pub ok_inj {ℓ} : {A : Type ℓ} {a b : A} → ok a ≡ ok b → a ≡ b
ok_inj h = cc

module _ (m : MomentJs) where
  open m use {Moment, utc, utc_strict, is_valid}

  -- The moment comes from the first format, in the order of the list, by which the text is valid.
  abbrev pub FirstValid : List Text → Text → Moment → Type 0
  FirstValid [] val d = ⊥
  FirstValid (f ∷ fs) val d =
      ((is_valid (utc_strict val f) ≡ true) × (d ≡ utc_strict val f))
      ⊎ ((is_valid (utc_strict val f) ≡ false) × FirstValid fs val d)

  try_formats_ok :
      (fs : List Text) (val : Text) {d : Moment} → try_formats m fs val ≡ ok d → FirstValid fs val d
  unfolding try_formats
  try_formats_ok [] val h = cc
  try_formats_ok (f ∷ fs) val h = elim (Bool-cases (is_valid (utc_strict val f))) [
    | inl valid ↦ inl (valid, sym (ok_inj (rw valid at h)))
    | inr invalid ↦ inr (invalid, try_formats_ok fs val (rw invalid at h))
  ]

  try_formats-FirstValid :
      (fs : List Text) (val : Text) {d : Moment} → FirstValid fs val d → try_formats m fs val ≡ ok d
  unfolding try_formats
  try_formats-FirstValid [] val h = absurd h
  try_formats-FirstValid (f ∷ fs) val (inl (valid, e)) = rw (valid, e)
  try_formats-FirstValid (f ∷ fs) val (inr (invalid, h)) =
      rw invalid (try_formats-FirstValid fs val h)

  try_formats_throw :
      (fs : List Text) (val : Text)
      → All (λ f. is_valid (utc_strict val f) ≡ false) fs
      → try_formats m fs val ≡ throw bad_date
  unfolding try_formats
  try_formats_throw [] val h = refl
  try_formats_throw (f ∷ fs) val h = rw (h.0) (try_formats_throw fs val h.1)

  -- A text of digits is a number of milliseconds since the epoch, whatever formats it fits.
  pub parse_date-number :
      (val : Text) → is_number val ≡ true → parse_date m val ≡ ok (utc (pos (parse_int_from 0 val)))
  unfolding parse_date
  parse_date-number val h = rw h

  -- Of a text that is not a number `parseDate` gives a moment exactly when the text is valid by
  -- one of the approved formats, and then the moment by the first such format.
  pub parse_date_iff :
      (val : Text) (d : Moment)
      → is_number val ≡ false
      → (parse_date m val ≡ ok d) ↔ FirstValid date_formats val d
  unfolding parse_date
  parse_date_iff val d h =
      rw h (λ e. try_formats_ok date_formats val e, λ v. try_formats-FirstValid date_formats val v)

  pub parse_date-throw :
      (val : Text)
      → is_number val ≡ false
      → All (λ f. is_valid (utc_strict val f) ≡ false) date_formats
      → parse_date m val ≡ throw bad_date
  unfolding parse_date
  parse_date-throw val h a = rw h (try_formats_throw date_formats val a)

  -- A time that is not before the epoch, written as a number of milliseconds, is read by `parseDate`
  -- as the moment of that time.
  pub parse_date-to_string : (n : ℕ) → parse_date m (to_string (pos n)) ≡ ok (utc (pos n))
  parse_date-to_string n =
      parse_date-number (to_string (pos n)) (parse_int-to_string n).0
      ∙ ap (λ k. ok (utc (pos k))) (parse_int-to_string n).1
