-- ===== src/Prelude/Strings.antt =====
-- JavaScript strings, as the lists of their 16-bit code units, with `===` on them.
use Prim.Native.Char.{code}
use Prim.Native.String.{String}
use Prim.Native.Nat.{ℕ, Ordering}
use mathlib.Core.Path.{◌≡◌, refl}
use mathlib.Core.Logic.{◌↔◌, ◌⊎◌}
use mathlib.Core.Bool.{Bool, true, false, not, ◌&&◌, ◌||◌}
use mathlib.Core.List.{List, [], ◌∷◌}
use native.Mathlib.Omega.{arith}
use incubator_htrace.Prelude.Tests.{◌==◌, ltb, if◌then◌else◌}

abbrev pub Text : Type 0
Text = List ℕ

-- The code units of a literal, which is ASCII.
abbrev pub text : String → Text
text String.[] = []
text (String.◌∷◌ c s) = code c ∷ text s

abbrev pub text_eq : Text → Text → Bool
text_eq [] [] = true
text_eq (a ∷ s) (b ∷ t) = (a == b) && text_eq s t
text_eq _ _ = false

pub text_eq_sound : (s t : Text) → text_eq s t ≡ true → s ≡ t
text_eq_sound [] [] h = refl
text_eq_sound [] (b ∷ t) h = cc
text_eq_sound (a ∷ s) [] h = cc
text_eq_sound (a ∷ s) (b ∷ t) h = ground (arith, text_eq_sound s t)

pub text_eq_refl : (s : Text) → text_eq s s ≡ true
text_eq_refl [] = refl
text_eq_refl (a ∷ s) = ground (arith, text_eq_refl s)

pub text_eq_iff : (s t : Text) → (text_eq s t ≡ true) ↔ (s ≡ t)
text_eq_iff s t = (text_eq_sound s t, λ e. rw e (text_eq_refl t))

-- `s.match(/^[...]*$/)`: every code unit passes the test.
abbrev pub all_units : (ℕ → Bool) → Text → Bool
all_units p [] = true
all_units p (c ∷ s) = p c && all_units p s

-- `s.match(/[...]/)`: some code unit passes the test.
abbrev pub some_unit : (ℕ → Bool) → Text → Bool
some_unit p [] = false
some_unit p (c ∷ s) = p c || some_unit p s

pub some_unit-eq-not_all :
    (p : ℕ → Bool) (s : Text) → some_unit (λ c. not (p c)) s ≡ not (all_units p s)
some_unit-eq-not_all p [] = refl
some_unit-eq-not_all p (c ∷ s) = ground (arith, some_unit-eq-not_all p s)

-- The order of the texts: by their code units.
abbrev pub text_lt : Text → Text → Bool
text_lt [] [] = false
text_lt [] (b ∷ t) = true
text_lt (a ∷ s) [] = false
text_lt (a ∷ s) (b ∷ t) =
    let rest = text_lt s t in if ltb a b then true else if ltb b a then false else rest

pub text_lt_trans : (s t u : Text) → text_lt t s ≡ false → text_lt u t ≡ false → text_lt u s ≡ false
text_lt_trans s [] [] h k = h
text_lt_trans s (b ∷ t) [] h k = cc
text_lt_trans [] [] (c ∷ u) h k = refl
text_lt_trans (a ∷ s) [] (c ∷ u) h k = cc
text_lt_trans [] (b ∷ t) (c ∷ u) h k = refl
text_lt_trans (a ∷ s) (b ∷ t) (c ∷ u) h k = ground (arith, text_lt_trans s t u)

pub text_lt_asym : (s t : Text) → text_lt s t ≡ true → text_lt t s ≡ false
text_lt_asym [] [] h = refl
text_lt_asym [] (b ∷ t) h = refl
text_lt_asym (a ∷ s) [] h = cc
text_lt_asym (a ∷ s) (b ∷ t) h = ground (arith, text_lt_asym s t)

-- The comparison of `sort()` without an argument.
abbrev pub compare_texts : Text → Text → Ordering
compare_texts s t =
    if text_lt s t then Ordering.lt else if text_lt t s then Ordering.gt else Ordering.eq

pub compare_texts_gt : (s t : Text) → compare_texts s t ≡ Ordering.gt → text_lt s t ≡ false
compare_texts_gt s t h = ground arith

pub compare_texts_le :
    (s t : Text)
    → (compare_texts s t ≡ Ordering.lt) ⊎ (compare_texts s t ≡ Ordering.eq)
    → text_lt t s ≡ false
compare_texts_le s t h = ground (arith, text_lt_asym s t)
