-- ===== src/Widget/Manager.antt =====
-- The listener lists of the widget manager, seen by who is registered for what.
use incubator_htrace.Prelude.{
  ℕ, ◌≡◌, ◌≢◌, refl, ◌∙◌, Bool, true, false, not, ◌&&◌, ◌||◌, List, [], ◌∷◌, ◌++◌, arith, ◌==◌,
  Bool-cases, inl, inr,
}
use incubator_htrace.Widget.{
  EventType, mouse_down, draw, dblclick, same_type, Listeners, register, register_high_priority,
  unregister, IsWithout,
}

abbrev pub contains : ℕ → List ℕ → Bool
contains w [] = false
contains w (v ∷ vs) = v == w || contains w vs

contains-append :
    (w : ℕ) (xs ys : List ℕ) → contains w (xs ++ ys) ≡ (contains w xs || contains w ys)
contains-append w [] ys = refl
contains-append w (v ∷ xs) ys = ground (arith, contains-append w xs ys)

same_type_sound : (u t : EventType) → same_type u t ≡ true → u ≡ t
same_type_sound u t h = ground arith

contains-without :
    (without : List ℕ → ℕ → List ℕ) (law : IsWithout without) (v w : ℕ) (vs : List ℕ)
    → contains v (without vs w) ≡ (contains v vs && not (v == w))
contains-without without law v w [] = rw (law.nil w)
contains-without without law v w (u ∷ vs) =
    rw (law.cons u vs w) (ground (arith, contains-without without law v w vs))

module _ (t u : EventType) (v w : ℕ) (ls : Listeners) where
  -- Who is registered after `register`.
  pub contains-register :
      contains v (register t w ls u) ≡ (contains v (ls u) || (same_type u t && w == v))
  unfolding register
  contains-register = elim (Bool-cases (same_type u t)) [
    | inl same ↦
        rw (same, same_type_sound u t same) (contains-append v (ls t) (w ∷ []) ∙ ground arith)
    | inr other ↦ rw other (ground arith)
  ]

  pub contains-register_high_priority :
      contains v (register_high_priority t w ls u)
      ≡ (contains v (ls u) || (same_type u t && w == v))
  unfolding register_high_priority
  contains-register_high_priority = elim (Bool-cases (same_type u t)) [
    | inl same ↦ rw (same, same_type_sound u t same) (ground arith)
    | inr other ↦ rw other (ground arith)
  ]

  -- If `_.without` does what is documented of it, then after `unregister` the widget is not
  -- registered for that type of event, however often it was, and all other registrations are as
  -- they were.
  pub contains-unregister :
      (without : List ℕ → ℕ → List ℕ)
      → IsWithout without
      → contains v (unregister without t w ls u)
        ≡ (contains v (ls u) && not (same_type u t && v == w))
  unfolding unregister
  contains-unregister without law = elim (Bool-cases (same_type u t)) [
    | inl same ↦ rw (same, same_type_sound u t same) (contains-without without law v w (ls t))
    | inr other ↦ rw other (ground arith)
  ]

-- No other widget is concerned, and of the types of events only those of a drag.
pub record Frames (this : ℕ) (ls ls' : Listeners) : Type 0 where
  pub others : (j : ℕ) (t : EventType) → j ≢ this → contains j (ls' t) ≡ contains j (ls t)
  pub presses : ls' mouse_down ≡ ls mouse_down
  pub drawings : ls' draw ≡ ls draw
  pub dblclicks : ls' dblclick ≡ ls dblclick

pub Frames-refl : (this : ℕ) (ls : Listeners) → Frames this ls ls
Frames-refl this ls = record {
  others = λ j t h. refl;
  presses = refl;
  drawings = refl;
  dblclicks = refl;
}
