-- ===== src/Prelude/Order.antt =====
-- Sorting by any comparison that decides a transitive order.
use Prim.Native.Nat.{Ordering}
use mathlib.Core.Path.{◌≡◌, refl}
use mathlib.Core.Logic.{◌⊎◌, inl, inr}
use mathlib.Core.List.{List, [], ◌∷◌}
use incubator_htrace.Prelude.Lists.{All, All-imp}
use incubator_htrace.Prelude.Sort.{insert_sorted, sort}

module _ {A : Type 0} (cmp : A → A → Ordering) (R : A → A → Type 0) where
  -- `cmp` says `gt` only where the second goes before the first, and otherwise the first goes before
  -- the second.
  pub record IsOrder : Type 0 where
    pub gt : (x y : A) → cmp x y ≡ Ordering.gt → R y x
    pub le : (x y : A) → (cmp x y ≡ Ordering.lt) ⊎ (cmp x y ≡ Ordering.eq) → R x y
    pub trans : (x y z : A) → R x y → R y z → R x z

  abbrev pub IsOrdered : List A → Type 0
  IsOrdered [] = Unit
  IsOrdered (x ∷ xs) = All (λ y. R x y) xs × IsOrdered xs

  -- The two outcomes of one comparison.
  insert-cases :
      IsOrder
      → (x y : A) (ys : List A)
      → ((insert_sorted cmp x (y ∷ ys) ≡ x ∷ y ∷ ys) × R x y)
        ⊎ ((insert_sorted cmp x (y ∷ ys) ≡ y ∷ insert_sorted cmp x ys) × R y x)
  unfolding insert_sorted
  insert-cases o x y ys = by_order (cmp x y) refl
    where
      by_order :
          (c : Ordering)
          → cmp x y ≡ c
          → ((insert_sorted cmp x (y ∷ ys) ≡ x ∷ y ∷ ys) × R x y)
            ⊎ ((insert_sorted cmp x (y ∷ ys) ≡ y ∷ insert_sorted cmp x ys) × R y x)
      by_order Ordering.lt e = inl (rw (insert_sorted, e), o.le x y (inl e))
      by_order Ordering.eq e = inl (rw (insert_sorted, e), o.le x y (inr e))
      by_order Ordering.gt e = inr (rw (insert_sorted, e), o.gt x y e)

  All-insert :
      IsOrder
      → (P : A → Type 0) (x : A) (ys : List A) → P x
      → All P ys
      → All P (insert_sorted cmp x ys)
  unfolding insert_sorted
  All-insert o P x [] p h = (p, tt)
  All-insert o P x (y ∷ ys) p h = elim (insert-cases o x y ys) [
    | inl (e, _) ↦ rw e (p, h)
    | inr (e, _) ↦ rw e (h.0, All-insert o P x ys p h.1)
  ]

  insert-IsOrdered :
      IsOrder → (x : A) (ys : List A) → IsOrdered ys → IsOrdered (insert_sorted cmp x ys)
  unfolding insert_sorted
  insert-IsOrdered o x [] h = (tt, tt)
  insert-IsOrdered o x (y ∷ ys) h = elim (insert-cases o x y ys) [
    | inl (e, le) ↦ rw e ((le, All-imp ys (λ z k. o.trans x y z le k) h.0), h)
    | inr (e, ge) ↦ rw e (All-insert o (λ z. R y z) x ys ge h.0, insert-IsOrdered o x ys h.1)
  ]

  pub sort-IsOrdered : IsOrder → (xs : List A) → IsOrdered (sort cmp xs)
  unfolding sort
  sort-IsOrdered o [] = tt
  sort-IsOrdered o (x ∷ xs) = insert-IsOrdered o x (sort cmp xs) (sort-IsOrdered o xs)

  pub All-sort : IsOrder → (P : A → Type 0) (xs : List A) → All P xs → All P (sort cmp xs)
  unfolding sort
  All-sort o P [] h = tt
  All-sort o P (x ∷ xs) h = All-insert o P x (sort cmp xs) h.0 (All-sort o P xs h.1)
