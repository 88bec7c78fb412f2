-- ===== src/Prelude/Sort.antt =====
-- `Array.prototype.sort` with a comparator, the stable sort of the language standard, and the
-- comparator that the program writes out wherever it sorts: the order of an integer key.
use mathlib.Core.List.{Perm}
use mathlib.Core.List.Perm
use Prim.Native.Nat.{Ordering}
use mathlib.Core.Path.{◌≡◌, refl, ◌∙◌}
use mathlib.Core.Logic.{◌⊎◌, inl, inr}
use mathlib.Core.Bool.{true}
use mathlib.Core.List.{List, [], ◌∷◌}
use native.Mathlib.Omega.{arith}
use incubator_htrace.Prelude.Tests.{if◌then◌else◌}
use incubator_htrace.Prelude.Lists.{All, All-imp}
use incubator_htrace.Prelude.Int.{ℤ, ltb_ℤ, ◌≤ℤ◌}

abbrev pub compare_by {ℓ} : {A : Type ℓ} → (A → ℤ) → A → A → Ordering
compare_by key a b =
    if ltb_ℤ (key a) (key b)
    then Ordering.lt
    else if ltb_ℤ (key b) (key a)
    then Ordering.gt
    else Ordering.eq

module _ {ℓ} {A : Type ℓ} (cmp : A → A → Ordering) where
  -- An element goes in front of the elements that are not before it.
  unfoldable pub insert_sorted : A → List A → List A
  insert_sorted x [] = x ∷ []
  insert_sorted x (y ∷ ys) = elim (cmp x y) [
    | Ordering.gt ↦ y ∷ insert_sorted x ys
    | _ ↦ x ∷ y ∷ ys
  ]

  unfoldable pub sort : List A → List A
  unfolding insert_sorted
  sort [] = []
  sort (x ∷ xs) = insert_sorted x (sort xs)

module _ {ℓ} {A : Type ℓ} (key : A → ℤ) where
  abbrev pub IsSorted : List A → Type 0
  IsSorted [] = Unit
  IsSorted (x ∷ xs) = All (λ y. key x ≤ℤ key y) xs × IsSorted xs

  -- The elements with one key.
  abbrev pub with_key : ℤ → List A → List A
  with_key k [] = []
  with_key k (x ∷ xs) =
      if ltb_ℤ (key x) k
      then with_key k xs
      else if ltb_ℤ k (key x)
      then with_key k xs
      else x ∷ with_key k xs

module _ {ℓ} {A : Type ℓ} (cmp : A → A → Ordering) where
  insert_sorted-perm : (x : A) (ys : List A) → Perm (insert_sorted cmp x ys) (x ∷ ys)
  unfolding insert_sorted
  insert_sorted-perm x [] = Perm.refl (x ∷ [])
  insert_sorted-perm x (y ∷ ys) =
      elim (cmp x y)
        as (λ o.
          Perm (elim o [ Ordering.gt ↦ y ∷ insert_sorted cmp x ys | _ ↦ x ∷ y ∷ ys ])
            (x ∷ y ∷ ys)) [
              | Ordering.gt ↦ Perm.trans (Perm.cons y (insert_sorted-perm x ys)) (Perm.swap x y ys)
              | _ ↦ Perm.refl (x ∷ y ∷ ys)
            ]

  pub sort-perm : (xs : List A) → Perm (sort cmp xs) xs
  unfolding sort
  sort-perm [] = Perm.refl []
  sort-perm (x ∷ xs) = Perm.trans (insert_sorted-perm x (sort cmp xs)) (Perm.cons x (sort-perm xs))

module _ {A : Type 0} (key : A → ℤ) where
  -- The two outcomes of one comparison; in the second the key of `x` is the greater.
  insert_sorted-cases :
      (x y : A) (ys : List A)
      → ((insert_sorted (compare_by key) x (y ∷ ys) ≡ x ∷ y ∷ ys) × (key x ≤ℤ key y))
        ⊎ ((insert_sorted (compare_by key) x (y ∷ ys) ≡ y ∷ insert_sorted (compare_by key) x ys)
            × (ltb_ℤ (key y) (key x) ≡ true))
  unfolding insert_sorted
  insert_sorted-cases x y ys = ground arith

  All-insert_sorted :
      (P : A → Type 0) (x : A) (ys : List A)
      → P x
      → All P ys
      → All P (insert_sorted (compare_by key) x ys)
  unfolding insert_sorted
  All-insert_sorted P x [] p h = (p, tt)
  All-insert_sorted P x (y ∷ ys) p h = elim (insert_sorted-cases x y ys) [
    | inl (e, _) ↦ rw e (p, h)
    | inr (e, _) ↦ rw e (h.0, All-insert_sorted P x ys p h.1)
  ]

  pub All-sort : (P : A → Type 0) (xs : List A) → All P xs → All P (sort (compare_by key) xs)
  unfolding sort
  All-sort P [] h = tt
  All-sort P (x ∷ xs) h = All-insert_sorted P x (sort (compare_by key) xs) h.0 (All-sort P xs h.1)

  insert_sorted-IsSorted :
      (x : A) (ys : List A) → IsSorted key ys → IsSorted key (insert_sorted (compare_by key) x ys)
  insert_sorted-IsSorted x [] h = unfold insert_sorted in (tt, tt)
  insert_sorted-IsSorted x (y ∷ ys) h = elim (insert_sorted-cases x y ys) [
    | inl (e, le) ↦ rw e ((le, All-imp ys (λ z k. omega arith) h.0), h)
    | inr (e, gt) ↦ rw e (
      All-insert_sorted (λ z. key y ≤ℤ key z) x ys (ground arith) h.0,
      insert_sorted-IsSorted x ys h.1,
    )
  ]

  pub sort-IsSorted : (xs : List A) → IsSorted key (sort (compare_by key) xs)
  unfolding sort
  sort-IsSorted [] = tt
  sort-IsSorted (x ∷ xs) = insert_sorted-IsSorted x (sort (compare_by key) xs) (sort-IsSorted xs)

  -- A list in order is left as it is.
  insert_sorted_of_le :
      (x : A) (ys : List A)
      → All (λ y. key x ≤ℤ key y) ys
      → insert_sorted (compare_by key) x ys ≡ x ∷ ys
  insert_sorted_of_le x [] h = unfold insert_sorted in refl
  insert_sorted_of_le x (y ∷ ys) h = elim (insert_sorted-cases x y ys) [
    | inl (e, _) ↦ e
    | inr (_, gt) ↦ absurd (ground arith)
  ]

  pub sort_of_IsSorted : (xs : List A) → IsSorted key xs → sort (compare_by key) xs ≡ xs
  unfolding sort
  sort_of_IsSorted [] h = refl
  sort_of_IsSorted (x ∷ xs) h = rw (sort_of_IsSorted xs h.1) (insert_sorted_of_le x xs h.0)

  pub sort_idem :
      (xs : List A) → sort (compare_by key) (sort (compare_by key) xs) ≡ sort (compare_by key) xs
  sort_idem xs = sort_of_IsSorted (sort (compare_by key) xs) (sort-IsSorted xs)

  -- The sort is stable: the elements with one key keep their order.
  with_key-insert_sorted :
      (k : ℤ) (x : A) (ys : List A)
      → with_key key k (insert_sorted (compare_by key) x ys) ≡ with_key key k (x ∷ ys)
  with_key-insert_sorted k x [] = unfold insert_sorted in refl
  with_key-insert_sorted k x (y ∷ ys) = elim (insert_sorted-cases x y ys) [
    | inl (e, _) ↦ rw e
    | inr (e, gt) ↦ rw e (ground (arith, with_key-insert_sorted k x ys))
  ]

  pub with_key-sort :
      (k : ℤ) (xs : List A) → with_key key k (sort (compare_by key) xs) ≡ with_key key k xs
  unfolding sort
  with_key-sort k [] = refl
  with_key-sort k (x ∷ xs) =
      with_key-insert_sorted k x (sort (compare_by key) xs) ∙ ground (arith, with_key-sort k xs)
