-- ===== src/Tree/Growth.antt =====
-- When the recursion of tree.js comes to an end: the descendants of every node have a smaller
-- rank. The nodes below a node then form a finite tree, which is grown here.
use native.Mathlib.Nat.{le_refl}
use incubator_htrace.Prelude.{
  ℕ, zero, suc, ◌≤◌, ◌<◌, ◌≡◌, refl, sym, ap₂, some, List, [], ◌∷◌, arith, All, All-imp,
}
use incubator_htrace.Tree.{tree_height, traverse_pre, traverse_post}
use incubator_htrace.Tree.Rose.{
  Rose, Forest, node, nil, cons, root, roots, height, levels, IsTreeOf, AreTreesOf, preorder,
  postorder, visit_all,
}
use incubator_htrace.Tree.Traversal.{traverse_pre_lem, traverse_post_lem, tree_height_lem}

module _ {ℓ} {A : Type ℓ} where
  grow_each : (A → Rose A) → List A → Forest A
  grow_each grow [] = nil
  grow_each grow (a ∷ xs) = cons (grow a) (grow_each grow xs)

  pub grow : (A → List A) → ℕ → A → Rose A
  unfolding grow_each
  grow get zero a = node a nil
  grow get (suc n) a = node a (grow_each (grow get n) (get a))

  pub root-grow : (get : A → List A) (n : ℕ) (a : A) → root (grow get n a) ≡ a
  unfolding grow
  root-grow get zero a = refl
  root-grow get (suc n) a = refl

-- Every descendant of a node has a smaller rank than the node.
abbrev pub IsRanked {ℓ} : {A : Type ℓ} → (A → List A) → (A → ℕ) → Type ℓ
IsRanked {A = A} get rank = (a : A) → All (λ d. rank d < rank a) (get a)

module _ {ℓ} {A : Type ℓ} (get : A → List A) (rank : A → ℕ) (ranked : IsRanked get rank) where
  roots-grow_each : (n : ℕ) (xs : List A) → xs ≡ roots (grow_each (grow get n) xs)
  unfolding grow_each
  roots-grow_each n [] = refl
  roots-grow_each n (a ∷ xs) = ap₂ ◌∷◌ (sym (root-grow get n a)) (roots-grow_each n xs)

  grows_each :
      (n : ℕ)
      → ((a : A) → rank a ≤ n → IsTreeOf get (grow get n a) × (height (grow get n a) ≤ n))
      → (xs : List A) → All (λ d. rank d ≤ n) xs
      → AreTreesOf get (grow_each (grow get n) xs) × (levels (grow_each (grow get n) xs) ≤ suc n)
  unfolding grow_each
  grows_each n each [] h = (tt, omega arith)
  grows_each n each (a ∷ xs) h =
      let (t, p) = each a h.0 in let (ts, ps) = grows_each n each xs h.1 in ((t, ts), omega arith)

  grows : (n : ℕ) (a : A) → rank a ≤ n → IsTreeOf get (grow get n a) × (height (grow get n a) ≤ n)
  unfolding grow
  grows zero a h = ((no_descendants (get a) (ranked a), tt), omega arith)
    where
      no_descendants : (xs : List A) → All (λ d. rank d < rank a) xs → xs ≡ []
      no_descendants [] _ = refl
      no_descendants (d ∷ xs) k = absurd (omega arith)
  grows (suc n) a h =
      let (ts, p) =
        grows_each n (grows n) (get a) (All-imp (get a) (λ d k. omega arith) (ranked a)) in
      ((roots-grow_each n (get a), ts), p)

module _ {ℓ κ} {A : Type ℓ} {S : Type κ} (get : A → List A) (cb : A → ℕ → S → S) where
  -- Where every descendant of a node has a smaller rank than the node, fuel above the rank of a
  -- node is enough for all three functions: they give a result, which is that of one finite tree
  -- with the node as its root.
  pub traversals_terminate :
      (rank : A → ℕ) (a : A) (fuel depth : ℕ) (s : S)
      → IsRanked get rank
      → rank a < fuel
      → (t : Rose A) × (root t ≡ a)
        × IsTreeOf get t
        × (tree_height get fuel a ≡ some (height t))
        × (traverse_pre get cb fuel a depth s ≡ some (visit_all cb (preorder t depth) s))
        × (traverse_post get cb fuel a depth s ≡ some (visit_all cb (postorder t depth) s))
  traversals_terminate rank a fuel depth s ranked h =
      let t = grow get (rank a) a in
      let e = root-grow get (rank a) a in
      let (is_tree, low) = grows get rank ranked (rank a) a (le_refl (rank a)) in
      let enough : height t < fuel = omega arith in
      (
        t,
        e,
        is_tree,
        rw e at (tree_height_lem get t fuel is_tree enough),
        rw e at (traverse_pre_lem get cb t fuel depth s is_tree enough),
        rw e at (traverse_post_lem get cb t fuel depth s is_tree enough),
      )
