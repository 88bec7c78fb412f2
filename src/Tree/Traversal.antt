-- ===== src/Tree/Traversal.antt =====
-- The two traversals of tree.js visit the nodes of a finite tree in the specified orders, and
-- the height that it computes is the tree's.
use mathlib.Core.List.{Perm, perm_append_comm}
use mathlib.Core.List.Perm
use incubator_htrace.Prelude.{
  ℕ, zero, suc, ◌+◌, ◌<◌, max, ◌≡◌, refl, sym, ap, ◌∙◌, none, some, List, [], ◌∷◌, ◌++◌, arith,
}
use incubator_htrace.Tree.{for_each, tree_height, traverse_pre, traverse_post}
use incubator_htrace.Tree.Rose.{
  Rose, Forest, node, nil, cons, root, roots, height, levels, IsTreeOf, AreTreesOf, preorder,
  preorders, postorder, postorders, visit_all,
}

module _ {ℓ κ} {A : Type ℓ} {S : Type κ} (cb : A → ℕ → S → S) where
  pub visit_all-append :
      (xs ys : List (A × ℕ)) (s : S)
      → visit_all cb (xs ++ ys) s ≡ visit_all cb ys (visit_all cb xs s)
  visit_all-append [] ys s = refl
  visit_all-append ((a, d) ∷ xs) ys s = visit_all-append xs ys (cb a d s)

module _ {ℓ κ} {A : Type ℓ} {S : Type κ} (get : A → List A) (cb : A → ℕ → S → S) where
  mutual
    unfolding traverse_pre

    pre_visits :
        (t : Rose A) (fuel depth : ℕ) (s : S)
        → IsTreeOf get t
        → height t < fuel
        → traverse_pre get cb fuel (root t) depth s ≡ some (visit_all cb (preorder t depth) s)
    pre_visits (node a f) zero depth s r h = absurd (omega arith)
    pre_visits (node a f) (suc fuel) depth s r h =
        rw r.0 (pre_visits_each f fuel (depth + 1) (cb a depth s) r.1 (omega arith))

    pre_visits_each :
        (f : Forest A) (fuel depth : ℕ) (s : S)
        → AreTreesOf get f
        → levels f < suc fuel
        → for_each (roots f) (λ d. traverse_pre get cb fuel d depth) s
          ≡ some (visit_all cb (preorders f depth) s)
    pre_visits_each nil fuel depth s r h = refl
    pre_visits_each (cons t f) fuel depth s r h =
        rw (pre_visits t fuel depth s r.0 (omega arith), for_each)
          (pre_visits_each f fuel depth (visit_all cb (preorder t depth) s) r.1 (omega arith)
            ∙ ap some (sym (visit_all-append cb (preorder t depth) (preorders f depth) s)))

  -- The pre-order traversal, with more fuel than the tree is high, makes the callback on each
  -- node of the tree with its depth, a node before its descendants, from left to right.
  pub traverse_pre_lem :
      (t : Rose A) (fuel depth : ℕ) (s : S)
      → IsTreeOf get t
      → height t < fuel
      → traverse_pre get cb fuel (root t) depth s ≡ some (visit_all cb (preorder t depth) s)
  traverse_pre_lem t fuel depth s r h = pre_visits t fuel depth s r h

  mutual
    unfolding traverse_post

    post_visits :
        (t : Rose A) (fuel depth : ℕ) (s : S)
        → IsTreeOf get t
        → height t < fuel
        → traverse_post get cb fuel (root t) depth s ≡ some (visit_all cb (postorder t depth) s)
    post_visits (node a f) zero depth s r h = absurd (omega arith)
    post_visits (node a f) (suc fuel) depth s r h =
        rw (r.0, post_visits_each f fuel (depth + 1) s r.1 (omega arith), traverse_post)
          (ap some (sym (visit_all-append cb (postorders f (depth + 1)) ((a, depth) ∷ []) s)))

    post_visits_each :
        (f : Forest A) (fuel depth : ℕ) (s : S)
        → AreTreesOf get f
        → levels f < suc fuel
        → for_each (roots f) (λ d. traverse_post get cb fuel d depth) s
          ≡ some (visit_all cb (postorders f depth) s)
    post_visits_each nil fuel depth s r h = refl
    post_visits_each (cons t f) fuel depth s r h =
        rw (post_visits t fuel depth s r.0 (omega arith), for_each)
          (post_visits_each f fuel depth (visit_all cb (postorder t depth) s) r.1 (omega arith)
            ∙ ap some (sym (visit_all-append cb (postorder t depth) (postorders f depth) s)))

  -- The post-order traversal, with more fuel than the tree is high, makes the callback on each
  -- node of the tree with its depth, a node after its descendants, from left to right.
  pub traverse_post_lem :
      (t : Rose A) (fuel depth : ℕ) (s : S)
      → IsTreeOf get t
      → height t < fuel
      → traverse_post get cb fuel (root t) depth s ≡ some (visit_all cb (postorder t depth) s)
  traverse_post_lem t fuel depth s r h = post_visits t fuel depth s r h

module _ {ℓ} {A : Type ℓ} (get : A → List A) where
  mutual
    unfolding tree_height

    height_computes :
        (t : Rose A) (fuel : ℕ)
        → IsTreeOf get t
        → height t < fuel
        → tree_height get fuel (root t) ≡ some (height t)
    height_computes (node a f) zero r h = absurd (omega arith)
    height_computes (node a f) (suc fuel) r h =
        rw r.0 (levels_computes f fuel 0 r.1 (omega arith) ∙ ap some (omega arith))

    levels_computes :
        (f : Forest A) (fuel acc : ℕ)
        → AreTreesOf get f
        → levels f < suc fuel
        → for_each
            (roots f)
            (λ d m. elim (tree_height get fuel d) [ none ↦ none | some h ↦ some (max m (1 + h)) ])
            acc
          ≡ some (max acc (levels f))
    levels_computes nil fuel acc r h = ap some (omega arith)
    levels_computes (cons t f) fuel acc r h =
        rw (height_computes t fuel r.0 (omega arith), for_each)
          (levels_computes f fuel (max acc (1 + height t)) r.1 (omega arith)
            ∙ ap some (omega arith))

  -- `treeHeight`, with more fuel than the tree is high, computes the tree's height.
  pub tree_height_lem :
      (t : Rose A) (fuel : ℕ)
      → IsTreeOf get t
      → height t < fuel
      → tree_height get fuel (root t) ≡ some (height t)
  tree_height_lem t fuel r h = height_computes t fuel r h

module _ {ℓ} {A : Type ℓ} where
  mutual
    orders_perm : (t : Rose A) (depth : ℕ) → Perm (preorder t depth) (postorder t depth)
    orders_perm (node a f) depth =
        Perm.trans (Perm.cons (a, depth) (orders_perm_each f (depth + 1)))
          (perm_append_comm ((a, depth) ∷ []) (postorders f (depth + 1)))

    orders_perm_each : (f : Forest A) (depth : ℕ) → Perm (preorders f depth) (postorders f depth)
    orders_perm_each nil depth = Perm.refl []
    orders_perm_each (cons t f) depth = Perm.append (orders_perm t depth) (orders_perm_each f depth)

  pub preorder-perm-postorder :
      (t : Rose A) (depth : ℕ) → Perm (preorder t depth) (postorder t depth)
  preorder-perm-postorder t depth = orders_perm t depth
