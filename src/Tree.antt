-- ===== src/Tree.antt =====
-- htrace-webapp/src/main/webapp/app/tree.js: the height of a tree of models and the two
-- depth-first traversals, over a function that gives a node's descendants.
pub mod Rose
pub mod Traversal
pub mod Growth
use incubator_htrace.Prelude.{ℕ, zero, suc, ◌+◌, max, Option, none, some, List, [], ◌∷◌}

module _ {ℓ κ} {A : Type ℓ} {S : Type κ} where
  -- `for (var i = 0; i < xs.length; i++) { body }`, where the body changes the state `S`; `none`
  -- is a body that did not come to an end.
  unfoldable pub for_each : List A → (A → S → Option S) → S → Option S
  for_each [] body s = some s
  for_each (x ∷ xs) body s = elim (body x s) [ none ↦ none | some s' ↦ for_each xs body s' ]

module _ {ℓ} {A : Type ℓ} (get_descendants : A → List A) where
  -- The fuel bounds the depth of the recursion; `none` means that it ran out.
  unfoldable pub tree_height : ℕ → A → Option ℕ
  unfolding for_each
  tree_height zero node = none
  tree_height (suc fuel) node =
      for_each (get_descendants node)
        (λ d height. elim (tree_height fuel d) [ none ↦ none | some h ↦ some (max height (1 + h)) ])
        0

module _ {ℓ κ} {A : Type ℓ} {S : Type κ} (get_descendants : A → List A) (cb : A → ℕ → S → S) where
  unfoldable pub traverse_post : ℕ → A → ℕ → S → Option S
  unfolding for_each
  traverse_post zero node depth s = none
  traverse_post (suc fuel) node depth s =
      elim (for_each (get_descendants node) (λ d. traverse_post fuel d (depth + 1)) s) [
        | none ↦ none
        | some s' ↦ some (cb node depth s')
      ]

  unfoldable pub traverse_pre : ℕ → A → ℕ → S → Option S
  unfolding for_each
  traverse_pre zero node depth s = none
  traverse_pre (suc fuel) node depth s =
      for_each (get_descendants node) (λ d. traverse_pre fuel d (depth + 1)) (cb node depth s)
