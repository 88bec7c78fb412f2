-- ===== src/Results/Clear.antt =====
-- `clearHandler` of search_results_view.js: which results are taken off the page.
pub mod Laws
use incubator_htrace.Prelude.{
  ℕ, suc, ◌+◌, ◌<◌, ◌≡◌, ◌≢◌, refl, sym, ap, ◌∙◌, Bool, true, false, not, ◌||◌, ◌&&◌, Option, none,
  some, List, [], ◌∷◌, ◌++◌, arith, if◌then◌else◌, ◌>>=◌, Bool-cases, ◌⊎◌, inl, inr,
}
use mathlib.Core.List.{append-nil, append_assoc}
use incubator_htrace.Tree.{for_each, traverse_pre}
use incubator_htrace.Tree.Rose.{height, preorder, visit_all}
use incubator_htrace.Tree.Traversal.{traverse_pre_lem}
use incubator_htrace.Span.Store.{Store, get_reified_parents, get_reified_children, Family}
use incubator_htrace.Results.{is_selected, View, render}
use incubator_htrace.Results.Spans.{Families}

-- The variables of the loop.
pub record Marks : Type 0 where
  pub to_delete : List ℕ
  pub none_selected : Bool

module _ (st : Store) (fuel : ℕ) where
  -- `resultSelected` of one round. The traversal downwards looks at a span only while no result
  -- before this one was selected.
  unfoldable pub result_selected : Bool → ℕ → Option Bool
  result_selected none_selected model = do
    below ←
        traverse_pre (get_reified_children st)
          (λ node _ r. if none_selected then (if is_selected st node then true else r) else r) fuel
          model 0 false
    traverse_pre (get_reified_parents st) (λ node _ r. if is_selected st node then true else r) fuel
        model 0 below

  -- One round of the loop, after the two traversals.
  pub mark : ℕ → Bool → Marks → Marks
  mark model selected s =
      if selected
      then record {
        to_delete = (if s.none_selected then [] else s.to_delete) ++ model ∷ [];
        none_selected = false;
      }
      else if s.none_selected
      then record s { to_delete = s.to_delete ++ model ∷ [] }
      else s

  unfoldable pub mark_all : List ℕ → Marks → Option Marks
  unfolding for_each mark
  mark_all search_results =
      for_each search_results (λ model s. do
        selected ← result_selected s.none_selected model
        some (mark model selected s))

  -- `clearHandler`. `remove` is what Backbone does with `searchResults.remove(toDelete)`.
  unfoldable pub clear_handler : (List ℕ → List ℕ → List ℕ) → Bool → View → Option View
  unfolding mark_all
  clear_handler remove clear_all_if_none_selected v = do
    s ← mark_all v.search_results (record { to_delete = []; none_selected = true })
    some (
        if s.none_selected && not clear_all_if_none_selected
        then v
        else render (record v { search_results = remove v.search_results s.to_delete }))
