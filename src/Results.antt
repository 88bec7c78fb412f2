-- ===== src/Results.antt =====
-- htrace-webapp/src/main/webapp/app/search_results_view.js: the view of the search results, with
-- the spans that are selected in it and the window of time that it shows.
--
-- A result is a span model, named by its place in the store. The fuel bounds the depth of the
-- traversals; `none` means that one of them ran out.
pub mod Spans
pub mod Select
pub mod Clear
pub mod Events
pub mod Timeline
use incubator_htrace.Prelude.{
  ℕ, suc, ltb, Bool, true, false, not, ◌&&◌, Option, none, some, List, [], ◌∷◌, ◌++◌, if◌then◌else◌,
  ◌>>=◌,
}
use incubator_htrace.Prelude.Int.{ℤ}
use incubator_htrace.Tree.{for_each, traverse_pre}
use incubator_htrace.Span.Store.{Store, get_reified_parents, get_reified_children}

-- `begin` and `end` of the view. `setTimes` halves differences, so the times may have fractions:
-- they are `begin / 2 ^ scale` and `end / 2 ^ scale` milliseconds, as the doubles of JavaScript are
-- fractions with a power of two below the line. The `end` is undefined in the program until the first
-- `setTimes`; a window is that of a view whose two times are set.
pub record Window : Type 0 where
  pub begin : ℤ
  pub end : ℤ
  pub scale : ℕ

abbrev pub is_selected : Store → ℕ → Bool
is_selected st span = (st.cell span).selected

module _ (st : Store) (fuel : ℕ) where
  -- `applyToAllSpans`: the body of its loop, and the loop, with what the callback changes as a state.
  -- The links between the spans are those of `st`: no callback of the program changes them.
  unfoldable pub visit_result {κ} : {S : Type κ} → (ℕ → S → S) → ℕ → S → Option S
  visit_result cb model s = do
    s' ← traverse_pre (get_reified_children st) (λ node _. cb node) fuel model 0 s
    traverse_pre (get_reified_parents st) (λ node depth t. if ltb 0 depth then cb node t else t)
        fuel model 0 s'

  unfoldable pub apply_to_all_spans {κ} : {S : Type κ} → (ℕ → S → S) → List ℕ → S → Option S
  apply_to_all_spans cb search_results = for_each search_results (visit_result cb)

  -- The callback of `getSelectedSpansOrAllSpans`, over `ret` and `noneSelected`.
  collect : ℕ → List ℕ × Bool → List ℕ × Bool
  collect span (ret, none_selected) =
      if is_selected st span
      then ((if none_selected then [] else ret) ++ span ∷ [], false)
      else if none_selected
      then (ret ++ span ∷ [], true)
      else (ret, none_selected)

  unfoldable pub get_selected_spans_or_all_spans : List ℕ → Option (List ℕ)
  unfolding apply_to_all_spans collect
  get_selected_spans_or_all_spans search_results =
      apply_to_all_spans collect search_results ([], true) >>= λ r. some r.0

-- The state of the view that its handlers change: the results, the window of time (Results.Timeline),
-- the window whose two times stand in the input fields #begin and #end, as `dateToString` writes
-- them, and the number of times that the view was rendered.
pub record View : Type 0 where
  pub search_results : List ℕ
  pub window : Window
  pub shown : Window
  pub renders : ℕ

-- `render`: what it draws follows from the rest of the state.
abbrev pub render : View → View
render v = record v { renders = suc v.renders }
