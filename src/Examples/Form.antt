-- ===== src/Examples/Form.antt =====
-- The handlers of the form, one after another.
use incubator_htrace.Prelude.{ℕ, ◌≡◌, refl, false, some, List, [], ◌∷◌, ◌++◌, text, arith}
use incubator_htrace.Prelude.Int.{◌+ℤ◌}
use incubator_htrace.Tree.Rose.{node, nil}
use incubator_htrace.Span.Store.{Store, Family, get_reified_parents, get_reified_children}
use incubator_htrace.Results.Timeline.{begin_side}
use incubator_htrace.Results.Timeline.Timely.{IsTimely, AllFinite}
use incubator_htrace.SearchView.{SearchView}
use incubator_htrace.SearchView.Handlers.{
  FormAction, search_button, clear_button, key, blur, found, handle_actions,
  handle_actions-IsTimely,
}
use incubator_htrace.Examples.Data.{moments, view, remove_all, remove_all-IsRemove}
use incubator_htrace.Examples.Reify.{one_span}
use incubator_htrace.Examples.Search.{search_view}

no_links : (r : ℕ) → (get_reified_parents one_span r ≡ []) × (get_reified_children one_span r ≡ [])
unfolding get_reified_parents get_reified_children
no_links r = (refl, refl)

abbrev alone : (r : ℕ) → Family one_span r
alone r = record {
  up = node r nil;
  down = node r nil;
  up_root = refl;
  down_root = refl;
  up_tree = ((no_links r).0, tt);
  down_tree = ((no_links r).1, tt);
}

one_span-AllFinite : AllFinite 1 one_span
one_span-AllFinite r = ((alone r, omega arith, omega arith), tt)

view-IsTimely : IsTimely view
unfolding ◌+ℤ◌
view-IsTimely = (omega arith, refl)

-- The page is cleared, then there is a search, and the user enters a date that is none and zooms.
abbrev actions : List (Store × FormAction)
actions =
    (one_span, clear_button)
    ∷ (one_span, search_button)
    ∷ (one_span, found false (0 ∷ []))
    ∷ (one_span, blur (text "yesterday") begin_side)
    ∷ (one_span, key 90)
    ∷ []

handle_actions-IsTimely_example :
    (v : SearchView) × (handle_actions moments 1 remove_all (λ xs ys. xs ++ ys) actions search_view
      ≡ some v)
    × IsTimely v.results_view
handle_actions-IsTimely_example =
    handle_actions-IsTimely moments 1 remove_all (λ xs ys. xs ++ ys) remove_all-IsRemove actions
      search_view
      (
        one_span-AllFinite,
        (one_span-AllFinite, (one_span-AllFinite, (one_span-AllFinite, (one_span-AllFinite, tt)))),
      )
      view-IsTimely
