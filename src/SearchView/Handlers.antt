-- ===== src/SearchView/Handlers.antt =====
-- The handlers of search_view.js that change the view of the results: the buttons, the two fields of
-- the window of time, the keys, and the callbacks of a search.
--
-- Between two of them the models may have changed, so each comes with the store as it then is.
use incubator_htrace.Prelude.{
  ℕ, ◌≡◌, refl, sym, subst, Bool, true, false, Option, none, some, List, [], ◌∷◌, ◌==◌, Text, All,
  Bool-cases, inl, inr, if◌then◌else◌, ◌>>=◌, arith,
}
use incubator_htrace.Format.{MomentJs}
use incubator_htrace.Span.Store.{Store}
use incubator_htrace.Results.{View, render}
use incubator_htrace.Results.Clear.{clear_handler}
use incubator_htrace.Results.Clear.Laws.{
  IsRemove, any_marked, all_marked, clear_handler-none, clear_handler-some,
}
use incubator_htrace.Results.Timeline.{Side, handle_begin_or_end_change, zoom_handler}
use incubator_htrace.Results.Timeline.Timely.{
  IsTimely, AllFinite, Timely, families_of, zoom_handler-IsTimely,
  handle_begin_or_end_change-IsTimely,
}
use incubator_htrace.Results.Events.{on_key_up}
use incubator_htrace.SearchView.{
  SearchView, do_search, on_success, on_error, is_empty, answer_warnings,
}

-- What the user does: clicks on #searchButton, #clearButton or #zoomButton, presses a key, or leaves
-- the field #begin or #end with a text in it; and the answer to a search.
pub data FormAction : Type 0 where
  search_button clear_button zoom_button : FormAction
  key : ℕ → FormAction
  blur : Text → Side → FormAction
  found : (show_debug : Bool) → List ℕ → FormAction
  failed : FormAction

module _ (m : MomentJs) (fuel : ℕ) (remove add : List ℕ → List ℕ → List ℕ) where
  -- The view of the results after one of its handlers.
  abbrev pub with_results : SearchView → Option View → Option SearchView
  with_results v none = none
  with_results v (some r) = some (record v { results_view = r })

  unfoldable pub handle_action : FormAction → Store → SearchView → Option SearchView
  handle_action search_button st v = some (do_search m st v).0
  handle_action clear_button st v =
      with_results v (clear_handler st fuel remove true v.results_view)
  handle_action zoom_button st v = with_results v (zoom_handler st fuel v.results_view)
  handle_action (key key_code) st v =
      with_results v (on_key_up st fuel remove key_code v.results_view >>= λ r. some r.0)
  handle_action (blur val type) st v =
      some (record v { results_view = (handle_begin_or_end_change m val type v.results_view).0 })
  handle_action (found show_debug models) st v = on_success st fuel add show_debug models v
  handle_action failed st v = some (on_error v)

  unfoldable pub handle_actions : List (Store × FormAction) → SearchView → Option SearchView
  unfolding handle_action
  handle_actions [] v = some v
  handle_actions ((st, a) ∷ rest) v = do v' ← handle_action a st v; handle_actions rest v'

module _ (st : Store) (fuel : ℕ) (finite : AllFinite fuel st) where
  clear_handler-IsTimely :
      (remove : List ℕ → List ℕ → List ℕ) (clear_all : Bool) (v : View)
      → IsRemove remove
      → IsTimely v
      → Timely (clear_handler st fuel remove clear_all v)
  clear_handler-IsTimely remove clear_all v law h =
      let fs = families_of st fuel finite v.search_results in
      elim (Bool-cases (any_marked (all_marked st fuel v.search_results fs))) [
        | inl some_marked ↦ (_, clear_handler-some st fuel remove v fs clear_all some_marked, h)
        | inr none_marked ↦
            (_, clear_handler-none st fuel remove v fs clear_all law none_marked, kept clear_all)
      ]
    where
      kept : (b : Bool) → IsTimely (if b then render (record v { search_results = [] }) else v)
      kept true = h
      kept false = h

  on_key_up-IsTimely :
      (remove : List ℕ → List ℕ → List ℕ) (key_code : ℕ) (v : View)
      → IsRemove remove
      → IsTimely v
      → Timely (on_key_up st fuel remove key_code v >>= λ r. some r.0)
  unfolding on_key_up
  on_key_up-IsTimely remove key_code v law h = elim (Bool-cases (key_code == 46)) [
    | inl delete ↦
        let (v', e, timely) = clear_handler-IsTimely remove false v law h in
        (v', rw (on_key_up, delete, e), timely)
    | inr other ↦ elim (Bool-cases (key_code == 90)) [
      | inl zoom ↦
          let (v', e, timely) = zoom_handler-IsTimely st fuel finite v in
          (v', rw (on_key_up, other, zoom, e), timely)
      | inr neither ↦ (v, rw (on_key_up, other, neither), h)
    ]
  ]

module _ (m : MomentJs) (fuel : ℕ) (remove add : List ℕ → List ℕ → List ℕ)
    (law : IsRemove remove) where
  -- There is such a form.
  abbrev TimelyForm : Option SearchView → Type 0
  TimelyForm o = (v : SearchView) × (o ≡ some v) × IsTimely v.results_view

  with_results-Timely :
      (v : SearchView) (o : Option View)
      → Timely o
      → TimelyForm (with_results m fuel remove add v o)
  with_results-Timely v o (r, e, h) = (record v { results_view = r }, rw e, h)

  do_search-results_view :
      (st : Store) (v : SearchView) → (do_search m st v).0.results_view ≡ v.results_view
  unfolding do_search
  do_search-results_view st v = ground arith

  -- After the first answer the page is zoomed to the results.
  zoomed_if :
      (st : Store)
      → AllFinite fuel st
      → (first : Bool) (added : View) → IsTimely added
      → Timely (if first then zoom_handler st fuel added else some added)
  zoomed_if st finite true added h = zoom_handler-IsTimely st fuel finite added
  zoomed_if st finite false added h = (added, refl, h)

  on_success-IsTimely :
      (st : Store)
      → AllFinite fuel st
      → (show_debug : Bool) (models : List ℕ) (v : SearchView) → IsTimely v.results_view
      → TimelyForm (on_success st fuel add show_debug models v)
  unfolding on_success
  on_success-IsTimely st finite show_debug models v h =
      let first = is_empty v.results_view.search_results in
      let added = record v.results_view {
        search_results = add v.results_view.search_results models;
      } in
      let (r, chosen, timely) = zoomed_if st finite first added h in
      (
        record v {
          results_view = render r;
          search_in_progress = false;
          warnings = answer_warnings show_debug (is_empty models) first v.warnings;
        },
        rw (on_success, chosen),
        timely,
      )

  handle_action-IsTimely :
      (a : FormAction) (st : Store) (v : SearchView)
      → AllFinite fuel st
      → IsTimely v.results_view
      → TimelyForm (handle_action m fuel remove add a st v)
  unfolding handle_action on_error
  handle_action-IsTimely search_button st v finite h =
      (_, refl, subst IsTimely (sym (do_search-results_view st v)) h)
  handle_action-IsTimely clear_button st v finite h =
      with_results-Timely v _
        (clear_handler-IsTimely st fuel finite remove true v.results_view law h)
  handle_action-IsTimely zoom_button st v finite h =
      with_results-Timely v _ (zoom_handler-IsTimely st fuel finite v.results_view)
  handle_action-IsTimely (key key_code) st v finite h =
      with_results-Timely v _
        (on_key_up-IsTimely st fuel finite remove key_code v.results_view law h)
  handle_action-IsTimely (blur val type) st v finite h =
      (_, refl, handle_begin_or_end_change-IsTimely m val type v.results_view h)
  handle_action-IsTimely (found show_debug models) st v finite h =
      on_success-IsTimely st finite show_debug models v h
  handle_action-IsTimely failed st v finite h = (_, refl, h)

  -- Let the trees of the spans be finite and less high than the fuel at each of them, and let
  -- Backbone's `remove` do what is documented of it. If the window of time is at least
  -- MINIMUM_TIME_SPAN wide and shown in the fields, then after any handlers of the form, in whatever
  -- order and with whatever texts, keys and answers, it is so again, and each of them comes to its
  -- end.
  pub handle_actions-IsTimely :
      (actions : List (Store × FormAction)) (v : SearchView)
      → All (λ a. AllFinite fuel a.0) actions
      → IsTimely v.results_view
      → (v' : SearchView) × (handle_actions m fuel remove add actions v ≡ some v')
        × IsTimely v'.results_view
  unfolding handle_actions
  handle_actions-IsTimely [] v finite h = (v, refl, h)
  handle_actions-IsTimely ((st, a) ∷ rest) v (now, later) h =
      let (v1, e1, h1) = handle_action-IsTimely a st v now h in
      let (v2, e2, h2) = handle_actions-IsTimely rest v1 later h1 in
      (v2, rw (handle_actions, e1) e2, h2)
