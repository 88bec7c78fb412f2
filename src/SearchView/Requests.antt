-- ===== src/SearchView/Requests.antt =====
-- The search view over time: the user's actions and the answers of htraced, in any order.
use incubator_htrace.Prelude.{
  ℕ, suc, ◌+◌, ◌<◌, ◌≡◌, Bool, Option, none, some, List, [], ◌∷◌, Text, if◌then◌else◌, ◌==◌, All,
}
use incubator_htrace.Format.{MomentJs}
use incubator_htrace.Span.Store.{Store}
use incubator_htrace.Results.{View}
use incubator_htrace.SearchView.{
  PredicateView, SearchView, Query, do_search, dropdown_handler, enter, remove_predicate_view,
  on_success, on_error,
}

-- What underscore.js documents of `_.without`, of views that are told apart by their index.
pub record IsWithoutView (without : List PredicateView → PredicateView → List PredicateView)
    : Type 0 where
  pub nil : (w : PredicateView) → without [] w ≡ []
  pub cons :
      (v : PredicateView) (vs : List PredicateView) (w : PredicateView)
      → without (v ∷ vs) w ≡ (if v.index == w.index then without vs w else v ∷ without vs w)

-- The view, and how many requests were sent that are not answered yet.
abbrev pub State : Type 0
State = SearchView × ℕ

abbrev pub sent : Option Query → ℕ
sent none = 0
sent (some q) = 1

abbrev pub IsIncreasing : List PredicateView → Type 0
IsIncreasing [] = Unit
IsIncreasing (v ∷ vs) = All (λ u. v.index < u.index) vs × IsIncreasing vs

-- One request is not answered while a search is in progress, and none otherwise; the views have
-- different indices, in the order of which they stand, and no new index was given to a view.
pub record IsSound (s : State) : Type 0 where
  pub one_request : s.1 ≡ (if s.0.search_in_progress then 1 else 0)
  pub increasing : IsIncreasing s.0.predicate_views
  pub fresh_index : All (λ v. v.index < s.0.highest_predicate_index) s.0.predicate_views

module _ (m : MomentJs) (without : List PredicateView → PredicateView → List PredicateView)
    (add : List ℕ → List ℕ → List ℕ) where
  -- What can happen next. `results` is whatever the view of the results does on its own.
  pub data Step : State → State → Type 0 where
    search :
        (st : Store) (v : SearchView) (k : ℕ)
        → Step (v, k) ((do_search m st v).0, sent (do_search m st v).1 + k)
    success :
        (st : Store) (fuel : ℕ) (show_debug : Bool) (models : List ℕ) (v v' : SearchView) (k : ℕ)
        → on_success st fuel add show_debug models v ≡ some v'
        → Step (v, suc k) (v', k)
    error : (v : SearchView) (k : ℕ) → Step (v, suc k) (on_error v, k)
    dropdown : (name : Text) (v : SearchView) (k : ℕ) → Step (v, k) (dropdown_handler m name v, k)
    typing :
        (i : ℕ) (t : Text) (v : SearchView) (k : ℕ)
        → Step (v, k) (record v { predicate_views = enter i t v.predicate_views }, k)
    remove :
        (w : PredicateView) (v : SearchView) (k : ℕ)
        → Step (v, k) (remove_predicate_view without w v, k)
    results : (r : View) (v : SearchView) (k : ℕ) → Step (v, k) (record v { results_view = r }, k)

  pub data Reaches : State → State → Type 0 where
    here : (s : State) → Reaches s s
    next : (s t u : State) → Reaches s t → Step t u → Reaches s u
