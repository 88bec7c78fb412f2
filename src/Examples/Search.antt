-- ===== src/Examples/Search.antt =====
-- Searches.
use incubator_htrace.Prelude.{
  ◌+◌, ◌≡◌, refl, true, false, none, some, List, [], ◌∷◌, Text, text, ◌⊎◌, if◌then◌else◌, ◌==◌,
}
use incubator_htrace.Format.{Error, to_string}
use incubator_htrace.Predicate.{PType, Predicate}
use incubator_htrace.Span.{unparse}
use incubator_htrace.SearchView.{
  PredicateView, SearchView, query_lim, do_search, invalid_field, last, enter,
}
use incubator_htrace.SearchView.Requests.{sent, Reaches, State}
use incubator_htrace.SearchView.Sending.{IsBuilt, FirstInvalid, do_search_lem}
use incubator_htrace.Examples.Data.{moments, store, view}

abbrev description_is : PType
description_is = record {
  name = text "Description is exactly";
  field = text "description";
  op = text "eq";
}

abbrev predicate_view : PredicateView
predicate_view = record { index = 0; ptype = description_is; entered = text "open" }

abbrev pub search_view : SearchView
search_view = record {
  predicate_views = predicate_view ∷ record predicate_view { index = 2 } ∷ [];
  highest_predicate_index = 3;
  search_in_progress = false;
  search_lim = text "1000";
  results_view = view;
  warnings = [];
}

abbrev without_view : List PredicateView → PredicateView → List PredicateView
without_view [] w = []
without_view (v ∷ vs) w = if v.index == w.index then without_view vs w else v ∷ without_view vs w

do_search_lem_example :
    ((ps : List Predicate) × IsBuilt moments search_view.predicate_views ps
      × (do_search moments store search_view ≡ (
        record search_view {
          search_lim = to_string (query_lim (text "1000"));
          search_in_progress = true;
        },
        some (record {
          pred = ps;
          lim = query_lim (text "1000");
          prev = elim (last view.search_results) [
            | none ↦ none
            | some span ↦ some (unparse (store.cell span))
          ];
        }),
      )))
    ⊎ ((name : Text) × (err : Error) × FirstInvalid moments search_view.predicate_views name err
        × (do_search moments store search_view
            ≡ (record search_view { warnings = invalid_field name err ∷ [] }, none)))
do_search_lem_example = do_search_lem moments store search_view refl refl

-- A search, while the user goes on typing.
abbrev typed : State
typed =
    (record search_view { predicate_views = enter 2 (text "close") search_view.predicate_views }, 0)

-- Then the search itself.
abbrev searched : State
searched = ((do_search moments store typed.0).0, sent (do_search moments store typed.0).1 + 0)
