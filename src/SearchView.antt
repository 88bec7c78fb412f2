-- ===== src/SearchView.antt =====
-- htrace-webapp/src/main/webapp/app/search_view.js and predicate_view.js: the predicates on the
-- page, the search with them, and what its answer does to the results.
--
-- The query goes to htraced by an ajax call, which is not part of the program: `do_search` gives
-- the query that is sent, if one is, and `on_success` and `on_error` are the two callbacks.
-- A predicate view is told from another one by its index.
pub mod Sending
pub mod Requests
pub mod Closing
pub mod Handlers
use incubator_htrace.Prelude.{
  ℕ, zero, suc, ◌+◌, ◌-◌, ◌*◌, Bool, true, false, not, ◌&&◌, ◌||◌, Option, none, some, List, [],
  ◌∷◌, ◌++◌, leb, ltb, ◌==◌, Text, text, if◌then◌else◌,
}
use incubator_htrace.Prelude.Int.{ℤ, pos, negsuc, min_ℤ, sub_ℕ}
use incubator_htrace.Format.{Error, Result, ok, throw, MomentJs, to_string, is_digit}
use incubator_htrace.Predicate.{
  PType, Predicate, normalize, parse_ptype, get_default_value, is_space,
}
use incubator_htrace.Span.{WireSpan, unparse, is_empty}
use incubator_htrace.Span.Store.{Store}
use incubator_htrace.Results.{View, render}
use incubator_htrace.Results.Timeline.{zoom_handler}

-- `text` is what the user has entered, trimmed.
pub record PredicateView : Type 0 where
  pub index : ℕ
  pub ptype : PType
  pub entered : Text

-- What a modal warning says.
pub data Warning : Type 0 where
  no_criteria : Warning
  invalid_field : Text → Error → Warning
  search_debug : Warning
  no_results : Warning
  no_additional_results : Warning

pub record SearchView : Type 0 where
  pub predicate_views : List PredicateView
  pub highest_predicate_index : ℕ
  pub search_in_progress : Bool
  pub search_lim : Text
  pub results_view : View
  pub warnings : List Warning

-- `queryJson`
pub record Query : Type 0 where
  pub pred : List Predicate
  pub lim : ℤ
  pub prev : Option WireSpan

-- The value of a digit in base 10 or 16.
abbrev digit_value : Bool → ℕ → Option ℕ
digit_value hex c =
    if is_digit c
    then some (c - b'0')
    else if hex && (leb b'a' c && leb c b'f')
    then some (10 + (c - b'a'))
    else if hex && (leb b'A' c && leb c b'F')
    then some (10 + (c - b'A'))
    else none

-- The longest run of digits, behind those that were read; none is not a number.
abbrev digits_run : Bool → Option ℕ → Text → Option ℕ
digits_run hex acc [] = acc
digits_run hex acc (c ∷ s) = elim (digit_value hex c) [
  | none ↦ acc
  | some d ↦
      digits_run hex (some ((if hex then 16 else 10) * elim acc [ none ↦ 0 | some a ↦ a ] + d)) s
]

abbrev unsigned : Text → Option ℕ
unsigned (c ∷ x ∷ s) =
    if c == b'0' && (x == b'x' || x == b'X')
    then digits_run true none s
    else digits_run false none (c ∷ x ∷ s)
unsigned s = digits_run false none s

abbrev signed : Text → Option ℤ
signed [] = none
signed (c ∷ s) =
    if c == b'-'
    then elim (unsigned s) [ none ↦ none | some k ↦ some (sub_ℕ 0 k) ]
    else elim (unsigned (if c == b'+' then s else c ∷ s)) [ none ↦ none | some k ↦ some (pos k) ]

-- `parseInt(s)`, without a radix.
unfoldable pub parse_int : Text → Option ℤ
parse_int [] = none
parse_int (c ∷ s) = let rest = parse_int s in if is_space c then rest else signed (c ∷ s)

-- `… || 20`: neither 0 nor NaN is taken.
abbrev or_default : Option ℤ → ℤ
or_default none = pos 20
or_default (some (pos n)) = if n == 0 then pos 20 else pos n
or_default (some (negsuc n)) = negsuc n

unfoldable pub query_lim : Text → ℤ
unfolding parse_int
query_lim s = min_ℤ (or_default (parse_int s)) (pos 200)

abbrev pub last : List ℕ → Option ℕ
last [] = none
last (x ∷ []) = some x
last (x ∷ y ∷ xs) = last (y ∷ xs)

-- The predicates, or the name of the first field that is not valid, with the exception.
pub data Built : Type 0 where
  built : List Predicate → Built
  invalid : Text → Error → Built

module _ (m : MomentJs) where
  -- `getPredicate` of predicate_view.js
  unfoldable pub get_predicate : PredicateView → Result Predicate
  get_predicate v = elim (normalize m v.ptype v.entered) [
    | ok val ↦ ok (record { op = v.ptype.op; field = v.ptype.field; val = val })
    | throw err ↦ throw err
  ]

  -- The loop over the predicate views, over `predicates`.
  unfoldable pub build_predicates : List PredicateView → List Predicate → Built
  build_predicates [] predicates = built predicates
  build_predicates (v ∷ vs) predicates = elim (get_predicate v) [
    | ok p ↦ build_predicates vs (predicates ++ p ∷ [])
    | throw err ↦ invalid v.ptype.name err
  ]

  unfoldable pub do_search : Store → SearchView → SearchView × Option Query
  do_search st v =
      if v.search_in_progress
      then (v, none)
      else if is_empty v.predicate_views
      then (record v { warnings = no_criteria ∷ v.warnings }, none)
      else elim (build_predicates v.predicate_views []) [
        | invalid name err ↦ (record v { warnings = invalid_field name err ∷ v.warnings }, none)
        | built predicates ↦ (
          record v { search_lim = to_string (query_lim v.search_lim); search_in_progress = true },
          some (record {
            pred = predicates;
            lim = query_lim v.search_lim;
            prev = elim (last v.results_view.search_results) [
              | none ↦ none
              | some span ↦ some (unparse (st.cell span))
            ];
          }),
        )
      ]

  -- `dropdownHandler`; the alert about a name that is not known changes nothing. A new view shows
  -- the default value of its type.
  unfoldable pub dropdown_handler : Text → SearchView → SearchView
  dropdown_handler name v = elim (parse_ptype name) [
    | none ↦ v
    | some ptype ↦ record v {
      predicate_views =
          v.predicate_views
          ++ record {
            index = v.highest_predicate_index;
            ptype = ptype;
            entered = get_default_value m ptype;
          }
            ∷ [];
      highest_predicate_index = suc v.highest_predicate_index;
    }
  ]

-- What the user enters into the field of a predicate view.
unfoldable pub enter : ℕ → Text → List PredicateView → List PredicateView
enter i t [] = []
enter i t (v ∷ vs) = (if v.index == i then record v { entered = t } else v) ∷ enter i t vs

-- `removePredicateView`; `_.without` of underscore.js is a parameter.
unfoldable pub remove_predicate_view :
    (List PredicateView → PredicateView → List PredicateView)
    → PredicateView
    → SearchView
    → SearchView
remove_predicate_view without w v = record v { predicate_views = without v.predicate_views w }

-- The loop of `close`. The fuel bounds its rounds.
unfoldable pub close_views :
    (List PredicateView → PredicateView → List PredicateView)
    → ℕ
    → List PredicateView
    → Option (List PredicateView)
close_views without fuel [] = some []
close_views without zero (v ∷ vs) = none
close_views without (suc fuel) (v ∷ vs) = close_views without fuel (without (v ∷ vs) v)

-- What is shown when an answer has come.
abbrev answer_warnings : (show_debug empty first : Bool) → List Warning → List Warning
answer_warnings show_debug empty first ws =
    if show_debug
    then search_debug ∷ ws
    else if empty
    then (if first then no_results else no_additional_results) ∷ ws
    else ws

-- The `success` callback, with the models of the answer. `add` is what Backbone does with
-- `searchResults.add(models)`; the fuel is that of `zoomHandler`.
unfoldable pub on_success :
    Store
    → (fuel : ℕ) → (add : List ℕ → List ℕ → List ℕ) → (show_debug : Bool) → List ℕ
    → SearchView
    → Option SearchView
on_success st fuel add show_debug models v =
    let first = is_empty v.results_view.search_results in
    let added = record v.results_view {
      search_results = add v.results_view.search_results models;
    } in
    let zoomed = zoom_handler st fuel added in
    elim (if first then zoomed else some added) [
      | none ↦ none
      | some r ↦ some (record v {
        results_view = render r;
        search_in_progress = false;
        warnings = answer_warnings show_debug (is_empty models) first v.warnings;
      })
    ]

-- The `error` callback.
unfoldable pub on_error : SearchView → SearchView
on_error v = record v {
  results_view = record v.results_view { search_results = [] };
  search_in_progress = false;
}
