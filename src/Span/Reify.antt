-- ===== src/Span/Reify.antt =====
-- The look-up of the parents and the children of a span, of span.js: `reifyParents`,
-- `reifyChildren`, and their recursive forms.
--
-- htraced answers through the calls of `$.ajax`; what it answers is a parameter, `Server`. This
-- module runs one schedule of the answers: each look-up comes to its end before the next one is
-- begun; Span/Reify/Schedule has all others. A promise that no one resolves is `never`: jQuery calls
-- the function given to `$.when(…).then` only when every call has succeeded, and an exception in a
-- callback is lost.
pub mod Links
pub mod Acyclic
pub mod Downward
pub mod Answered
pub mod Schedule
use incubator_htrace.Prelude.{
  ℕ, zero, suc, Bool, true, false, ◌||◌, Option, none, some, List, [], ◌∷◌, length, Text,
  if◌then◌else◌,
}
use incubator_htrace.Prelude.Int.{ℤ, pos, ltb_ℤ, ◌-ℤ◌}
use incubator_htrace.Prelude.Sort.{compare_by, sort}
use incubator_htrace.Span.{Span, object_or}
use incubator_htrace.Span.Store.{Store, get_reified_parents, update}
use incubator_htrace.Span.Ajax.{
  AjaxCall, Parsed, parsed, ajax_error, span_parse_error, parse_multi_span_ajax_query_results,
}

-- What htraced answers: to `span/<id>`, if the call succeeds, and to `span/<id>/children?lim=<lim>`.
pub record Server : Type 0 where
  pub span : Text → Option AjaxCall
  pub children : Text → ℤ → Option (List Text)

-- The error that a promise is resolved with: the look-up that failed, the span, and why.
pub data Failure : Type 0 where
  reifying_parents : Text → Parsed → Failure
  reifying_children : Text → Parsed → Failure
  querying_children : Text → Failure

-- `resolved none` is the empty string.
pub data Outcome : Type 0 where
  resolved : Option Failure → Outcome
  never : Outcome

-- `$.when(…)` of the calls: all of them, if all succeed.
unfoldable pub fetch_all : Server → List Text → Option (List AjaxCall)
fetch_all server [] = some []
fetch_all server (id ∷ ids) = elim (server.span id) [
  | none ↦ none
  | some call ↦ elim (fetch_all server ids) [ none ↦ none | some calls ↦ some (call ∷ calls) ]
]

-- `new htrace.Span({})` for each span that was read, and their places, in order.
unfoldable pub allocate : List Span → Store → Store × List ℕ
allocate [] st = (st, [])
allocate (s ∷ ss) st =
    let (st', places) = allocate ss (record (update st st.next s) { next = suc st.next }) in
    (st', st.next ∷ places)

unfoldable pub sort_spans_by_begin_time : Store → List ℕ → List ℕ
sort_spans_by_begin_time st = sort (compare_by (λ k. (st.cell k).begin))

unfoldable pub set_reified_parents : ℕ → List ℕ → Store → Store
set_reified_parents k ps st = update st k (record (st.cell k) { reified_parents = some ps })

unfoldable pub set_reified_children : ℕ → List ℕ → Store → Store
set_reified_children k ps st = update st k (record (st.cell k) { reified_children = some ps })

-- The loop over the models that were found, which links them to the span; `set` sets their links
-- back to it.
unfoldable pub adopt : (ℕ → List ℕ → Store → Store) → ℕ → List ℕ → Store → Store
adopt set span [] st = st
adopt set span (p ∷ ps) st = adopt set span ps (set p (span ∷ []) st)

-- The models of the spans that were read, sorted, linked with the span in both directions.
pub attach : (set_near set_far : ℕ → List ℕ → Store → Store) → ℕ → List Span → Store → Store
attach set_near set_far span spans st =
    let (st', places) = allocate spans st in
    let sorted = sort_spans_by_begin_time st' places in
    set_near span sorted (adopt set_far span sorted st')

unfoldable pub attach_parents : ℕ → List Span → Store → Store
unfolding attach
attach_parents = attach set_reified_parents set_reified_children

unfoldable pub attach_children : ℕ → List Span → Store → Store
unfolding attach
attach_children = attach set_reified_children set_reified_parents

module _ (server : Server) where
  -- What is done when the answers have come.
  abbrev pub parents_read : ℕ → Parsed → Store → Store × Outcome
  parents_read span (parsed spans) st = (attach_parents span spans st, resolved none)
  parents_read span (ajax_error e) st =
      (st, resolved (some (reifying_parents (st.cell span).span_id (ajax_error e))))
  parents_read span span_parse_error st =
      (st, resolved (some (reifying_parents (st.cell span).span_id span_parse_error)))

  abbrev pub children_read : ℕ → Parsed → Store → Store × Outcome
  children_read span (parsed spans) st = (attach_children span spans st, resolved none)
  children_read span (ajax_error e) st =
      (st, resolved (some (reifying_children (st.cell span).span_id (ajax_error e))))
  children_read span span_parse_error st =
      (st, resolved (some (reifying_children (st.cell span).span_id span_parse_error)))

  unfoldable pub reify_parents : ℕ → Store → Store × Outcome
  reify_parents span st = elim (fetch_all server (st.cell span).parents) [
    | none ↦ (st, never)
    | some calls ↦ parents_read span (parse_multi_span_ajax_query_results calls) st
  ]

  unfoldable pub reify_children : ℤ → ℕ → Store → Store × Outcome
  reify_children lim span st = elim (server.children (st.cell span).span_id lim) [
    | none ↦ (st, resolved (some (querying_children (st.cell span).span_id)))
    | some ids ↦ elim (fetch_all server ids) [
      | none ↦ (st, never)
      | some calls ↦ children_read span (parse_multi_span_ajax_query_results calls) st
    ]
  ]

-- `$.when(…).then` of two promises: resolved when both are, with the first error.
abbrev pub both : Outcome → Outcome → Outcome
both never o = never
both (resolved e) never = never
both (resolved none) (resolved e) = resolved e
both (resolved (some f)) (resolved e) = resolved (some f)

-- The recursive look-ups of several spans.
unfoldable pub reify_each : (ℕ → Store → Store × Outcome) → List ℕ → Store → Store × Outcome
reify_each reify [] st = (st, resolved none)
reify_each reify (k ∷ ks) st =
    let (st', o) = reify k st in let (st'', o') = reify_each reify ks st' in (st'', both o o')

module _ (server : Server) where
  -- The callback of `reifyParents().done`, with the recursion to the next depth if there is one.
  abbrev pub parents_done :
      Option (ℕ → Store → Store × Outcome) → ℕ → Store × Outcome → Store × Outcome
  parents_done deeper span (st, never) = (st, never)
  parents_done deeper span (st, resolved (some err)) = (st, resolved (some err))
  parents_done none span (st, resolved none) = (st, resolved none)
  parents_done (some reify) span (st, resolved none) =
      reify_each reify (get_reified_parents st span) st

  unfoldable pub reify_parents_recursive : ℕ → ℕ → Store → Store × Outcome
  reify_parents_recursive zero span st = parents_done none span (reify_parents server span st)
  reify_parents_recursive (suc depth) span st =
      parents_done (some (reify_parents_recursive depth)) span (reify_parents server span st)

  -- The callback of `reifyChildren(lim).done`. It reads the length of the reified children before
  -- it looks at the error: if they are null, that is an exception.
  abbrev pub children_done :
      Option (ℤ → ℕ → Store → Store × Outcome) → ℤ → ℕ → Store × Outcome → Store × Outcome
  children_done deeper lim span (st, never) = (st, never)
  children_done deeper lim span (st, resolved err) = elim (st.cell span).reified_children [
    | none ↦ (st, never)
    | some kids ↦
        let lim' = lim -ℤ pos (length kids) in
        elim err [
          | some f ↦ (st, resolved (some f))
          | none ↦ elim deeper [
            | none ↦ (st, resolved none)
            | some reify ↦ elim (ltb_ℤ (pos 0) lim') [
              | false ↦ (st, resolved none)
              | true ↦ reify_each (reify lim') kids st
            ]
          ]
        ]
  ]

  unfoldable pub reify_children_recursive : ℕ → ℤ → ℕ → Store → Store × Outcome
  reify_children_recursive zero lim span st =
      children_done none lim span (reify_children server lim span st)
  reify_children_recursive (suc depth) lim span st =
      children_done (some (reify_children_recursive depth)) lim span
        (reify_children server lim span st)
