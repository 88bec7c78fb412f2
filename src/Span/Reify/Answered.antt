-- ===== src/Span/Reify/Answered.antt =====
-- When a look-up comes to its end.
use incubator_htrace.Prelude.{
  ℕ, zero, suc, ◌≡◌, refl, true, Option, none, some, List, [], ◌∷◌, ◌++◌, length, inl, inr,
  Bool-cases, Text, text, text_eq, some_inj,
}
use incubator_htrace.Prelude.Int.{ℤ, pos, ltb_ℤ, ◌-ℤ◌}
use incubator_htrace.Widget.Triangle.Session.{==_refl}
use incubator_htrace.Span.{Span, WireSpan, parse}
use incubator_htrace.Span.Store.{update, Store, get_reified_parents}
use incubator_htrace.Span.Ajax.{AjaxCall, parsed, parse_each, parse_multi_span_ajax_query_results}
use incubator_htrace.Span.Reify.{
  Server, Outcome, never, resolved, querying_children, fetch_all, parents_done, children_done,
  reify_parents, reify_children, reify_each, reify_parents_recursive, reify_children_recursive,
  attach, allocate, sort_spans_by_begin_time, attach_children, set_reified_children,
}

-- htraced answers every query with the span, or the ids, that were asked for.
pub record IsAnswering (server : Server) : Type 0 where
  pub spans :
      (id : Text)
      → (call : AjaxCall) × (json : WireSpan) × (server.span id ≡ some call)
        × (text_eq call.status (text "200") ≡ true)
        × (call.response_json ≡ some json)
  pub ids : (id : Text) (lim : ℤ) → (ids : List Text) × (server.children id lim ≡ some ids)

module _ (server : Server) (good : IsAnswering server) where
  all_read :
      (ids : List Text) (done : List Span)
      → (calls : List AjaxCall) × (spans : List Span) × (fetch_all server ids ≡ some calls)
        × (parse_each calls done ≡ parsed spans)
  unfolding fetch_all parse_each
  all_read [] done = ([], done, refl, refl)
  all_read (id ∷ ids) done =
      let (call, json, found, ok_status, body) = good.spans id in
      let (calls, spans, fetched, read) = all_read ids (done ++ parse json ∷ []) in
      (call ∷ calls, spans, rw (fetch_all, found, fetched), rw (parse_each, ok_status, body) read)

  each_resolves :
      (reify : ℕ → Store → Store × Outcome)
      → ((span : ℕ) (st : Store) → (reify span st).1 ≡ resolved none)
      → (ks : List ℕ) (st : Store) → (reify_each reify ks st).1 ≡ resolved none
  unfolding reify_each
  each_resolves reify h [] st = refl
  each_resolves reify h (k ∷ ks) st = rw (h k st, each_resolves reify h ks (reify k st).0)

  pub parents_resolves : (span : ℕ) (st : Store) → (reify_parents server span st).1 ≡ resolved none
  unfolding reify_parents parse_multi_span_ajax_query_results
  parents_resolves span st =
      let (calls, spans, fetched, read) = all_read (st.cell span).parents [] in
      rw (reify_parents, fetched, read)

  parents_done_resolves :
      (reify : ℕ → Store → Store × Outcome)
      → ((span : ℕ) (st : Store) → (reify span st).1 ≡ resolved none)
      → (span : ℕ) (r : Store × Outcome) → r.1 ≡ resolved none
      → (parents_done server (some reify) span r).1 ≡ resolved none
  parents_done_resolves reify h span (st, never) e = cc
  parents_done_resolves reify h span (st, resolved (some f)) e = cc
  parents_done_resolves reify h span (st, resolved none) e =
      each_resolves reify h (get_reified_parents st span) st

  -- If htraced answers every query with what was asked for, then the promise of
  -- `reifyParentsRecursive` is resolved with success, to whatever depth it goes.
  pub reify_parents_recursive_resolves :
      (depth span : ℕ) (st : Store)
      → (reify_parents_recursive server depth span st).1 ≡ resolved none
  unfolding reify_parents_recursive
  reify_parents_recursive_resolves zero span st =
      stop (reify_parents server span st) (parents_resolves span st)
    where
      stop :
          (r : Store × Outcome)
          → r.1 ≡ resolved none
          → (parents_done server none span r).1 ≡ resolved none
      stop (st, never) e = cc
      stop (st, resolved (some f)) e = cc
      stop (st, resolved none) e = refl
  reify_parents_recursive_resolves (suc depth) span st =
      parents_done_resolves (reify_parents_recursive server depth)
        (λ k s. reify_parents_recursive_resolves depth k s) span (reify_parents server span st)
        (parents_resolves span st)

  attached :
      (span : ℕ) (spans : List Span) (st : Store)
      → let (st', places) = allocate spans st in
        ((attach_children span spans st).cell span).reified_children
        ≡ some (sort_spans_by_begin_time st' places)
  unfolding attach attach_children set_reified_children update
  attached span spans st = rw (==_refl span) refl

  -- The children are known when their look-up has come to its end.
  pub children_resolves :
      (lim : ℤ) (span : ℕ) (st : Store)
      → let r = reify_children server lim span st in
        (r.1 ≡ resolved none) × ((kids : List ℕ) × ((r.0.cell span).reified_children ≡ some kids))
  unfolding reify_children parse_multi_span_ajax_query_results attach_children set_reified_children
      update
  children_resolves lim span st =
      let (ids, asked) = good.ids (st.cell span).span_id lim in
      let (calls, spans, fetched, read) = all_read ids [] in
      rw (reify_children, asked, fetched, read) (refl, (_, attached span spans st))

  children_done_resolves :
      (deeper : Option (ℤ → ℕ → Store → Store × Outcome))
      → ((reify : ℤ → ℕ → Store → Store × Outcome)
          → deeper ≡ some reify
          → (lim : ℤ) (span : ℕ) (st : Store) → (reify lim span st).1 ≡ resolved none)
      → (lim : ℤ) (span : ℕ) (r : Store × Outcome) (kids : List ℕ) → r.1 ≡ resolved none
      → (r.0.cell span).reified_children ≡ some kids
      → (children_done server deeper lim span r).1 ≡ resolved none
  children_done_resolves deeper h lim span (st, never) kids e k = cc
  children_done_resolves deeper h lim span (st, resolved (some f)) kids e k = cc
  children_done_resolves none h lim span (st, resolved none) kids e k = rw (children_done, k)
  children_done_resolves (some reify) h lim span (st, resolved none) kids e k =
      elim (Bool-cases (ltb_ℤ (pos 0) (lim -ℤ pos (length kids)))) [
        | inr stop ↦ rw (children_done, k, stop)
        | inl more ↦
            rw (children_done, k, more)
              (each_resolves (reify (lim -ℤ pos (length kids)))
                (h reify refl (lim -ℤ pos (length kids))) kids st)
      ]

  -- Likewise `reifyChildrenRecursive`: if htraced answers every query with what was asked for, its
  -- promise is resolved with success, whatever the depth and the limit.
  pub reify_children_recursive_resolves :
      (depth : ℕ) (lim : ℤ) (span : ℕ) (st : Store)
      → (reify_children_recursive server depth lim span st).1 ≡ resolved none
  unfolding reify_children_recursive
  reify_children_recursive_resolves zero lim span st =
      let (fine, (kids, known)) = children_resolves lim span st in
      children_done_resolves none (λ reify e. cc) lim span (reify_children server lim span st) kids
        fine known
  reify_children_recursive_resolves (suc depth) lim span st =
      let (fine, (kids, known)) = children_resolves lim span st in
      children_done_resolves (some (reify_children_recursive server depth))
        (λ reify e i k s. rw (← some_inj e) (reify_children_recursive_resolves depth i k s)) lim
        span (reify_children server lim span st) kids fine known

pub refused :
    (server : Server) (lim : ℤ) (span : ℕ) (st : Store)
    → server.children (st.cell span).span_id lim ≡ none
    → reify_children server lim span st
      ≡ (st, resolved (some (querying_children (st.cell span).span_id)))
unfolding reify_children
refused server lim span st h = rw (reify_children, h)
