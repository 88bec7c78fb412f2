-- ===== src/Span/Reify/Acyclic.antt =====
-- Looking up parents and children makes no cycle: all traversals of the page come to an end.
use incubator_htrace.Prelude.{
  Option-cases, ℕ, zero, suc, ◌≤◌, ◌<◌, ◌≡◌, refl, sym, subst, none, some, List, [], ◌∷◌, arith,
  inl, inr, All, All-imp, ltb, Bool-cases, if◌then◌else◌, ◌==◌, ==_iff,
}
use incubator_htrace.Prelude.Int.{ℤ}
use incubator_htrace.Span.{Span}
use incubator_htrace.Span.Store.{Store, get_reified_parents}
use incubator_htrace.Span.Ajax.{
  AjaxCall, parse_multi_span_ajax_query_results, Parsed, parsed, ajax_error, span_parse_error,
}
use incubator_htrace.Span.Reify.{
  parents_done, parents_read, children_read, never, resolved, Server, Outcome, reify_parents,
  reify_children, reify_each, reify_parents_recursive, attach_parents, attach_children, fetch_all,
}
use incubator_htrace.Span.Reify.Links.{
  parents_of, children_of, IsBlank, upward, downward, IsGrown, attach_lem, parsed-IsBlank,
}

-- The links of the models that are in use go to models in use, along a falling rank.
pub record IsRankedBelow (get : Span → List ℕ) (st : Store) : Type 0 where
  pub rank : ℕ → ℕ
  pub falls : (x : ℕ) → All (λ y. (rank y < rank x) × (y < st.next)) (get (st.cell x))

-- There is no cycle of parents and none of children, and unused places hold no links.
pub record IsAcyclic (st : Store) : Type 0 where
  pub parents : IsRankedBelow parents_of st
  pub children : IsRankedBelow children_of st
  pub unused : (x : ℕ) → st.next ≤ x → IsBlank (st.cell x)

-- The rank when new nodes are leaves below all others.
leaf_rank : ℕ → (ℕ → ℕ) → ℕ → ℕ
leaf_rank next rank x = if ltb x next then suc (rank x) else 0

-- The rank when new nodes are sources above one node.
source_rank : ℕ → ℕ → (ℕ → ℕ) → ℕ → ℕ
source_rank next span rank x = if ltb x next then rank x else suc (rank span)

abbrev Falls : (ℕ → ℕ) → ℕ → ℕ → List ℕ → Type 0
Falls rank next x ys = All (λ y. (rank y < rank x) × (y < next)) ys

module _ (near far : Span → List ℕ) (span : ℕ) (st st' : Store)
    (grown : IsGrown near far span st st') (l : span < st.next) where
  grown-near : IsRankedBelow near st → IsRankedBelow near st'
  unfolding leaf_rank
  grown-near r =
      let rank = leaf_rank st.next r.rank in
      let next_le = grown.next_le in
      record {
        rank = rank;
        falls = λ x. elim (Bool-cases (ltb x st.next)) [
          | inr new ↦
              subst (Falls rank st'.next x) {x = []} (sym (grown.near_new x (ground arith))) tt
          | inl old ↦ elim (Bool-cases (x == span)) [
            | inl here ↦
                rw ((==_iff x span).0 here)
                  (All-imp (near (st'.cell span)) (λ y k. ground arith) grown.near_span)
            | inr other ↦
                subst (Falls rank st'.next x) {x = near (st.cell x)}
                  (sym (grown.near_old x (ground arith) (λ e. ground arith)))
                  (All-imp (near (st.cell x)) (λ y k. ground arith) (r.falls x))
          ]
        ];
      }

  grown-far : IsRankedBelow far st → IsRankedBelow far st'
  unfolding source_rank
  grown-far r =
      let rank = source_rank st.next span r.rank in
      let next_le = grown.next_le in
      record {
        rank = rank;
        falls = λ x. elim (Bool-cases (ltb x st.next)) [
          | inr new ↦ elim (grown.far_new x (ground arith)) [
            | inl none_at_all ↦ subst (Falls rank st'.next x) {x = []} (sym none_at_all) tt
            | inr (lt, e) ↦
                subst (Falls rank st'.next x) {x = span ∷ []} (sym e)
                  ((ground arith, omega arith), tt)
          ]
          | inl old ↦
              subst (Falls rank st'.next x) {x = far (st.cell x)}
                (sym (grown.far_old x (ground arith)))
                (All-imp (far (st.cell x)) (λ y k. ground arith) (r.falls x))
        ];
      }

  grown-unused : (x : ℕ) → st'.next ≤ x → (near (st'.cell x) ≡ []) × (far (st'.cell x) ≡ [])
  grown-unused x m =
      let next_le = grown.next_le in
      (
        grown.near_new x (omega arith),
        elim (grown.far_new x (omega arith)) [ inl e ↦ e | inr (lt, _) ↦ absurd (omega arith) ],
      )

-- The store is still acyclic, and no place was given up.
abbrev pub Keeps : Store → Store → Type 0
Keeps st st' = IsAcyclic st' × (st.next ≤ st'.next)

module _ (span : ℕ) (st : Store) (l : span < st.next) (a : IsAcyclic st) where
  attach_parents-Keeps :
      (spans : List Span) → All IsBlank spans → Keeps st (attach_parents span spans st)
  unfolding attach_parents
  attach_parents-Keeps spans h =
      let g = attach_lem parents_of children_of _ _ upward span spans st l h a.unused in
      (
        record {
          parents = grown-near parents_of children_of span st _ g l a.parents;
          children = grown-far parents_of children_of span st _ g l a.children;
          unused = grown-unused parents_of children_of span st _ g l;
        },
        g.next_le,
      )

  attach_children-Keeps :
      (spans : List Span) → All IsBlank spans → Keeps st (attach_children span spans st)
  unfolding attach_children
  attach_children-Keeps spans h =
      let g = attach_lem children_of parents_of _ _ downward span spans st l h a.unused in
      (
        record {
          parents = grown-far children_of parents_of span st _ g l a.parents;
          children = grown-near children_of parents_of span st _ g l a.children;
          unused =
              λ x m. let (c, p) = grown-unused children_of parents_of span st _ g l x m in (p, c);
        },
        g.next_le,
      )

  same : Keeps st st
  same = (a, omega arith)

  parents_read-Keeps :
      (server : Server) (calls : List AjaxCall)
      → Keeps st (parents_read server span (parse_multi_span_ajax_query_results calls) st).0
  parents_read-Keeps server calls =
      by_result (parse_multi_span_ajax_query_results calls) (parsed-IsBlank calls)
    where
      by_result :
          (r : Parsed)
          → ((spans : List Span) → r ≡ parsed spans → All IsBlank spans)
          → Keeps st (parents_read server span r st).0
      by_result (parsed spans) h = attach_parents-Keeps spans (h spans refl)
      by_result (ajax_error e) h = same
      by_result span_parse_error h = same

  children_read-Keeps :
      (server : Server) (calls : List AjaxCall)
      → Keeps st (children_read server span (parse_multi_span_ajax_query_results calls) st).0
  children_read-Keeps server calls =
      by_result (parse_multi_span_ajax_query_results calls) (parsed-IsBlank calls)
    where
      by_result :
          (r : Parsed)
          → ((spans : List Span) → r ≡ parsed spans → All IsBlank spans)
          → Keeps st (children_read server span r st).0
      by_result (parsed spans) h = attach_children-Keeps spans (h spans refl)
      by_result (ajax_error e) h = same
      by_result span_parse_error h = same

  pub reify_parents-Keeps : (server : Server) → Keeps st (reify_parents server span st).0
  unfolding reify_parents
  reify_parents-Keeps server = elim (Option-cases (fetch_all server (st.cell span).parents)) [
    | inl failed ↦ rw (reify_parents, failed) same
    | inr (calls, e) ↦ rw (reify_parents, e) (parents_read-Keeps server calls)
  ]

  pub reify_children-Keeps :
      (server : Server) (lim : ℤ) → Keeps st (reify_children server lim span st).0
  unfolding reify_children
  reify_children-Keeps server lim =
      elim (Option-cases (server.children (st.cell span).span_id lim)) [
        | inl refused ↦ rw (reify_children, refused) same
        | inr (ids, found) ↦ elim (Option-cases (fetch_all server ids)) [
          | inl failed ↦ rw (reify_children, found, failed) same
          | inr (calls, e) ↦ rw (reify_children, found, e) (children_read-Keeps server calls)
        ]
      ]

pub Keeps-trans : (s t u : Store) → Keeps s t → Keeps t u → Keeps s u
Keeps-trans s t u h k = (k.0, omega (arith, h.1, k.1))

-- Look-ups of spans in use, one after another.
pub reify_each-Keeps :
    (reify : ℕ → Store → Store × Outcome)
    → ((span : ℕ) (st : Store) → span < st.next → IsAcyclic st → Keeps st (reify span st).0)
    → (ks : List ℕ) (st : Store) → All (λ k. k < st.next) ks
    → IsAcyclic st
    → Keeps st (reify_each reify ks st).0
unfolding reify_each
reify_each-Keeps reify step [] st h a = (a, omega arith)
reify_each-Keeps reify step (k ∷ ks) st h a =
    let first = step k st h.0 a in
    let le = first.1 in
    Keeps-trans st (reify k st).0 (reify_each reify (k ∷ ks) st).0 first
      (reify_each-Keeps reify step ks (reify k st).0 (All-imp ks (λ j l. omega arith) h.1) first.0)

module _ (server : Server) where
  parents_done-Keeps :
      (reify : ℕ → Store → Store × Outcome)
      → ((span : ℕ) (st : Store) → span < st.next → IsAcyclic st → Keeps st (reify span st).0)
      → (span : ℕ) (r : Store × Outcome) → IsAcyclic r.0
      → Keeps r.0 (parents_done server (some reify) span r).0
  parents_done-Keeps reify step span (st, never) a = (a, omega arith)
  parents_done-Keeps reify step span (st, resolved (some err)) a = (a, omega arith)
  parents_done-Keeps reify step span (st, resolved none) a =
      reify_each-Keeps reify step (get_reified_parents st span) st
        (unfold get_reified_parents in
          All-imp (parents_of (st.cell span)) (λ y k. k.1) (a.parents.falls span))
        a

  parents_done-stop : (span : ℕ) (r : Store × Outcome) → (parents_done server none span r).0 ≡ r.0
  parents_done-stop span (st, never) = refl
  parents_done-stop span (st, resolved (some err)) = refl
  parents_done-stop span (st, resolved none) = refl

  -- However deep the look-up of the parents of a span in use goes, and whatever htraced answers: no
  -- cycle of parents or of children comes about, and the spans in use stay in use.
  pub reify_parents_recursive-Keeps :
      (depth span : ℕ) (st : Store)
      → span < st.next
      → IsAcyclic st
      → Keeps st (reify_parents_recursive server depth span st).0
  unfolding reify_parents_recursive
  reify_parents_recursive-Keeps zero span st l a =
      rw (parents_done-stop span (reify_parents server span st))
        (reify_parents-Keeps span st l a server)
  reify_parents_recursive-Keeps (suc depth) span st l a =
      let first = reify_parents-Keeps span st l a server in
      Keeps-trans st (reify_parents server span st).0
        (reify_parents_recursive server (suc depth) span st).0 first
        (parents_done-Keeps (reify_parents_recursive server depth)
          (λ k s m b. reify_parents_recursive-Keeps depth k s m b) span
          (reify_parents server span st) first.0)
