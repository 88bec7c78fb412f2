-- ===== src/SearchView/Sending.antt =====
-- What a search sends, and when it sends nothing.
use incubator_htrace.Prelude.{
  ◌≡◌, ◌≢◌, refl, sym, ap, ◌∙◌, true, false, Option, none, some, List, [], ◌∷◌, ◌++◌, Text, arith,
  ◌⊎◌, inl, inr,
}
use mathlib.Core.List.{append-nil, append_assoc}
use incubator_htrace.Prelude.Int.{ℤ, pos, negsuc, ◌≤ℤ◌, min_ℤ}
use incubator_htrace.Format.{Error, Result, ok, throw, MomentJs, to_string}
use incubator_htrace.Predicate.{Predicate}
use incubator_htrace.Span.{unparse, is_empty}
use incubator_htrace.Span.Store.{Store}
use incubator_htrace.SearchView.{
  PredicateView, SearchView, parse_int, or_default, query_lim, last, built, invalid, get_predicate,
  build_predicates, do_search, invalid_field,
}

-- Whatever the user enters as the limit of a search, the limit that is sent is at most 200 and
-- is not 0.
pub query_lim_lem : (s : Text) → (query_lim s ≤ℤ pos 200) × (query_lim s ≢ pos 0)
unfolding query_lim
query_lim_lem s = in_range (parse_int s)
  where
    in_range :
        (o : Option ℤ)
        → (min_ℤ (or_default o) (pos 200) ≤ℤ pos 200) × (min_ℤ (or_default o) (pos 200) ≢ pos 0)
    in_range none = (omega arith, λ h. ground arith)
    in_range (some (pos n)) = (ground arith, λ h. ground arith)
    in_range (some (negsuc n)) = (ground arith, λ h. ground arith)

module _ (m : MomentJs) where
  -- The predicates of the views, in order.
  abbrev pub IsBuilt : List PredicateView → List Predicate → Type 0
  IsBuilt [] [] = Unit
  IsBuilt (v ∷ vs) (p ∷ ps) = (get_predicate m v ≡ ok p) × IsBuilt vs ps
  IsBuilt _ _ = ⊥

  -- The first view without a predicate, by its name and the exception.
  abbrev pub FirstInvalid : List PredicateView → Text → Error → Type 0
  FirstInvalid [] name err = ⊥
  FirstInvalid (v ∷ vs) name err =
      ((v.ptype.name ≡ name) × (get_predicate m v ≡ throw err))
      ⊎ (((p : Predicate) × (get_predicate m v ≡ ok p)) × FirstInvalid vs name err)

  result-cases :
      {A : Type 0} (r : Result A) → ((a : A) × (r ≡ ok a)) ⊎ ((err : Error) × (r ≡ throw err))
  result-cases (ok a) = inl (a, refl)
  result-cases (throw err) = inr (err, refl)

  build_predicates_lem :
      (vs : List PredicateView) (done : List Predicate)
      → ((ps : List Predicate) × IsBuilt vs ps × (build_predicates m vs done ≡ built (done ++ ps)))
        ⊎ ((name : Text) × (err : Error) × FirstInvalid vs name err
            × (build_predicates m vs done ≡ invalid name err))
  unfolding build_predicates
  build_predicates_lem [] done = inl ([], tt, ap built (sym (append-nil done)))
  build_predicates_lem (v ∷ vs) done = elim (result-cases (get_predicate m v)) [
    | inl (p, e) ↦ elim (build_predicates_lem vs (done ++ p ∷ [])) [
      | inl (ps, h, q) ↦
          inl (
            p ∷ ps,
            (e, h),
            rw (build_predicates, e) (q ∙ ap built (append_assoc done (p ∷ []) ps)),
          )
      | inr (name, err, h, q) ↦ inr (name, err, inr ((p, e), h), rw (build_predicates, e) q)
    ]
    | inr (err, e) ↦ inr (v.ptype.name, err, inl (refl, e), rw (build_predicates, e))
  ]

  -- A search that starts while none is in progress, with at least one predicate view, either sends
  -- the predicates of all views, in order, with the limit and the last result as the continuation,
  -- and is then in progress; or a view has no predicate, and then nothing is sent, and a warning
  -- names the first such view.
  pub do_search_lem :
      (st : Store) (v : SearchView)
      → v.search_in_progress ≡ false
      → is_empty v.predicate_views ≡ false
      → ((ps : List Predicate) × IsBuilt v.predicate_views ps
          × (do_search m st v ≡ (
            record v { search_lim = to_string (query_lim v.search_lim); search_in_progress = true },
            some (record {
              pred = ps;
              lim = query_lim v.search_lim;
              prev = elim (last v.results_view.search_results) [
                | none ↦ none
                | some span ↦ some (unparse (st.cell span))
              ];
            }),
          )))
        ⊎ ((name : Text) × (err : Error) × FirstInvalid v.predicate_views name err
            × (do_search m st v
                ≡ (record v { warnings = invalid_field name err ∷ v.warnings }, none)))
  unfolding do_search
  do_search_lem st v idle some_views = elim (build_predicates_lem v.predicate_views []) [
    | inl (ps, h, q) ↦ inl (ps, h, rw (idle, some_views, q))
    | inr (name, err, h, q) ↦ inr (name, err, h, simp (idle, some_views, q))
  ]
