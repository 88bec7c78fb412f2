-- ===== src/SearchView/Closing.antt =====
-- The loop of `close`.
use incubator_htrace.Prelude.{
  ℕ, zero, suc, ◌≤◌, ◌≡◌, refl, some, List, [], ◌∷◌, arith, inl, inr, Bool-cases, ◌==◌, length,
}
use incubator_htrace.Widget.Triangle.Session.{==_refl}
use incubator_htrace.SearchView.{PredicateView, close_views}
use incubator_htrace.SearchView.Requests.{IsWithoutView}

module _ (without : List PredicateView → PredicateView → List PredicateView)
    (law : IsWithoutView without) where
  length-without : (vs : List PredicateView) (w : PredicateView) → length (without vs w) ≤ length vs
  length-without [] w = rw (law.nil w) (omega arith)
  length-without (v ∷ vs) w = rw (law.cons v vs w) (elim (Bool-cases (v.index == w.index)) [
    | inl same ↦ rw same (omega (arith, length-without vs w))
    | inr other ↦ rw other (omega (arith, length-without vs w))
  ])

  -- The loop of `close` comes to an end, with no predicate view left, in at most as many rounds
  -- as there are views, if `_.without` does what is documented of it.
  pub close_views_lem :
      (fuel : ℕ) (vs : List PredicateView)
      → length vs ≤ fuel
      → close_views without fuel vs ≡ some []
  unfolding close_views
  close_views_lem fuel [] h = refl
  close_views_lem zero (v ∷ vs) h = absurd (omega arith)
  close_views_lem (suc fuel) (v ∷ vs) h =
      close_views_lem fuel (without (v ∷ vs) v)
        (rw (law.cons v vs v, ==_refl v.index) (omega (arith, length-without vs v)))
