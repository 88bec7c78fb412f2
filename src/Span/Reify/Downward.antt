-- ===== src/Span/Reify/Downward.antt =====
-- The recursive look-up of children, and what both look-ups come to for the rest of the page.
use incubator_htrace.Prelude.{
  ℕ, zero, suc, ◌+◌, ◌<◌, ◌≡◌, refl, none, some, List, length, arith, inl, inr, All, All-imp,
  Bool-cases, Option-cases,
}
use incubator_htrace.Prelude.Int.{ℤ, pos, ltb_ℤ, ◌-ℤ◌}
use incubator_htrace.Tree.Growth.{traversals_terminate}
use incubator_htrace.Tree.Rose.{height}
use incubator_htrace.Span.Store.{Store, get_reified_parents, get_reified_children, Family}
use incubator_htrace.Span.Reify.{
  Server, Outcome, never, resolved, children_done, reify_children, reify_children_recursive,
}
use incubator_htrace.Span.Reify.Links.{parents_of, children_of}
use incubator_htrace.Span.Reify.Acyclic.{
  IsAcyclic, Keeps, Keeps-trans, reify_children-Keeps, reify_each-Keeps,
}

pub kids_in_use :
    (span : ℕ) (st : Store) (kids : List ℕ)
    → IsAcyclic st
    → (st.cell span).reified_children ≡ some kids
    → All (λ k. k < st.next) kids
kids_in_use span st kids a e = All-imp kids (λ y k. k.1) (rw e at (a.children.falls span))

module _ (server : Server) where
  children_done-stop :
      (lim : ℤ) (span : ℕ) (r : Store × Outcome) → (children_done server none lim span r).0 ≡ r.0
  children_done-stop lim span (st, never) = refl
  children_done-stop lim span (st, resolved err) =
      elim (Option-cases (st.cell span).reified_children) [
        | inl null ↦ rw (children_done, null)
        | inr (kids, e) ↦ elim (Option-cases err) [
          | inl fine ↦ rw (children_done, e, fine)
          | inr (f, failed) ↦ rw (children_done, e, failed)
        ]
      ]

  children_done-Keeps :
      (reify : ℤ → ℕ → Store → Store × Outcome)
      → ((lim : ℤ) (span : ℕ) (st : Store)
          → span < st.next
          → IsAcyclic st
          → Keeps st (reify lim span st).0)
      → (lim : ℤ) (span : ℕ) (r : Store × Outcome) → IsAcyclic r.0
      → Keeps r.0 (children_done server (some reify) lim span r).0
  children_done-Keeps reify step lim span (st, never) a = (a, omega arith)
  children_done-Keeps reify step lim span (st, resolved err) a =
      elim (Option-cases (st.cell span).reified_children) [
        | inl null ↦ rw (children_done, null) (a, omega arith)
        | inr (kids, e) ↦ elim (Option-cases err) [
          | inr (f, failed) ↦ rw (children_done, e, failed) (a, omega arith)
          | inl fine ↦ elim (Bool-cases (ltb_ℤ (pos 0) (lim -ℤ pos (length kids)))) [
            | inr stop ↦ rw (children_done, e, fine, stop) (a, omega arith)
            | inl more ↦
                rw (children_done, e, fine, more)
                  (reify_each-Keeps (reify (lim -ℤ pos (length kids)))
                    (step (lim -ℤ pos (length kids))) kids st (kids_in_use span st kids a e) a)
          ]
        ]
      ]

  -- However deep the look-up of the children of a span in use goes, and whatever htraced answers: no
  -- cycle of parents or of children comes about, and the spans in use stay in use.
  pub reify_children_recursive-Keeps :
      (depth : ℕ) (lim : ℤ) (span : ℕ) (st : Store)
      → span < st.next
      → IsAcyclic st
      → Keeps st (reify_children_recursive server depth lim span st).0
  unfolding reify_children_recursive
  reify_children_recursive-Keeps zero lim span st l a =
      rw (children_done-stop lim span (reify_children server lim span st))
        (reify_children-Keeps span st l a server lim)
  reify_children_recursive-Keeps (suc depth) lim span st l a =
      let first = reify_children-Keeps span st l a server lim in
      Keeps-trans st (reify_children server lim span st).0
        (reify_children_recursive server (suc depth) lim span st).0 first
        (children_done-Keeps (reify_children_recursive server depth)
          (λ i k s m b. reify_children_recursive-Keeps depth i k s m b) lim span
          (reify_children server lim span st) first.0)

-- In a store without cycles the two trees of every span are finite, so there is fuel enough for the
-- traversals of the page.
pub IsAcyclic-Family :
    (st : Store) (span : ℕ)
    → IsAcyclic st
    → (f : Family st span) × (fuel : ℕ) × (height f.up < fuel) × (height f.down < fuel)
unfolding get_reified_parents get_reified_children
IsAcyclic-Family st span a =
    let up_falls = λ (x : ℕ). All-imp (parents_of (st.cell x)) (λ y k. k.0) (a.parents.falls x) in
    let down_falls =
      λ (x : ℕ). All-imp (children_of (st.cell x)) (λ y k. k.0) (a.children.falls x) in
    let (up, up_root, up_tree, _, _, _) =
      traversals_terminate (get_reified_parents st) (λ _ _ (s : ℕ). s) a.parents.rank span
        (suc (a.parents.rank span)) 0 0 up_falls (omega arith) in
    let (down, down_root, down_tree, _, _, _) =
      traversals_terminate (get_reified_children st) (λ _ _ (s : ℕ). s) a.children.rank span
        (suc (a.children.rank span)) 0 0 down_falls (omega arith) in
    (
      record {
        up = up;
        down = down;
        up_root = up_root;
        down_root = down_root;
        up_tree = up_tree;
        down_tree = down_tree;
      },
      suc (height up + height down),
      omega arith,
      omega arith,
    )
