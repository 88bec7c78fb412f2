-- ===== src/Span/Extent.antt =====
-- `getEarliestBegin` and `getLatestEnd` of span.js.
use incubator_htrace.Prelude.{
  ℕ, ◌<◌, ◌≡◌, refl, ◌∙◌, Option, some, List, [], ◌∷◌, ◌++◌, ◌⊎◌, inl, inr, All, All-imp,
  All-append, Any, Any-append_left, Any-append_right, ◌>>=◌,
}
use incubator_htrace.Prelude.Int.{ℤ, ◌≤ℤ◌, min_ℤ, max_ℤ, min_ℤ_lem, max_ℤ_lem, ≤ℤ_refl, ≤ℤ_trans}
use incubator_htrace.Tree.{traverse_pre}
use incubator_htrace.Tree.Rose.{Rose, node, root, height, preorder, visit_all}
use incubator_htrace.Tree.Traversal.{traverse_pre_lem}
use incubator_htrace.Span.Store.{Store, get_reified_parents, get_reified_children, Family}

abbrev pub begin_of : Store → ℕ → ℤ
begin_of st span = (st.cell span).begin

abbrev pub end_of : Store → ℕ → ℤ
end_of st span = (st.cell span).end

module _ (st : Store) (fuel : ℕ) where
  unfoldable pub get_earliest_begin : ℕ → Option ℤ
  get_earliest_begin this = do
    earliest_begin ←
        traverse_pre (get_reified_parents st) (λ span _ e. min_ℤ e (begin_of st span)) fuel this 0
          (begin_of st this)
    traverse_pre (get_reified_children st) (λ span _ e. min_ℤ e (begin_of st span)) fuel this 0
        earliest_begin

  unfoldable pub get_latest_end : ℕ → Option ℤ
  get_latest_end this = do
    latest_end ←
        traverse_pre (get_reified_parents st) (λ span _ e. max_ℤ e (end_of st span)) fuel this 0
          (end_of st this)
    traverse_pre (get_reified_children st) (λ span _ e. max_ℤ e (end_of st span)) fuel this 0
        latest_end

Any-root :
    (P : ℕ × ℕ → Type 0) (t : Rose ℕ) (depth : ℕ) → P (root t, depth) → Any P (preorder t depth)
Any-root P (node a f) depth h = inl h

-- A running minimum or maximum: `op` gives one of its arguments, which stands in the order `R` to
-- both.
module _ (op : ℤ → ℤ → ℤ) (R : ℤ → ℤ → Type 0) (R_refl : (a : ℤ) → R a a)
    (R_trans : (a b c : ℤ) → R a b → R b c → R a c)
    (op_lem : (a b : ℤ) → R (op a b) a × R (op a b) b × ((op a b ≡ a) ⊎ (op a b ≡ b)))
    (f : ℕ → ℤ) where
  -- `e` stands in the order to the value of each visit and is one of these values.
  abbrev IsExtreme : ℤ → List (ℕ × ℕ) → Type 0
  IsExtreme e vs = All (λ v. R e (f v.0)) vs × Any (λ v. e ≡ f v.0) vs

  running :
      (vs : List (ℕ × ℕ)) (m : ℤ)
      → let e = visit_all (λ span _ m. op m (f span)) vs m in
        R e m × All (λ v. R e (f v.0)) vs × ((e ≡ m) ⊎ Any (λ v. e ≡ f v.0) vs)
  running [] m = (R_refl m, tt, inl refl)
  running ((a, d) ∷ vs) m =
      let (before, all, hit) = running vs (op m (f a)) in
      let (l, r, which) = op_lem m (f a) in
      (
        R_trans _ _ _ before l,
        (R_trans _ _ _ before r, all),
        elim hit [
          | inl q ↦ elim which [ inl p ↦ inl (q ∙ p) | inr p ↦ inr (inl (q ∙ p)) ]
          | inr h ↦ inr (inr h)
        ],
      )

  -- One traversal up and one down, from the value of the span itself.
  module _ (st : Store) (this : ℕ) (family : Family st this) (fuel : ℕ) where
    running_family :
        height family.up < fuel
        → height family.down < fuel
        → (e : ℤ) × ((do
          m ← traverse_pre (get_reified_parents st) (λ span _ m. op m (f span)) fuel this 0 (f this)
          traverse_pre (get_reified_children st) (λ span _ m. op m (f span)) fuel this 0 m)
            ≡ some e)
          × IsExtreme e (preorder family.up 0 ++ preorder family.down 0)
    running_family hu hd =
        let ups = preorder family.up 0 in
        let downs = preorder family.down 0 in
        let m = visit_all (λ span _ m. op m (f span)) ups (f this) in
        let e = visit_all (λ span _ m. op m (f span)) downs m in
        let (_, all_up, hit_up) = running ups (f this) in
        let (below, all_down, hit_down) = running downs m in
        let first = rw family.up_root at (
          traverse_pre_lem (get_reified_parents st) (λ span _ m. op m (f span)) family.up fuel 0
            (f this) family.up_tree hu) in
        let second = rw family.down_root at (
          traverse_pre_lem (get_reified_children st) (λ span _ m. op m (f span)) family.down fuel 0
            m family.down_tree hd) in
        let self : e ≡ f this → Any (λ v. e ≡ f v.0) ups =
          λ q. Any-root (λ v. e ≡ f v.0) family.up 0 (rw family.up_root q) in
        (
          e,
          rw first second,
          (
            All-append (λ v. R e (f v.0)) ups downs
                (All-imp ups (λ v k. R_trans _ _ _ below k) all_up) all_down,
            elim hit_down [
              | inl q ↦ elim hit_up [
                | inl p ↦ Any-append_left _ ups downs (self (q ∙ p))
                | inr h ↦ Any-append_left _ ups downs (rw (← q) at h)
              ]
              | inr h ↦ Any-append_right _ ups downs h
            ],
          ),
        )

-- The spans that a span can reach, each with its depth: itself and its reified parents, their
-- parents and so on; then itself again, and its reified children, their children and so on.
abbrev pub reached : {st : Store} {span : ℕ} → Family st span → List (ℕ × ℕ)
reached family = preorder family.up 0 ++ preorder family.down 0

module _ (st : Store) (this : ℕ) (family : Family st this) (fuel : ℕ) where
  -- Of a span whose two trees are finite and less high than the fuel, `getEarliestBegin` gives a
  -- time: no span that it reaches begins before it, and one of them begins at it.
  pub get_earliest_begin_lem :
      height family.up < fuel
      → height family.down < fuel
      → (e : ℤ) × (get_earliest_begin st fuel this ≡ some e)
        × All (λ v. e ≤ℤ begin_of st v.0) (reached family)
        × Any (λ v. e ≡ begin_of st v.0) (reached family)
  unfolding get_earliest_begin
  get_earliest_begin_lem hu hd =
      let (e, p, both) =
        running_family min_ℤ ◌≤ℤ◌ ≤ℤ_refl ≤ℤ_trans min_ℤ_lem (begin_of st) st this family fuel hu
          hd in
      (e, p, both.0, both.1)

  -- Of a span whose two trees are finite and less high than the fuel, `getLatestEnd` gives a time:
  -- no span that it reaches ends after it, and one of them ends at it.
  pub get_latest_end_lem :
      height family.up < fuel
      → height family.down < fuel
      → (e : ℤ) × (get_latest_end st fuel this ≡ some e)
        × All (λ v. end_of st v.0 ≤ℤ e) (reached family)
        × Any (λ v. e ≡ end_of st v.0) (reached family)
  unfolding get_latest_end
  get_latest_end_lem hu hd =
      let (e, p, both) =
        running_family max_ℤ (λ a b. b ≤ℤ a) ≤ℤ_refl (λ a b c h k. ≤ℤ_trans c b a k h) max_ℤ_lem
          (end_of st) st this family fuel hu hd in
      (e, p, both.0, both.1)
