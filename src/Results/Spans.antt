-- ===== src/Results/Spans.antt =====
-- `applyToAllSpans` against the list of the spans that are on the page.
use incubator_htrace.Prelude.{
  ℕ, zero, suc, ◌<◌, ltb, lt→ltb, ◌≡◌, refl, sym, ap, ◌∙◌, some, List, [], ◌∷◌, ◌++◌, arith,
  if◌then◌else◌,
}
use incubator_htrace.Tree.{for_each}
use incubator_htrace.Tree.Rose.{height, preorder, visit_all}
use incubator_htrace.Tree.Traversal.{traverse_pre_lem}
use incubator_htrace.Span.Store.{Store, get_reified_parents, get_reified_children, Family}
use incubator_htrace.Results.{visit_result, apply_to_all_spans}

-- The nodes of the visits; and those below the root.
abbrev pub nodes : List (ℕ × ℕ) → List ℕ
nodes [] = []
nodes ((a, d) ∷ vs) = a ∷ nodes vs

abbrev pub deeper : List (ℕ × ℕ) → List ℕ
deeper [] = []
deeper ((a, zero) ∷ vs) = deeper vs
deeper ((a, suc d) ∷ vs) = a ∷ deeper vs

-- The spans of one result: itself and all below it, then all above it.
abbrev pub spans_of : {st : Store} {span : ℕ} → Family st span → List ℕ
spans_of family = nodes (preorder family.down 0) ++ deeper (preorder family.up 0)

-- A family for each result, less high than the fuel.
abbrev pub Families : Store → ℕ → List ℕ → Type 0
Families st fuel [] = Unit
Families st fuel (r ∷ rs) =
    ((f : Family st r) × (height f.up < fuel) × (height f.down < fuel)) × Families st fuel rs

-- The spans on the page, result by result.
abbrev pub all_spans :
    (st : Store) (fuel : ℕ) (results : List ℕ) → Families st fuel results → List ℕ
all_spans st fuel [] fs = []
all_spans st fuel (r ∷ rs) (f, fs) = spans_of f.0 ++ all_spans st fuel rs fs

abbrev pub fold {κ} : {S : Type κ} → (ℕ → S → S) → List ℕ → S → S
fold cb [] s = s
fold cb (a ∷ xs) s = fold cb xs (cb a s)

module _ {κ} {S : Type κ} (cb : ℕ → S → S) where
  pub fold-append : (xs ys : List ℕ) (s : S) → fold cb (xs ++ ys) s ≡ fold cb ys (fold cb xs s)
  fold-append [] ys s = refl
  fold-append (a ∷ xs) ys s = fold-append xs ys (cb a s)

  visit_all-nodes :
      (vs : List (ℕ × ℕ)) (s : S) → visit_all (λ node _. cb node) vs s ≡ fold cb (nodes vs) s
  visit_all-nodes [] s = refl
  visit_all-nodes ((a, d) ∷ vs) s = visit_all-nodes vs (cb a s)

  visit_all-deeper :
      (vs : List (ℕ × ℕ)) (s : S)
      → visit_all (λ node depth t. if ltb 0 depth then cb node t else t) vs s
        ≡ fold cb (deeper vs) s
  visit_all-deeper [] s = refl
  visit_all-deeper ((a, zero) ∷ vs) s = visit_all-deeper vs s
  visit_all-deeper ((a, suc d) ∷ vs) s =
      rw (lt→ltb 0 (suc d) (omega arith)) (visit_all-deeper vs (cb a s))

  visit_result_lem :
      (st : Store) (fuel r : ℕ) (f : Family st r) (s : S)
      → height f.up < fuel
      → height f.down < fuel
      → visit_result st fuel cb r s ≡ some (fold cb (spans_of f) s)
  unfolding visit_result
  visit_result_lem st fuel r f s hu hd =
      let downs = preorder f.down 0 in
      let ups = preorder f.up 0 in
      let below = rw f.down_root at (
        traverse_pre_lem (get_reified_children st) (λ node _. cb node) f.down fuel 0 s f.down_tree
          hd) in
      let s1 = visit_all (λ node _. cb node) downs s in
      let above = rw f.up_root at (
        traverse_pre_lem (get_reified_parents st)
          (λ node depth t. if ltb 0 depth then cb node t else t) f.up fuel 0 s1 f.up_tree hu) in
      rw below above
      ∙ ap some (
          visit_all-deeper ups s1
          ∙ ap (fold cb (deeper ups)) (visit_all-nodes downs s)
          ∙ sym (fold-append (nodes downs) (deeper ups) s))

  -- Over results with finite trees that are less high than the fuel, `applyToAllSpans` makes the
  -- callback on each span of each result, in order: the result, what is below it, and what is above
  -- it.
  pub apply_to_all_spans_lem :
      (st : Store) (fuel : ℕ) (results : List ℕ) (families : Families st fuel results) (s : S)
      → apply_to_all_spans st fuel cb results s
        ≡ some (fold cb (all_spans st fuel results families) s)
  unfolding apply_to_all_spans for_each
  apply_to_all_spans_lem st fuel [] fs s = refl
  apply_to_all_spans_lem st fuel (r ∷ rs) ((f, hu, hd), fs) s =
      rw (visit_result_lem st fuel r f s hu hd, for_each)
        (apply_to_all_spans_lem st fuel rs fs (fold cb (spans_of f) s)
          ∙ ap some (sym (fold-append (spans_of f) (all_spans st fuel rs fs) s)))
