-- ===== src/TracePage.antt =====
-- The page of one trace of the HBase receiver, htrace-hbase/src/main/webapps/htrace/spans.js: the
-- spans of the trace are put under their parents and listed in the order of their rows;
-- TracePage/Drawing has the places of their bars. What d3 makes of them is not modelled.
--
-- Spans are named by numbers, since the program changes them. `d3.nest` is a parameter: what
-- `byparent.get` gives for an id, or `none` where it gives undefined. As on the other page, a time
-- in JSON is an integer, so that `parseInt` gives it back.
pub mod Rows
pub mod Drawing
use incubator_htrace.Prelude.{
  ℕ, zero, suc, ◌+◌, Option, none, some, List, [], ◌∷◌, ◌++◌, Text, text, text_eq, ◌==◌,
  if◌then◌else◌, ◌>>=◌, ◌≡◌,
}
use incubator_htrace.Prelude.Int.{ℤ}
use incubator_htrace.Prelude.Sort.{compare_by, sort}
use incubator_htrace.Tree.{for_each}

pub record TraceSpan : Type 0 where
  pub span_id : Text
  pub parent_id : Text
  pub start : ℤ
  pub stop : ℤ

-- `e.children` of each span; `none` is undefined.
abbrev pub Children : Type 0
Children = ℕ → Option (List ℕ)

abbrev pub root_span_id : Text
root_span_id = text "0"

module _ (cell : ℕ → TraceSpan) where
  -- The spans with one parent.
  abbrev pub with_parent : Text → List ℕ → List ℕ
  with_parent k [] = []
  with_parent k (e ∷ es) =
      let rest = with_parent k es in if text_eq (cell e).parent_id k then e ∷ rest else rest

  abbrev pub if_any : List ℕ → Option (List ℕ)
  if_any [] = none
  if_any (e ∷ es) = some (e ∷ es)

  -- What d3 documents of `nest().sortValues(…).key(…).map(spans, d3.map)`, with the comparison by
  -- `start` and the key `parent_id`.
  pub record IsNest (nest : List ℕ → Text → Option (List ℕ)) : Type 0 where
    pub get :
        (spans : List ℕ) (k : Text)
        → nest spans k ≡ if_any (sort (compare_by (λ e. (cell e).start)) (with_parent k spans))

module _ (cell : ℕ → TraceSpan) (byparent : Text → Option (List ℕ)) where
  abbrev pub set_children : Children → ℕ → List ℕ → Children
  set_children children e nodes j = if j == e then some nodes else children j

  -- The body of the loop, with what it calls for the spans below.
  unfoldable pub add_step : (List ℕ → Children → Option Children) → ℕ → Children → Option Children
  add_step deeper e children = elim (byparent (cell e).span_id) [
    | none ↦ some children
    | some found ↦ deeper found (set_children children e found)
  ]

  unfoldable pub addchildren : (fuel : ℕ) → List ℕ → Children → Option Children
  unfolding for_each add_step
  addchildren zero nodes children = none
  addchildren (suc fuel) nodes children = for_each nodes (add_step (addchildren fuel)) children

module _ (children : Children) where
  -- The body of the loop; the callback collects the spans, with the depth of the visit. The program
  -- writes the depth into the span, so that a span that is visited twice, as it is only if its id
  -- comes twice in the data, is drawn with its last depth in both places.
  unfoldable pub visit_step :
      (List ℕ → List (ℕ × ℕ) → Option (List (ℕ × ℕ)))
      → (depth : ℕ) → ℕ
      → List (ℕ × ℕ)
      → Option (List (ℕ × ℕ))
  visit_step deeper depth e sorted_spans =
      let spans = sorted_spans ++ (e, depth) ∷ [] in
      elim (children e) [ none ↦ some spans | some found ↦ deeper found spans ]

  unfoldable pub traverse : (fuel depth : ℕ) → List ℕ → List (ℕ × ℕ) → Option (List (ℕ × ℕ))
  unfolding for_each visit_step
  traverse zero depth nodes sorted_spans = none
  traverse (suc fuel) depth nodes sorted_spans =
      for_each nodes (visit_step (traverse fuel (depth + 1)) depth) sorted_spans

-- The rows of the page. Without a span below the root there is an exception, `none`.
unfoldable pub sorted_rows :
    (cell : ℕ → TraceSpan) (nest : List ℕ → Text → Option (List ℕ)) (fuel : ℕ)
    → List ℕ
    → Option (List (ℕ × ℕ))
unfolding addchildren traverse
sorted_rows cell nest fuel spans = do
  top ← nest spans root_span_id
  children ← addchildren cell (nest spans) fuel top (λ e. none)
  traverse children fuel 0 top []
