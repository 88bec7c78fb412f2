-- ===== src/SpanWidget/Selection.antt =====
-- What a click on a span leaves selected.
use incubator_htrace.Prelude.{
  ℕ, ◌≡◌, refl, ap, ◌∙◌, ◌∙◌, Bool, true, false, not, some, List, [], ◌∷◌, arith, if◌then◌else◌,
  ◌==◌,
}
use incubator_htrace.Span.{Span}
use incubator_htrace.Span.Store.{Store, set_selected}
use incubator_htrace.Widget.Manager.{contains}
use incubator_htrace.Results.{is_selected}
use incubator_htrace.Results.Spans.{Families, all_spans, fold, apply_to_all_spans_lem}
use incubator_htrace.SpanWidget.{select_only, select_span}

-- A span as it was, but for its selection.
abbrev pub with_selection : Span → Bool → Span
with_selection s value = record s { selected = value }

module _ (this : ℕ) where
  select_only_lem :
      (node : ℕ) (s : Store) (j : ℕ)
      → (select_only this node s).cell j
        ≡ with_selection (s.cell j) (if node == j then this == j else is_selected s j)
  unfolding select_only set_selected
  select_only_lem node s j = ground arith

  select_only_each :
      (xs : List ℕ) (s : Store) (j : ℕ)
      → (fold (select_only this) xs s).cell j
        ≡ with_selection (s.cell j) (if contains j xs then this == j else is_selected s j)
  select_only_each [] s j = refl
  select_only_each (a ∷ xs) s j =
      select_only_each xs (select_only this a s) j
      ∙ ap (λ (x : Span). with_selection x (if contains j xs then this == j else x.selected))
          (select_only_lem a s j)
      ∙ ap (with_selection (s.cell j)) (ground arith)

module _ (fuel : ℕ) (results : List ℕ) (this : ℕ) (st : Store) where
  -- After a plain click on a span, over results with finite trees that are less high than the
  -- fuel, of the spans on the page exactly this one is selected. The selection of other spans and
  -- all other attributes are as they were.
  pub select_span_plain :
      (families : Families st fuel results) (j : ℕ)
      → (s' : Store) × (select_span fuel results false this st ≡ some s')
        × (s'.cell j
            ≡ with_selection (st.cell j) (
                if contains j (all_spans st fuel results families)
                then this == j
                else is_selected st j))
  unfolding select_span
  select_span_plain families j = (
    fold (select_only this) (all_spans st fuel results families) st,
    apply_to_all_spans_lem (select_only this) st fuel results families st,
    select_only_each this (all_spans st fuel results families) st j,
  )

  -- A click with the control key turns the selection of the span over, and changes no other span.
  pub select_span_ctrl :
      (j : ℕ)
      → (s' : Store) × (select_span fuel results true this st ≡ some s')
        × (s'.cell j
            ≡ with_selection
                (st.cell j)
                (if this == j then not (is_selected st j) else is_selected st j))
  unfolding select_span set_selected
  select_span_ctrl j = (
    (if is_selected st this then set_selected st this false else set_selected st this true),
    refl,
    ground arith,
  )
