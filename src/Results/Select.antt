-- ===== src/Results/Select.antt =====
-- Which spans are selected: `getSelectedSpansOrAllSpans`, and a click on the widget of a span
-- (the `mouseDown` case of span_widget.js).
use incubator_htrace.Prelude.{
  ℕ, ◌≡◌, sym, ap, ◌∙◌, Bool, true, false, not, ◌||◌, some, List, [], ◌∷◌, ◌++◌, if◌then◌else◌,
  Bool-cases, inl, inr,
}
use mathlib.Core.List.{append-nil, append_assoc}
use incubator_htrace.Span.Store.{Store}
use incubator_htrace.Results.{is_selected, collect, get_selected_spans_or_all_spans}
use incubator_htrace.Results.Spans.{Families, all_spans, fold, apply_to_all_spans_lem}

module _ (st : Store) where
  abbrev pub any_selected : List ℕ → Bool
  any_selected [] = false
  any_selected (a ∷ xs) = is_selected st a || any_selected xs

  abbrev pub only_selected : List ℕ → List ℕ
  only_selected [] = []
  only_selected (a ∷ xs) = if is_selected st a then a ∷ only_selected xs else only_selected xs

  -- The selected ones, or all if none is.
  abbrev pub selected_or_all : List ℕ → List ℕ
  selected_or_all xs = if any_selected xs then only_selected xs else xs

  module _ (fuel : ℕ) where
    collect_selected :
        (xs ret : List ℕ)
        → fold (collect st fuel) xs (ret, false) ≡ (ret ++ only_selected xs, false)
    unfolding collect
    collect_selected [] ret = ap (λ (l : List ℕ). (l, false)) (sym (append-nil ret))
    collect_selected (a ∷ xs) ret = elim (Bool-cases (is_selected st a)) [
      | inl on ↦ rw on (
          collect_selected xs (ret ++ a ∷ [])
          ∙ ap (λ (l : List ℕ). (l, false)) (append_assoc ret (a ∷ []) (only_selected xs)))
      | inr off ↦ rw off (collect_selected xs ret)
    ]

    collect_all :
        (xs ret : List ℕ)
        → fold (collect st fuel) xs (ret, true)
          ≡ (if any_selected xs then only_selected xs else ret ++ xs, not (any_selected xs))
    unfolding collect
    collect_all [] ret = ap (λ (l : List ℕ). (l, true)) (sym (append-nil ret))
    collect_all (a ∷ xs) ret = elim (Bool-cases (is_selected st a)) [
      | inl on ↦ rw on (collect_selected xs (a ∷ []))
      | inr off ↦ rw off (
          collect_all xs (ret ++ a ∷ [])
          ∙ ap
              (λ (l : List ℕ).
                (if any_selected xs then only_selected xs else l, not (any_selected xs)))
              (append_assoc ret (a ∷ []) xs))
    ]

    -- Over results with finite trees that are less high than the fuel,
    -- `getSelectedSpansOrAllSpans` gives the spans on the page that are selected, in order, or all
    -- of them if none is.
    pub get_selected_spans_or_all_spans_lem :
        (results : List ℕ) (families : Families st fuel results)
        → get_selected_spans_or_all_spans st fuel results
          ≡ some (selected_or_all (all_spans st fuel results families))
    unfolding get_selected_spans_or_all_spans
    get_selected_spans_or_all_spans_lem results families = rw (
      apply_to_all_spans_lem (collect st fuel) st fuel results families ([], true),
      collect_all (all_spans st fuel results families) [],
    )
