-- ===== src/SpanGroup/Groups.antt =====
-- The loop of `setupWidgets` (search_results_view.js) over the results: one group below the other.
use incubator_htrace.Prelude.{
  ℕ, ◌+◌, ◌*◌, ◌≡◌, sym, ap, ◌∙◌, Option, some, List, [], ◌∷◌, ◌++◌, length, ◌>>=◌,
}
use mathlib.Core.List.{append-nil, append_assoc}
use incubator_htrace.Tree.{for_each}
use incubator_htrace.Span.Store.{Store}
use incubator_htrace.Widget.{Number}
use incubator_htrace.Results.Spans.{Families}
use incubator_htrace.SpanGroup.{Row, GroupParams, lay_out}
use incubator_htrace.SpanGroup.Layout.{items, stack, lay_out_lem}

module _ {W : Type 0} ⦃n : Number W⦄ (x_d x_f : W) (span_widget_height : ℕ) (st : Store)
    (fuel : ℕ) where
  abbrev pub group_of : ℕ → ℕ → GroupParams W
  group_of span y = record {
    span = span;
    x_d = x_d;
    x_f = x_f;
    y0 = y;
    span_widget_height = span_widget_height;
  }

  -- One round: the rows so far, and `groupY`.
  pub set_up_group : ℕ → List (Row W) × ℕ → Option (List (Row W) × ℕ)
  set_up_group span s = do g ← lay_out (group_of span s.1) st fuel; some (s.0 ++ g.0, g.1)

  unfoldable pub set_up_groups : List ℕ → ℕ → Option (List (Row W) × ℕ)
  unfolding for_each set_up_group
  set_up_groups search_results group_y = for_each search_results set_up_group ([], group_y)

  -- The rows that the results are to have, and the height at which they end.
  abbrev pub all_rows : (results : List ℕ) → Families st fuel results → ℕ → List (Row W)
  all_rows [] fs y = []
  all_rows (r ∷ rs) (f, fs) y =
      stack (group_of r y) (y + 4) (items f.0)
      ++ all_rows rs fs (y + 4 + length (items f.0) * span_widget_height + 4)

  abbrev pub end_of_rows : (results : List ℕ) → Families st fuel results → ℕ → ℕ
  end_of_rows [] fs y = y
  end_of_rows (r ∷ rs) (f, fs) y =
      end_of_rows rs fs (y + 4 + length (items f.0) * span_widget_height + 4)

  groups_from :
      (results : List ℕ) (fs : Families st fuel results) (rows : List (Row W)) (y : ℕ)
      → for_each results set_up_group (rows, y)
        ≡ some (rows ++ all_rows results fs y, end_of_rows results fs y)
  unfolding set_up_group for_each
  groups_from [] fs rows y = ap (λ (l : List (Row W)). some (l, y)) (sym (append-nil rows))
  groups_from (r ∷ rs) ((f, hu, hd), fs) rows y =
      let own = stack (group_of r y) (y + 4) (items f) in
      let y' = y + 4 + length (items f) * span_widget_height + 4 in
      rw (for_each, (lay_out_lem (group_of r y) st fuel f hu hd).0)
        (groups_from rs fs (rows ++ own) y'
          ∙ ap (λ (l : List (Row W)). some (l, end_of_rows rs fs y'))
              (append_assoc rows own (all_rows rs fs y')))

  -- Over results with finite trees that are less high than the fuel, the rows of the page are those
  -- of its groups, each group directly below the one before it.
  pub set_up_groups_lem :
      (results : List ℕ) (families : Families st fuel results) (y : ℕ)
      → set_up_groups results y ≡ some (all_rows results families y, end_of_rows results families y)
  unfolding set_up_groups
  set_up_groups_lem results families y = groups_from results families [] y
