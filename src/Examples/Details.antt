-- ===== src/Examples/Details.antt =====
-- The details of a span with annotations.
use incubator_htrace.Prelude.{◌≡◌, some, false, none, [], ◌∷◌, Text, text, Option, All}
use incubator_htrace.Prelude.Int.{pos}
use incubator_htrace.Prelude.Order.{IsOrdered}
use mathlib.Core.List.{Perm}
use incubator_htrace.Span.{Span}
use incubator_htrace.SpanWidget.Details.{Value, collect_details, compare_keys, show_span_details}
use incubator_htrace.SpanWidget.Details.Keys.{detail_keys}
use incubator_htrace.SpanWidget.Details.Rows.{names, GoesAbove, show_span_details_lem}
use incubator_htrace.Examples.Data.{span_id, moments}

abbrev span : Span
span = record {
  span_id = span_id;
  tracer_id = text "NameNode";
  parents = span_id ∷ [];
  description = text "getFileInfo";
  begin = pos 1441134000000;
  end = pos 1441134000500;
  time_annotations = record { t = pos 3; m = text "start" } ∷ [];
  info_annotations = (text "path", text "/tmp") ∷ [];
  selected = false;
  reified_children = none;
  reified_parents = none;
}

show_span_details_lem_example :
    let rows = show_span_details moments span in
    let order = (collect_details moments span).explicit_order in
    Perm (names rows) (detail_keys moments span)
    × All (λ (row : Text × Option Value). (v : Value) × (row.1 ≡ some v)) rows
    × IsOrdered (compare_keys order) (GoesAbove order) (names rows)
show_span_details_lem_example = show_span_details_lem moments span
