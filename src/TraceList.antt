-- ===== src/TraceList.antt =====
-- The list of traces of the HBase receiver, htrace-hbase/src/main/webapps/htrace/traces.js: its rows,
-- which d3 sorts by a comparison of their spans. How d3 writes a cell is not modelled.
use Prim.Native.Nat.{Ordering}
use mathlib.Core.List.{Perm}
use incubator_htrace.Prelude.{List, [], ◌∷◌, ◌++◌, Text, text, if◌then◌else◌, arith, map}
use incubator_htrace.Prelude.Int.{ℤ, ltb_ℤ, ◌≤ℤ◌}
use incubator_htrace.Prelude.Sort.{sort, sort-perm}
use incubator_htrace.Prelude.Order.{IsOrder, IsOrdered, sort-IsOrdered}
use incubator_htrace.Format.{to_string}

pub record Trace : Type 0 where
  pub trace_id : Text
  pub start : ℤ
  pub process_id : Text
  pub description : Text

-- A row: what a click on it does, and its columns.
pub record TraceRow : Type 0 where
  pub onclick : Text
  pub columns : List Text

abbrev pub compare_traces : Trace → Trace → Ordering
compare_traces a b =
    if ltb_ℤ b.start a.start
    then Ordering.lt
    else if ltb_ℤ a.start b.start
    then Ordering.gt
    else Ordering.eq

unfoldable pub trace_row : Trace → TraceRow
trace_row d = record {
  onclick = text "window.location='spans.html?traceid=" ++ d.trace_id ++ text "'";
  columns = to_string d.start ∷ d.process_id ∷ d.description ∷ [];
}

-- The traces in the order of their rows.
unfoldable pub sorted_traces : List Trace → List Trace
sorted_traces = sort compare_traces

unfoldable pub trace_rows : List Trace → List TraceRow
unfolding sorted_traces trace_row
trace_rows spans = map trace_row (sorted_traces spans)

-- Not older.
abbrev pub StartsAfter : Trace → Trace → Type 0
StartsAfter a b = b.start ≤ℤ a.start

compare_traces-IsOrder : IsOrder compare_traces StartsAfter
compare_traces-IsOrder = record {
  gt = λ a b h. ground arith;
  le = λ a b h. ground arith;
  trans = λ a b c h k. omega arith;
}

-- The list has every trace once, the latest ones first.
pub sorted_traces_lem :
    (spans : List Trace)
    → Perm (sorted_traces spans) spans × IsOrdered compare_traces StartsAfter (sorted_traces spans)
unfolding sorted_traces
sorted_traces_lem spans = (
  sort-perm compare_traces spans,
  sort-IsOrdered compare_traces StartsAfter compare_traces-IsOrder spans,
)
