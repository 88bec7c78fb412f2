-- ===== src/Results/Timeline.antt =====
-- The window of time of search_results_view.js: `setTimes`, `handleBeginOrEndChange` and
-- `zoomHandler`.
pub mod Bounds
pub mod Zoom
pub mod Timely
use incubator_htrace.Prelude.{
  ℕ, zero, suc, ◌*◌, ◌^◌, Option, none, some, List, [], ◌∷◌, Text, if◌then◌else◌, ◌>>=◌,
}
use incubator_htrace.Prelude.Int.{ℤ, pos, negsuc, pos_part, neg_part, sub_ℕ, ltb_ℤ, ◌-ℤ◌, ◌+ℤ◌}
use incubator_htrace.Tree.{for_each}
use incubator_htrace.Span.Store.{Store}
use incubator_htrace.Span.Extent.{get_earliest_begin, get_latest_end}
use incubator_htrace.Format.{Error, Result, ok, throw, MomentJs, parse_date}
use incubator_htrace.Results.{Window, View, render, get_selected_spans_or_all_spans}

abbrev pub minimum_time_span : ℕ
minimum_time_span = 100

-- A time in milliseconds, in the units of a window.
abbrev pub in_units : ℕ → ℤ → ℤ
in_units scale x = sub_ℕ (pos_part x * 2 ^ scale) (neg_part x * 2 ^ scale)

-- `if (params[k]) { this.k = params[k]; }`: neither an absent time nor the time 0 is set.
abbrev pub set_time : ℕ → Option ℤ → ℤ → ℤ
set_time scale none old = old
set_time scale (some (pos zero)) old = old
set_time scale (some (pos (suc n))) old = in_units scale (pos (suc n))
set_time scale (some (negsuc n)) old = in_units scale (negsuc n)

-- The exchange of the two times, if they are in the wrong order.
abbrev pub in_order : Window → Window
in_order w = if ltb_ℤ w.end w.begin then record w { begin = w.end; end = w.begin } else w

-- The widening of a window that is too narrow: half of what is needed at each end, which in units
-- of half the size is the whole of it.
pub widen : Window → Window
widen w =
    let delta = w.end -ℤ w.begin in
    let minimum = pos (minimum_time_span * 2 ^ w.scale) in
    let needed = minimum -ℤ delta in
    if ltb_ℤ delta minimum
    then record {
      begin = (w.begin +ℤ w.begin) -ℤ needed;
      end = (w.end +ℤ w.end) +ℤ needed;
      scale = suc w.scale;
    }
    else w

pub new_window : Option ℤ → Option ℤ → Window → Window
unfolding widen
new_window begin end w = widen (
    in_order
      (record w { begin = set_time w.scale begin w.begin; end = set_time w.scale end w.end }))

-- `setTimes({begin: …, end: …})`
unfoldable pub set_times : Option ℤ → Option ℤ → View → View
unfolding new_window
set_times begin end v = record v {
  window = new_window begin end v.window;
  shown = new_window begin end v.window;
}

-- `type` of `handleBeginOrEndChange`: its callers pass "begin" and "end".
pub data Side : Type 0 where
  begin_side end_side : Side

-- NaN is falsy, so that `setTimes` does not set it.
abbrev pub set_side : Side → Option ℤ → View → View
set_side begin_side d v = set_times d none v
set_side end_side d v = set_times none d v

-- `handleBeginOrEndChange`, of the trimmed text of the input field. The error is the one that the
-- modal warning shows.
unfoldable pub handle_begin_or_end_change : MomentJs → Text → Side → View → View × Option Error
handle_begin_or_end_change m val type v = elim (parse_date m val) [
  | ok d ↦ (render (set_side type (m.value_of d) v), none)
  | throw err ↦ (record v { shown = v.window }, some err)
]

module _ (st : Store) (fuel : ℕ) where
  -- The loop of `zoomHandler`, over `minStart` and `maxEnd`.
  pub extend : List ℕ → ℤ × ℤ → Option (ℤ × ℤ)
  unfolding for_each
  extend zoom_spans = for_each zoom_spans (λ span s. do
    begin ← get_earliest_begin st fuel span
    end ← get_latest_end st fuel span
    some (if ltb_ℤ begin s.0 then begin else s.0, if ltb_ℤ s.1 end then end else s.1))

  abbrev pub zoom_to : View → List ℕ → Option View
  zoom_to v [] = some (render (set_times (some (pos 0)) (some (pos minimum_time_span)) v))
  zoom_to v (span ∷ spans) = do
    s ← extend (span ∷ spans) (pos 4503599627370496, pos 0)
    some (render (set_times (some s.0) (some s.1) v))

  unfoldable pub zoom_handler : View → Option View
  unfolding extend
  zoom_handler v = do
    zoom_spans ← get_selected_spans_or_all_spans st fuel v.search_results
    zoom_to v zoom_spans
