-- ===== src/SpanWidget.antt =====
-- htrace-webapp/src/main/webapp/app/span_widget.js: the widget of one span on the canvas, and
-- here what a click on it selects.
pub mod Selection
pub mod Links
pub mod Expand
pub mod Details
pub mod Row
use incubator_htrace.Prelude.{ℕ, Bool, true, false, not, Option, some, List, if◌then◌else◌, ◌==◌}
use incubator_htrace.Span.Store.{Store, set_selected}
use incubator_htrace.Results.{is_selected, apply_to_all_spans}

-- The callback of a plain click on `this`: the selection is set only where it changes.
unfoldable pub select_only : ℕ → ℕ → Store → Store
select_only this span s =
    if this == span
    then (if not (is_selected s span) then set_selected s span true else s)
    else if is_selected s span
    then set_selected s span false
    else s

-- The `mouseDown` case of `handle`, at a point inside the box of the widget.
unfoldable pub select_span :
    (fuel : ℕ) (search_results : List ℕ) (ctrl_key : Bool) (this : ℕ) → Store → Option Store
unfolding select_only
select_span fuel search_results ctrl_key this st =
    if ctrl_key
    then some
        (if is_selected st this then set_selected st this false else set_selected st this true)
    else apply_to_all_spans st fuel (select_only this) search_results st
