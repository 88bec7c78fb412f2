-- ===== src/SpanWidget/Row.antt =====
-- `handle` of span_widget.js.
use incubator_htrace.Prelude.{ℕ, Bool, true, false, Option, none, some, List, ◌∷◌, if◌then◌else◌}
use incubator_htrace.Span.Store.{Store}
use incubator_htrace.Widget.{
  Number, Event, EventType, mouse_down, mouse_up, mouse_move, mouse_out, dblclick, draw,
  in_bounding_box,
}
use incubator_htrace.SpanWidget.{select_span}
use incubator_htrace.Canvas.Bars.{SpanWidget}

-- The spans on the page, and those whose details were shown, the last one first.
pub record Spans : Type 0 where
  pub models : Store
  pub details : List ℕ

module _ {W : Type 0} ⦃n : Number W⦄ (fuel : ℕ) (search_results : List ℕ) (w : SpanWidget W)
    (span : ℕ) where
  abbrev pub in_row : Event W → Bool
  in_row e = in_bounding_box e.x e.y w.x0 w.x_f w.y0 w.y_f

  -- The `mouseDown` case; `none` means that the fuel of the traversals ran out.
  unfoldable pub press_row : Event W → Spans → Option Spans
  press_row e p =
      if in_row e
      then elim (select_span fuel search_results e.ctrl_key span p.models) [
        | none ↦ none
        | some st ↦ some (record p { models = st })
      ]
      else some p

  -- The `switch` of `handle`. The types without a case have no result, which is falsy.
  unfoldable pub turn_row : EventType → Event W → Spans → Option Spans × Bool
  unfolding press_row
  turn_row mouse_down e p = (press_row e p, true)
  turn_row draw e p = (some p, true)
  turn_row dblclick e p =
      (some (if in_row e then record p { details = span ∷ p.details } else p), true)
  turn_row mouse_up e p = (some p, false)
  turn_row mouse_move e p = (some p, false)
  turn_row mouse_out e p = (some p, false)

  unfoldable pub handle_row : Event W → Spans → Option Spans × Bool
  unfolding turn_row
  handle_row e p = turn_row e.type e p
