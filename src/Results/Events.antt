-- ===== src/Results/Events.antt =====
-- The events of the browser in search_results_view.js: the mouse on the canvas, and the keys while the
-- canvas has the focus; and the scale of the canvas.
use incubator_htrace.Prelude.{
  ℕ, ◌≡◌, Bool, true, false, ◌&&◌, not, Option, none, some, List, [], ◌∷◌, ◌==◌, if◌then◌else◌,
  ◌>>=◌, arith,
}
use incubator_htrace.Prelude.Int.{pos}
use incubator_htrace.Span.Store.{Store}
use incubator_htrace.Widget.{
  Number, Event, EventType, mouse_down, mouse_up, mouse_move, mouse_out, dblclick,
}
use incubator_htrace.Results.{View}
use incubator_htrace.Results.Spans.{Families}
use incubator_htrace.Results.Clear.{clear_handler}
use incubator_htrace.Results.Clear.Laws.{IsRemove, any_marked, all_marked, clear_handler-none}
use incubator_htrace.Results.Timeline.{zoom_handler}

-- A mouse event, by its place on the page.
pub record MouseEvent (W : Type 0) : Type 0 where
  pub page_x : W
  pub page_y : W
  pub ctrl_key : Bool

-- `$("#resultsCanvas").offset()`
pub record Offset (W : Type 0) : Type 0 where
  pub left : W
  pub top : W

module _ {W : Type 0} ⦃n : Number W⦄ (offset : Offset W) where
  unfoldable pub get_canvas_x : MouseEvent W → W
  get_canvas_x e = n.sub e.page_x offset.left

  unfoldable pub get_canvas_y : MouseEvent W → W
  get_canvas_y e = n.sub e.page_y offset.top

  -- The event that the widget manager is given.
  unfoldable pub canvas_event : EventType → MouseEvent W → Event W
  unfolding get_canvas_x get_canvas_y
  canvas_event type e = record {
    type = type;
    x = get_canvas_x e;
    y = get_canvas_y e;
    ctrl_key = e.ctrl_key;
  }

  -- The handlers: the widget manager handles the event, and the page is drawn, whatever that did.
  module _ {S : Type 0} (handle : Event W → S → S) (draw_page : S → S) where
    unfoldable pub handle_mouse : EventType → MouseEvent W → S → S
    unfolding canvas_event
    handle_mouse type e s = draw_page (handle (canvas_event type e) s)

    unfoldable pub handle_mouse_down : MouseEvent W → S → S
    unfolding handle_mouse
    handle_mouse_down = handle_mouse mouse_down

    unfoldable pub handle_mouse_up : MouseEvent W → S → S
    unfolding handle_mouse
    handle_mouse_up = handle_mouse mouse_up

    unfoldable pub handle_mouse_move : MouseEvent W → S → S
    unfolding handle_mouse
    handle_mouse_move = handle_mouse mouse_move

    unfoldable pub handle_dblclick : MouseEvent W → S → S
    unfolding handle_mouse
    handle_dblclick = handle_mouse dblclick

    -- An exit of the mouse has no place; no handler reads it.
    unfoldable pub handle_mouse_out : MouseEvent W → S → S
    handle_mouse_out e s = draw_page (
        handle
          (record { type = mouse_out; x = n.of_ℤ (pos 0); y = n.of_ℤ (pos 0); ctrl_key = false }) s)

-- `computeScaleFactor`, of the properties of the context in the order in which they are tried, and
-- the ratio of the window. Zero and undefined are falsy.
module _ {W : Type 0} ⦃n : Number W⦄ where
  abbrev pub ratio_or : Option W → W → W
  ratio_or none default = default
  ratio_or (some x) default =
      if n.le x (n.of_ℤ (pos 0)) && n.le (n.of_ℤ (pos 0)) x then default else x

  abbrev pub first_ratio : List (Option W) → W
  first_ratio [] = n.of_ℤ (pos 1)
  first_ratio (x ∷ xs) = ratio_or x (first_ratio xs)

  unfoldable pub compute_scale_factor :
      (backing_store_ratios : List (Option W)) (device_pixel_ratio : Option W) → W
  compute_scale_factor backing_store_ratios device_pixel_ratio =
      n.div (ratio_or device_pixel_ratio (n.of_ℤ (pos 1))) (first_ratio backing_store_ratios)

module _ (st : Store) (fuel : ℕ) (remove : List ℕ → List ℕ → List ℕ) where
  -- The handler of `keyup`: 46 is the delete key and 90 the z key.
  unfoldable pub on_key_up : (key_code : ℕ) → View → Option (View × Bool)
  on_key_up key_code v =
      if key_code == 46
      then (do v' ← clear_handler st fuel remove false v; some (v', false))
      else if key_code == 90
      then (do v' ← zoom_handler st fuel v; some (v', false))
      else some (v, true)

  -- Without a selected span on the page, over results with finite trees that are less high than the
  -- fuel, no key but z changes anything, if Backbone's `remove` does what is documented of it.
  pub on_key_up_lem :
      (v : View) (fs : Families st fuel v.search_results) (key_code : ℕ)
      → IsRemove remove
      → any_marked (all_marked st fuel v.search_results fs) ≡ false
      → (key_code == 90) ≡ false
      → on_key_up key_code v ≡ some (v, not (key_code == 46))
  unfolding on_key_up
  on_key_up_lem v fs key_code law h k =
      ground (arith, clear_handler-none st fuel remove v fs false law h)
