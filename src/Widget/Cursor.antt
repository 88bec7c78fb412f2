-- ===== src/Widget/Cursor.antt =====
-- The bar that shows a time under the mouse, of time_cursor.js; Canvas/Widgets has its drawing.
use incubator_htrace.Prelude.{
  ◌≡◌, refl, ap, ◌∙◌, Bool, true, false, Option, none, some, List, [], ◌∷◌, ◌||◌, if◌then◌else◌,
  Bool-cases, inl, inr,
}
use incubator_htrace.Prelude.Int.{pos, negsuc}
use incubator_htrace.Widget.{
  Number, EventType, mouse_down, mouse_up, mouse_move, mouse_out, dblclick, draw, in_bounding_box,
  Event,
}

-- `shown` is the time whose text stands in the field `el`; none is the empty text.
pub record TimeCursor (W : Type 0) : Type 0 where
  pub x0 : W
  pub x_f : W
  pub y0 : W
  pub y_f : W
  pub begin : W
  pub end : W
  pub selected_time : W
  pub shown : Option W

module _ {W : Type 0} ⦃n : Number W⦄ where
  -- `x > this.xF` is written the other way round.
  unfoldable pub position_to_time : TimeCursor W → W → W
  position_to_time c x =
      if n.lt x c.x0 || n.lt c.x_f x
      then n.of_ℤ (negsuc 0)
      else n.add c.begin (n.div (n.mul (n.sub x c.x0) (n.sub c.end c.begin)) (n.sub c.x_f c.x0))

  abbrev pub over : TimeCursor W → Event W → Bool
  over c e = in_bounding_box e.x e.y c.x0 c.x_f c.y0 c.y_f

  -- The `mouseMove` case, inside the box.
  abbrev pub select_time : TimeCursor W → W → TimeCursor W
  select_time c x =
      let time = position_to_time c x in
      record c {
        selected_time = time;
        shown = if n.lt time (n.of_ℤ (pos 0)) then none else some time;
      }

  -- The `switch` of `handle`. The types without a case have no result, which is falsy.
  abbrev pub turn_cursor : EventType → Event W → TimeCursor W → TimeCursor W × Bool
  turn_cursor mouse_move e c = (if over c e then select_time c e.x else c, true)
  turn_cursor draw e c = (c, true)
  turn_cursor mouse_down e c = (c, false)
  turn_cursor mouse_up e c = (c, false)
  turn_cursor mouse_out e c = (c, false)
  turn_cursor dblclick e c = (c, false)

  unfoldable pub handle_cursor : Event W → TimeCursor W → TimeCursor W × Bool
  handle_cursor e c = turn_cursor e.type e c

  unfoldable pub handle_cursor_all : List (Event W) → TimeCursor W → TimeCursor W
  handle_cursor_all [] c = c
  handle_cursor_all (e ∷ es) c = handle_cursor_all es (handle_cursor e c).0

  abbrev pub next_over : TimeCursor W → EventType → Event W → Option W → Option W
  next_over c mouse_move e x = if over c e then some e.x else x
  next_over c mouse_down e x = x
  next_over c mouse_up e x = x
  next_over c mouse_out e x = x
  next_over c dblclick e x = x
  next_over c draw e x = x

  -- The place of the last event that is a move within the box.
  abbrev pub last_over : TimeCursor W → List (Event W) → Option W → Option W
  last_over c [] x = x
  last_over c (e ∷ es) x = last_over c es (next_over c e.type e x)

  abbrev pub selected_at : TimeCursor W → Option W → TimeCursor W
  selected_at c none = c
  selected_at c (some x) = select_time c x

  turn_cursor_lem :
      (t : EventType) (e : Event W) (c : TimeCursor W) (x : Option W)
      → (turn_cursor t e (selected_at c x)).0 ≡ selected_at c (next_over c t e x)
  unfolding position_to_time
  turn_cursor_lem mouse_move e c none = elim (Bool-cases (over c e)) [
    | inl hit ↦ rw hit
    | inr miss ↦ rw miss
  ]
  turn_cursor_lem mouse_move e c (some x) = elim (Bool-cases (over c e)) [
    | inl hit ↦ rw hit
    | inr miss ↦ rw miss
  ]
  turn_cursor_lem mouse_down e c x = refl
  turn_cursor_lem mouse_up e c x = refl
  turn_cursor_lem mouse_out e c x = refl
  turn_cursor_lem dblclick e c x = refl
  turn_cursor_lem draw e c x = refl

  handle_cursor_from :
      (es : List (Event W)) (c : TimeCursor W) (x : Option W)
      → handle_cursor_all es (selected_at c x) ≡ selected_at c (last_over c es x)
  unfolding handle_cursor_all handle_cursor
  handle_cursor_from [] c x = refl
  handle_cursor_from (e ∷ es) c x =
      ap (handle_cursor_all es) (turn_cursor_lem e.type e c x)
      ∙ handle_cursor_from es c (next_over c e.type e x)

  -- Whatever events there were, the cursor shows the time at the last move of the mouse within its
  -- box, and is as it was if there was none.
  pub handle_cursor_all_lem :
      (es : List (Event W)) (c : TimeCursor W)
      → handle_cursor_all es c ≡ selected_at c (last_over c es none)
  handle_cursor_all_lem es c = handle_cursor_from es c none
