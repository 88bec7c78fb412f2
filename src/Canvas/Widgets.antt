-- ===== src/Canvas/Widgets.antt =====
-- The `draw` functions of triangle_button.js, partition_widget.js, time_cursor.js and
-- span_group_widget.js, as the commands that they give to the canvas.
use incubator_htrace.Prelude.{
  ◌≡◌, refl, Bool, true, false, not, List, [], ◌∷◌, ◌++◌, Text, text, if◌then◌else◌, Bool-cases,
  inl, inr, ◌&&◌,
}
use incubator_htrace.Prelude.Int.{pos, negsuc}
use incubator_htrace.Widget.{Number}
use incubator_htrace.Widget.Triangle.{Triangle, Direction, up, down}
use incubator_htrace.Widget.Partition.{Partition}
use incubator_htrace.Widget.Cursor.{TimeCursor}
use incubator_htrace.Canvas.{
  Command, save, restore, begin_path, close_path, clip, fill, stroke, set_fill_style,
  set_stroke_style, set_line_width, rect, fill_rect, stroke_rect, move_to, line_to, is_balanced,
}

-- The place of a widget: from `x0` to `x_f` and from `y0` to `y_f`.
pub record Box (W : Type 0) : Type 0 where
  pub x0 : W
  pub x_f : W
  pub y0 : W
  pub y_f : W

abbrev pub fg_color : Text
fg_color = text "#6600ff"

abbrev pub bg_color : Text
bg_color = text "#ffffff"

module _ {W : Type 0} ⦃n : Number W⦄ where
  -- The corners of the triangle, by its direction.
  unfoldable pub corners : Triangle W → List (Command W)
  corners b =
      let x_pad = n.div (n.sub b.x_f b.x0) (n.of_ℤ (pos 5)) in
      let y_pad = n.div (n.sub b.y_f b.y0) (n.of_ℤ (pos 5)) in
      let middle = n.floor (n.add b.x0 (n.div (n.sub b.x_f b.x0) (n.of_ℤ (pos 2)))) in
      elim b.direction [
        | up ↦
            move_to middle (n.add b.y0 y_pad)
            ∷ line_to (n.sub b.x_f x_pad) (n.sub b.y_f y_pad)
            ∷ line_to (n.add b.x0 x_pad) (n.sub b.y_f y_pad)
            ∷ []
        | down ↦
            move_to (n.add b.x0 x_pad) (n.add b.y0 y_pad)
            ∷ line_to (n.sub b.x_f x_pad) (n.add b.y0 y_pad)
            ∷ line_to middle (n.sub b.y_f y_pad)
            ∷ []
      ]

  unfoldable pub draw_triangle : Triangle W → List (Command W)
  unfolding corners
  draw_triangle b =
      let fg = if b.selected then bg_color else fg_color in
      let bg = if b.selected then fg_color else bg_color in
      let width = n.sub b.x_f b.x0 in
      let height = n.sub b.y_f b.y0 in
      save
        ∷ (begin_path
              ∷ rect b.x0 b.y0 width height
              ∷ clip
              ∷ set_fill_style bg
              ∷ set_stroke_style fg
              ∷ fill_rect b.x0 b.y0 width height
              ∷ set_line_width (n.of_ℤ (pos 3))
              ∷ stroke_rect b.x0 b.y0 width height
              ∷ set_fill_style fg
              ∷ set_stroke_style fg
              ∷ begin_path
              ∷ set_stroke_style fg
              ∷ corners b
            ++ close_path ∷ fill ∷ [])
      ++ restore ∷ []

  unfoldable pub draw_partition : Partition W → List (Command W)
  draw_partition b =
      save
        ∷ (set_fill_style (if b.selected then text "#6600ff" else text "#aaaaaa")
            ∷ fill_rect b.x0 b.y0 (n.sub b.x_f b.x0) (n.sub b.y_f b.y0)
            ∷ [])
      ++ restore ∷ []

  -- `timeToPosition` of the time cursor
  unfoldable pub time_to_position : TimeCursor W → W → W
  time_to_position c time =
      n.add c.x0 (n.div (n.mul (n.sub time c.begin) (n.sub c.x_f c.x0)) (n.sub c.end c.begin))

  -- Equality with -1, by the order.
  abbrev pub is_no_time : W → Bool
  is_no_time time = n.le time (n.of_ℤ (negsuc 0)) && n.le (n.of_ℤ (negsuc 0)) time

  unfoldable pub draw_cursor : TimeCursor W → List (Command W)
  unfolding time_to_position
  draw_cursor c =
      if not (is_no_time c.selected_time)
      then (let x = time_to_position c c.selected_time in
          save
            ∷ (begin_path
                ∷ rect c.x0 c.y0 (n.sub c.x_f c.x0) (n.sub c.y_f c.y0)
                ∷ clip
                ∷ set_stroke_style (text "#ff0000")
                ∷ begin_path
                ∷ move_to x c.y0
                ∷ line_to x c.y_f
                ∷ stroke
                ∷ [])
          ++ restore ∷ [])
      else []

  unfoldable pub draw_group : Box W → List (Command W)
  draw_group b =
      save
        ∷ (set_fill_style (text "#ffffff")
            ∷ fill_rect b.x0 b.y0 (n.sub b.x_f b.x0) (n.sub b.y_f b.y0)
            ∷ set_stroke_style (text "#aaaaaa")
            ∷ begin_path
            ∷ move_to b.x0 b.y0
            ∷ line_to b.x_f b.y0
            ∷ stroke
            ∷ begin_path
            ∷ move_to b.x0 b.y_f
            ∷ line_to b.x_f b.y_f
            ∷ stroke
            ∷ [])
      ++ restore ∷ []

  pub is_balanced-draw_triangle : (b : Triangle W) → is_balanced false (draw_triangle b) ≡ true
  unfolding draw_triangle corners
  is_balanced-draw_triangle b = by_direction b.direction
    where
      by_direction :
          (d : Direction) → is_balanced false (draw_triangle (record b { direction = d })) ≡ true
      by_direction up = refl
      by_direction down = refl

  pub is_balanced-draw_partition : (b : Partition W) → is_balanced false (draw_partition b) ≡ true
  unfolding draw_partition
  is_balanced-draw_partition b = refl

  pub is_balanced-draw_cursor : (c : TimeCursor W) → is_balanced false (draw_cursor c) ≡ true
  unfolding draw_cursor
  is_balanced-draw_cursor c = elim (Bool-cases (is_no_time c.selected_time)) [
    | inl never ↦ rw never
    | inr shown ↦ rw shown
  ]

  pub is_balanced-draw_group : (b : Box W) → is_balanced false (draw_group b) ≡ true
  unfolding draw_group
  is_balanced-draw_group b = refl
