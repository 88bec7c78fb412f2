-- ===== src/Canvas/Drawing.antt =====
-- How search_results_view.js draws the page.
--
-- A widget is drawn by its handler of the `draw` event; each of these returns true, so that the
-- widget manager goes through all of them in the order of their creation.
use incubator_htrace.Prelude.{◌||◌, Bool, List, [], ◌∷◌, ◌++◌, text, if◌then◌else◌}
use incubator_htrace.Span.Store.{Store}
use incubator_htrace.Widget.{Number}
use incubator_htrace.Canvas.{
  Command, save, restore, set_fill_style, set_stroke_style, set_font, fill_rect, fill_text,
}
use incubator_htrace.Canvas.Widgets.{draw_triangle, draw_partition, draw_cursor, draw_group}
use incubator_htrace.Canvas.Bars.{draw_span}
use incubator_htrace.Canvas.Page.{
  Coordinates, Widget, group, row, button, partition, cursor, Scene, whole,
}

module _ {W : Type 0} ⦃n : Number W⦄ where
  -- The `draw` case of the handler of each widget.
  unfoldable pub draw_widget : Store → Widget W → List (Command W)
  draw_widget st (group b) = draw_group b
  draw_widget st (row w span) = draw_span w (st.cell span)
  draw_widget st (button b span) = draw_triangle b
  draw_widget st (partition b) = draw_partition b
  draw_widget st (cursor c) = draw_cursor c

  unfoldable pub draw_widgets : Store → List (Widget W) → List (Command W)
  unfolding draw_widget
  draw_widgets st [] = []
  draw_widgets st (w ∷ ws) = draw_widget st w ++ draw_widgets st ws

  unfoldable pub canvas_too_small : Coordinates W → Bool
  canvas_too_small c = n.lt c.view_x (whole 200) || n.lt c.view_y (whole 200)

  unfoldable pub draw_too_small : Coordinates W → List (Command W)
  draw_too_small c =
      set_fill_style (text "#cccccc")
      ∷ set_stroke_style (text "#000000")
      ∷ fill_rect (whole 0) (whole 0) c.view_x c.view_y
      ∷ set_font (text "24px serif")
      ∷ set_fill_style (text "#000000")
      ∷ fill_text (text "Canvas too small!") (whole 0) (whole 24)
      ∷ []

  unfoldable pub fill_background : Coordinates W → List (Command W)
  fill_background c =
      save
      ∷ set_fill_style (text "#ffffff")
      ∷ set_stroke_style (text "#000000")
      ∷ fill_rect (whole 0) (whole 0) c.view_x c.canvas_y
      ∷ restore
      ∷ []

  unfoldable pub draw_page : Store → Scene W → List (Command W)
  unfolding draw_widgets canvas_too_small draw_too_small fill_background
  draw_page st p =
      if canvas_too_small p.coordinates
      then draw_too_small p.coordinates
      else fill_background p.coordinates ++ draw_widgets st p.widgets
