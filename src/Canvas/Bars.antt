-- ===== src/Canvas/Bars.antt =====
-- `draw` of span_widget.js: the row of one span, with the bar that stands for its time.
use incubator_htrace.Prelude.{
  ◌≡◌, refl, ◌∙◌, true, false, List, [], ◌∷◌, ◌++◌, text, if◌then◌else◌, Bool-cases, inl, inr,
}
use incubator_htrace.Prelude.Int.{pos}
use incubator_htrace.Span.{Span, TimeAnnotation}
use incubator_htrace.Widget.{Number, max_W}
use incubator_htrace.Canvas.{
  Command, save, restore, begin_path, close_path, clip, fill, set_fill_style, set_stroke_style,
  set_font, rect, fill_rect, move_to, line_to, fill_text, all_plain, is_balanced, is_balanced-plain,
}

-- The coordinates of a span widget, and the times at the two ends of the bars.
pub record SpanWidget (W : Type 0) : Type 0 where
  pub x0 : W
  pub x_b : W
  pub x_d : W
  pub x_f : W
  pub x_t : W
  pub y0 : W
  pub y_f : W
  pub begin : W
  pub end : W

module _ {W : Type 0} ⦃n : Number W⦄ (w : SpanWidget W) where
  abbrev x_size : W
  x_size = n.sub w.x_f w.x0

  abbrev y_size : W
  y_size = n.sub w.y_f w.y0

  unfoldable pub draw_background : Span → List (Command W)
  draw_background span =
      save
      ∷ set_fill_style (if span.selected then text "#ffccff" else text "#ffffff")
      ∷ fill_rect w.x0 w.y0 x_size y_size
      ∷ restore
      ∷ []

  unfoldable pub draw_tracer_id : Span → List (Command W)
  draw_tracer_id span =
      save
      ∷ set_fill_style (text "#000000")
      ∷ set_font (text "14px sans-serif")
      ∷ begin_path
      ∷ rect w.x0 w.y0 (n.sub w.x_b w.x0) y_size
      ∷ clip
      ∷ fill_text span.tracer_id w.x0 (n.sub w.y_f (n.of_ℤ (pos 4)))
      ∷ restore
      ∷ []

  -- `timeToPosition`
  unfoldable pub bar_position : W → W
  bar_position time =
      n.add w.x_d (n.div (n.mul (n.sub time w.begin) (n.sub w.x_f w.x_d)) (n.sub w.end w.begin))

  -- The two tests for a span that is off the screen, in their order.
  abbrev keep_right : W × W → W × W
  keep_right (begin_x, end_x) = if n.lt end_x w.x0 then (w.x_d, w.x_d) else (begin_x, end_x)

  abbrev keep_left : W × W → W × W
  keep_left (begin_x, end_x) = if n.lt w.x_f begin_x then (w.x_f, w.x_f) else (begin_x, end_x)

  unfoldable pub bar_ends : Span → W × W
  unfolding bar_position
  bar_ends span =
      keep_left (keep_right (bar_position (n.of_ℤ span.begin), bar_position (n.of_ℤ span.end)))

  abbrev pub gap_y : W
  gap_y = n.of_ℤ (pos 1)

  abbrev pub epsilon : W
  epsilon = max_W (n.of_ℤ (pos 2)) (n.floor (n.div x_size (n.of_ℤ (pos 1000))))

  unfoldable pub diamond : W → List (Command W)
  diamond begin_x =
      let half = n.floor (n.div y_size (n.of_ℤ (pos 2))) in
      begin_path
      ∷ move_to begin_x (n.add w.y0 gap_y)
      ∷ line_to (n.add begin_x (n.sub half gap_y)) (n.add w.y0 half)
      ∷ line_to begin_x (n.sub w.y_f gap_y)
      ∷ line_to (n.sub begin_x (n.sub half gap_y)) (n.add w.y0 half)
      ∷ close_path
      ∷ fill
      ∷ []

  -- The loop over the annotations.
  unfoldable pub draw_annotations : List TimeAnnotation → List (Command W)
  unfolding bar_position
  draw_annotations [] = []
  draw_annotations (a ∷ annotations) =
      let height = n.sub y_size (n.mul gap_y (n.of_ℤ (pos 2))) in
      fill_rect (bar_position (n.of_ℤ a.t)) (n.add w.y0 gap_y) (n.of_ℤ (pos 4))
        (n.div height (n.of_ℤ (pos 2)))
      ∷ draw_annotations annotations

  unfoldable pub bar : Span → W × W → List (Command W)
  unfolding draw_annotations
  bar span (begin_x, end_x) =
      fill_rect begin_x (n.add w.y0 gap_y) (n.sub end_x begin_x)
        (n.sub y_size (n.mul gap_y (n.of_ℤ (pos 2))))
      ∷ set_fill_style (text "#419641")
      ∷ draw_annotations span.time_annotations

  -- What stands for the time of the span: a diamond if the bar is too narrow to see.
  unfoldable pub time_marks : Span → List (Command W)
  unfolding diamond bar bar_ends
  time_marks span =
      let (begin_x, end_x) = bar_ends span in
      if n.lt (n.sub end_x begin_x) epsilon then diamond begin_x else bar span (begin_x, end_x)

  unfoldable pub draw_description : Span → List (Command W)
  unfolding time_marks
  draw_description span =
      save
        ∷ begin_path
        ∷ rect w.x_d w.y0 (n.sub w.x_f w.x_d) y_size
        ∷ clip
        ∷ set_stroke_style (text "#000000")
        ∷ set_fill_style (text "#a7b7ff")
        ∷ time_marks span
      ++ set_fill_style (text "#000000")
        ∷ set_font (text "14px sans-serif")
        ∷ fill_text span.description (n.add w.x_d w.x_t)
            (n.sub (n.sub w.y_f gap_y) (n.of_ℤ (pos 2)))
        ∷ restore
        ∷ []

  unfoldable pub draw_span : Span → List (Command W)
  unfolding draw_background draw_tracer_id draw_description
  draw_span span = draw_background span ++ draw_tracer_id span ++ draw_description span

  all_plain-draw_annotations :
      (annotations : List TimeAnnotation) → all_plain (draw_annotations annotations) ≡ true
  unfolding draw_annotations
  all_plain-draw_annotations [] = refl
  all_plain-draw_annotations (a ∷ annotations) = all_plain-draw_annotations annotations

  all_plain-time_marks : (span : Span) → all_plain (time_marks span) ≡ true
  unfolding time_marks diamond bar
  all_plain-time_marks span =
      let (begin_x, end_x) = bar_ends span in
      elim (Bool-cases (n.lt (n.sub end_x begin_x) epsilon)) [
        | inl narrow ↦ rw narrow
        | inr wide ↦ rw wide (all_plain-draw_annotations span.time_annotations)
      ]

  pub is_balanced-draw_span : (span : Span) → is_balanced false (draw_span span) ≡ true
  unfolding draw_span draw_background draw_tracer_id draw_description
  is_balanced-draw_span span =
      is_balanced-plain (time_marks span) _ (all_plain-time_marks span) ∙ refl
