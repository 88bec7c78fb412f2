-- ===== src/Canvas/Page.antt =====
-- The canvas of the search results, of search_results_view.js: where its parts stand, and the widgets
-- that are created for the results (with the buttons of span_widget.js).
--
-- The widths and heights that are read from the browser are arguments.
use incubator_htrace.Prelude.{
  ℕ, ◌&&◌, Bool, true, false, Option, none, some, List, [], ◌∷◌, ◌++◌, if◌then◌else◌, ◌>>=◌,
}
use incubator_htrace.Prelude.Int.{pos}
use incubator_htrace.Tree.{for_each}
use incubator_htrace.Span.Store.{Store}
use incubator_htrace.Widget.{Number, min_W, max_W}
use incubator_htrace.Widget.Triangle.{Triangle, up, down}
use incubator_htrace.Widget.Partition.{Partition}
use incubator_htrace.Widget.Cursor.{TimeCursor}
use incubator_htrace.SpanGroup.{Row, lay_out}
use incubator_htrace.SpanGroup.Groups.{group_of}
use incubator_htrace.Canvas.Widgets.{Box}
use incubator_htrace.Canvas.Bars.{SpanWidget}

-- The coordinates of the canvas.
pub record Coordinates (W : Type 0) : Type 0 where
  pub view_x : W
  pub view_y : W
  pub x_b : W
  pub x_d : W
  pub x_s : W
  pub canvas_y : W

-- A widget on the canvas; a row and a button have the place of their span in the store.
pub data Widget (W : Type 0) : Type 0 where
  group : Box W → Widget W
  row : SpanWidget W → ℕ → Widget W
  button : Triangle W → ℕ → Widget W
  partition : Partition W → Widget W
  cursor : TimeCursor W → Widget W

-- What `setupWidgets` leaves: the widgets, and the coordinates with the height of the canvas.
pub record Scene (W : Type 0) : Type 0 where
  pub widgets : List (Widget W)
  pub coordinates : Coordinates W

abbrev pub is_null : {A : Type 0} → Option A → Bool
is_null none = true
is_null (some x) = false

module _ {W : Type 0} ⦃n : Number W⦄ where
  abbrev pub whole : ℕ → W
  whole k = n.of_ℤ (pos k)

  unfoldable pub setup_coordinates :
      (inner_width window_height header_height process_name_fraction : W) → Coordinates W
  setup_coordinates inner_width window_height header_height process_name_fraction =
      let view_y = n.sub (n.sub window_height header_height) (whole 50) in
      let x_b = n.floor (n.mul inner_width process_name_fraction) in
      let scroll_bar_width = min_W (whole 50) (n.floor (n.div inner_width (whole 10))) in
      record {
        view_x = inner_width;
        view_y = view_y;
        x_b = x_b;
        x_d = n.add x_b (min_W (whole 75) (n.floor (n.div inner_width (whole 20))));
        x_s = n.sub inner_width scroll_bar_width;
        canvas_y = view_y;
      }

  abbrev pub partition_width : Coordinates W → W
  partition_width c = max_W (whole 5) (n.floor (n.div c.view_x (whole 300)))

  -- The `xB` of a span widget.
  abbrev buttons_x : Coordinates W → W
  buttons_x c = n.add c.x_b (partition_width c)

  abbrev half_buttons : Coordinates W → W
  half_buttons c = n.div (n.sub c.x_d (buttons_x c)) (whole 2)

  abbrev pub up_button : Coordinates W → Row W → Triangle W
  up_button c r = record {
    x0 = n.add (buttons_x c) (whole 2);
    x_f = n.sub (n.add (buttons_x c) (half_buttons c)) (whole 2);
    y0 = n.add (whole r.y0) (whole 2);
    y_f = n.sub (whole r.y_f) (whole 2);
    direction = up;
    selected = false;
  }

  abbrev pub down_button : Coordinates W → Row W → Triangle W
  down_button c r = record {
    x0 = n.add (n.add (buttons_x c) (half_buttons c)) (whole 2);
    x_f = n.sub c.x_d (whole 2);
    y0 = n.add (whole r.y0) (whole 2);
    y_f = n.sub (whole r.y_f) (whole 2);
    direction = down;
    selected = false;
  }

  abbrev pub span_widget : Coordinates W → (begin end : W) → Row W → SpanWidget W
  span_widget c begin end r = record {
    x0 = whole 0;
    x_b = buttons_x c;
    x_d = c.x_d;
    x_f = c.x_s;
    x_t = r.x_t;
    y0 = whole r.y0;
    y_f = whole r.y_f;
    begin = begin;
    end = end;
  }

  -- A button that is there if something is null and the button is allowed.
  abbrev pub button_if : Option (List ℕ) → Bool → Widget W → List (Widget W)
  button_if reified allowed b = if is_null reified && allowed then b ∷ [] else []

  -- `new htrace.SpanWidget` for a row, with its buttons.
  unfoldable pub create_row : Store → Coordinates W → (begin end : W) → Row W → List (Widget W)
  create_row st c begin end r =
      row (span_widget c begin end r) r.span
        ∷ button_if (st.cell r.span).reified_parents r.allow_up_button
            (button (up_button c r) r.span)
      ++ button_if (st.cell r.span).reified_children r.allow_down_button
          (button (down_button c r) r.span)

  unfoldable pub create_rows :
      Store → Coordinates W → (begin end : W) → List (Row W) → List (Widget W)
  unfolding create_row
  create_rows st c begin end [] = []
  create_rows st c begin end (r ∷ rs) = create_row st c begin end r ++ create_rows st c begin end rs

  -- A group and its rows behind the widgets so far.
  unfoldable pub add_group :
      Store
      → Coordinates W
      → (begin end : W) → List (Widget W) × ℕ
      → List (Row W) × ℕ
      → List (Widget W) × ℕ
  unfolding create_rows
  add_group st c begin end (widgets, group_y) (rows, y_f) = (
    widgets
        ++ group (record { x0 = whole 0; x_f = c.x_s; y0 = whole group_y; y_f = whole y_f })
          ∷ create_rows st c begin end rows,
    y_f,
  )

  -- The body of the loop of `setupWidgets`: the widgets so far, and `groupY`.
  unfoldable pub create_group :
      Store
      → (fuel : ℕ) → Coordinates W
      → (begin end : W) → ℕ
      → List (Widget W) × ℕ
      → Option (List (Widget W) × ℕ)
  unfolding add_group
  create_group st fuel c begin end span done = do
    laid ← lay_out (group_of c.x_d c.x_s 16 st fuel span done.1) st fuel
    some (add_group st c begin end done laid)

  unfoldable pub partition_widget : Coordinates W → (group_y : ℕ) → Partition W
  partition_widget c group_y = record {
    x0 = c.x_b;
    x_f = n.add c.x_b (partition_width c);
    x_min = n.floor (n.mul c.view_x (n.div (whole 1) (whole 10)));
    x_max = n.floor (n.mul c.view_x (n.div (whole 9) (whole 10)));
    y0 = whole 0;
    y_f = whole group_y;
    selected = false;
  }

  -- `before` is the cursor that there was before, if any. Its field, `el`, is not rendered again, and
  -- so keeps its text.
  unfoldable pub time_cursor :
      Coordinates W → (begin end : W) → (before : Option (TimeCursor W)) → TimeCursor W
  time_cursor c begin end before = record {
    x0 = c.x_d;
    x_f = c.x_s;
    y0 = whole 0;
    y_f = c.canvas_y;
    begin = begin;
    end = end;
    selected_time = elim before [ none ↦ begin | some b ↦ b.selected_time ];
    shown = elim before [ none ↦ none | some b ↦ b.shown ];
  }

  -- What comes behind the loop.
  unfoldable pub finish :
      Coordinates W
      → (begin end : W) → (before : Option (TimeCursor W)) → List (Widget W) × ℕ
      → Scene W
  unfolding partition_widget time_cursor
  finish c begin end before (widgets, group_y) =
      let taller = if n.lt c.canvas_y (whole group_y) then whole group_y else c.canvas_y in
      let c' = record c { canvas_y = taller } in
      record {
        widgets =
            widgets
            ++ partition (partition_widget c group_y)
              ∷ cursor (time_cursor c' begin end before)
              ∷ [];
        coordinates = c';
      }

  unfoldable pub setup_widgets :
      Store
      → (fuel : ℕ) → Coordinates W
      → (begin end : W) → (before : Option (TimeCursor W)) → List ℕ
      → Option (Scene W)
  unfolding for_each create_group finish
  setup_widgets st fuel c begin end before search_results = do
    out ← for_each search_results (create_group st fuel c begin end) ([], 0)
    some (finish c begin end before out)
