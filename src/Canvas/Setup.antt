-- ===== src/Canvas/Setup.antt =====
-- The page is set up whenever the families of its results are finite; its buttons; its drawing.
use incubator_htrace.Prelude.{
  ℕ, ◌+◌, ◌≡◌, refl, Bool, true, false, Option, none, some, List, [], ◌∷◌, length, ◌*◌, All,
  All-append,
}
use incubator_htrace.Tree.{for_each}
use incubator_htrace.Span.{Span}
use incubator_htrace.Span.Store.{Store}
use incubator_htrace.Widget.{Number}
use incubator_htrace.Widget.Triangle.{Direction, up, down}
use incubator_htrace.Widget.Cursor.{TimeCursor}
use incubator_htrace.Results.Spans.{Families}
use incubator_htrace.SpanGroup.{Row}
use incubator_htrace.SpanGroup.Groups.{group_of}
use incubator_htrace.SpanGroup.Layout.{lay_out_lem, stack, items}
use incubator_htrace.Canvas.{
  Command, IsCanvas, Restores, Restores-balanced, Restores-append, is_balanced,
}
use incubator_htrace.Canvas.Widgets.{
  Box, is_balanced-draw_triangle, is_balanced-draw_partition, is_balanced-draw_cursor,
  is_balanced-draw_group,
}
use incubator_htrace.Canvas.Bars.{SpanWidget, is_balanced-draw_span}
use incubator_htrace.Canvas.Page.{
  Coordinates, Widget, group, row, button, partition, cursor, Scene, button_if, up_button,
  down_button, create_row, create_rows, create_group, span_widget, partition_widget, add_group,
  finish, setup_widgets,
}
use incubator_htrace.Canvas.Drawing.{
  draw_widget, fill_background, draw_widgets, canvas_too_small, draw_page,
}

-- The family that a button asks for is not known.
abbrev pub IsAskedFor : Direction → Span → Type 0
IsAskedFor up s = s.reified_parents ≡ none
IsAskedFor down s = s.reified_children ≡ none

module _ {W : Type 0} (st : Store) where
  abbrev pub IsUseful : Widget W → Type 0
  IsUseful (button b span) = IsAskedFor b.direction (st.cell span)
  IsUseful _ = Unit

module _ {W : Type 0} ⦃n : Number W⦄ (st : Store) (c : Coordinates W) (begin end : W)
    (P : Widget W → Type 0) where
  -- What holds of each widget that is created: a button is created only if what it asks for is not
  -- known.
  pub record IsCreated : Type 0 where
    pub groups : (b : Box W) → P (group b)
    pub rows : (w : SpanWidget W) (span : ℕ) → P (row w span)
    pub ups :
        (r : Row W) → (st.cell r.span).reified_parents ≡ none → P (button (up_button c r) r.span)
    pub downs :
        (r : Row W) → (st.cell r.span).reified_children ≡ none → P (button (down_button c r) r.span)
    pub partitions : (y : ℕ) → P (partition (partition_widget c y))
    pub cursors : (t : TimeCursor W) → P (cursor t)

  button_if-All :
      (reified : Option (List ℕ)) (allowed : Bool) (b : Widget W)
      → (reified ≡ none → P b)
      → All P (button_if reified allowed b)
  button_if-All none true b h = (h refl, tt)
  button_if-All none false b h = tt
  button_if-All (some family) allowed b h = tt

  create_row-All : IsCreated → (r : Row W) → All P (create_row st c begin end r)
  unfolding create_row
  create_row-All h r =
      let parents = (st.cell r.span).reified_parents in
      let children = (st.cell r.span).reified_children in
      let u : Widget W = button (up_button c r) r.span in
      let d : Widget W = button (down_button c r) r.span in
      (
        h.rows (span_widget c begin end r) r.span,
        All-append P (button_if parents r.allow_up_button u)
            (button_if children r.allow_down_button d)
            (button_if-All parents r.allow_up_button u (h.ups r))
            (button_if-All children r.allow_down_button d (h.downs r)),
      )

  create_rows-All : IsCreated → (rs : List (Row W)) → All P (create_rows st c begin end rs)
  unfolding create_rows
  create_rows-All h [] = tt
  create_rows-All h (r ∷ rs) =
      All-append P (create_row st c begin end r) (create_rows st c begin end rs)
        (create_row-All h r) (create_rows-All h rs)

  create_group-All :
      IsCreated
      → (fuel r : ℕ) (families : Families st fuel (r ∷ [])) (ws : List (Widget W)) (y : ℕ)
      → All P ws
      → (out : List (Widget W) × ℕ) × (create_group st fuel c begin end r (ws, y) ≡ some out)
        × All P out.0
  unfolding create_group add_group
  create_group-All created fuel r ((f, hu, hd), end_of) ws y h =
      let p = group_of c.x_d c.x_s 16 st fuel r y in
      let laid = (lay_out_lem p st fuel f hu hd).0 in
      let rows = stack p (y + 4) (items f) in
      (
        add_group st c begin end (ws, y) (rows, y + 4 + length (items f) * 16 + 4),
        rw (create_group, laid),
        All-append P ws _ h (created.groups _, create_rows-All created rows),
      )

  groups_from :
      IsCreated
      → (fuel : ℕ) (results : List ℕ) (families : Families st fuel results) (ws : List (Widget W))
        (y : ℕ)
      → All P ws
      → (out : List (Widget W) × ℕ) × (for_each results (create_group st fuel c begin end) (ws, y)
          ≡ some out)
        × All P out.0
  unfolding for_each
  groups_from created fuel [] fs ws y h = ((ws, y), refl, h)
  groups_from created fuel (r ∷ rs) (f, fs) ws y h =
      let (mid, e, h') = create_group-All created fuel r (f, tt) ws y h in
      let (out, done, useful) = groups_from created fuel rs fs mid.0 mid.1 h' in
      (out, rw (for_each, e) done, useful)

  pub setup_widgets-All :
      IsCreated
      → (fuel : ℕ) (results : List ℕ) (families : Families st fuel results)
        (before : Option (TimeCursor W))
      → (scene : Scene W) × (setup_widgets st fuel c begin end before results ≡ some scene)
        × All P scene.widgets
  unfolding setup_widgets finish
  setup_widgets-All created fuel results families before =
      let (out, done, all) = groups_from created fuel results families [] 0 tt in
      (
        finish c begin end before out,
        rw (done),
        All-append P out.0 _ all (created.partitions out.1, (created.cursors _, tt)),
      )

module _ {W : Type 0} ⦃n : Number W⦄ (st : Store) (c : Coordinates W) (begin end : W) where
  IsUseful-IsCreated : IsCreated st c begin end (IsUseful st)
  unfolding partition_widget
  IsUseful-IsCreated = record {
    groups = λ b. tt;
    rows = λ w span. tt;
    ups = λ r h. h;
    downs = λ r h. h;
    partitions = λ y. tt;
    cursors = λ t. tt;
  }

  -- Over results with finite trees that are less high than the fuel, the widgets of the page are
  -- set up, and each of its buttons asks for parents or children that are not known yet.
  pub setup_widgets-IsUseful :
      (fuel : ℕ) (results : List ℕ) (families : Families st fuel results)
      (before : Option (TimeCursor W))
      → (scene : Scene W) × (setup_widgets st fuel c begin end before results ≡ some scene)
        × All (IsUseful st) scene.widgets
  setup_widgets-IsUseful = setup_widgets-All st c begin end (IsUseful st) IsUseful-IsCreated

module _ {W : Type 0} ⦃n : Number W⦄ {S D : Type 0} (step : Command W → S → S) (state : S → D)
    (saved : S → List D) (canvas : IsCanvas step state saved) where
  Restores-draw_widget : (st : Store) (w : Widget W) → Restores step state saved (draw_widget st w)
  unfolding draw_widget
  Restores-draw_widget st w =
      Restores-balanced step state saved canvas (draw_widget st w) (by_widget w)
    where
      by_widget : (w : Widget W) → is_balanced false (draw_widget st w) ≡ true
      by_widget (group b) = is_balanced-draw_group b
      by_widget (row b span) = is_balanced-draw_span b (st.cell span)
      by_widget (button b span) = is_balanced-draw_triangle b
      by_widget (partition b) = is_balanced-draw_partition b
      by_widget (cursor b) = is_balanced-draw_cursor b

  Restores-draw_widgets :
      (st : Store) (ws : List (Widget W)) → Restores step state saved (draw_widgets st ws)
  unfolding draw_widgets
  Restores-draw_widgets st [] = λ s. (refl, refl)
  Restores-draw_widgets st (w ∷ ws) =
      Restores-append step state saved (draw_widget st w) (draw_widgets st ws)
        (Restores-draw_widget st w) (Restores-draw_widgets st ws)

  -- Drawing the page leaves the drawing state of the canvas (its styles, fonts, transformations and
  -- clipping) and the stack of those that were saved as they were, whatever its widgets, if the
  -- canvas is not too small to be drawn, and if `save` and `restore` do what the standard says.
  pub draw_page-Restores :
      (st : Store) (scene : Scene W)
      → canvas_too_small scene.coordinates ≡ false
      → Restores step state saved (draw_page st scene)
  unfolding draw_page fill_background
  draw_page-Restores st scene large =
      rw (draw_page, large)
        (Restores-append step state saved (fill_background scene.coordinates)
          (draw_widgets st scene.widgets)
          (Restores-balanced step state saved canvas (fill_background scene.coordinates) refl)
          (Restores-draw_widgets st scene.widgets))
