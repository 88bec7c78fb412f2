-- ===== src/Stage/Screen.antt =====
-- The page of the search results on the screen, of search_results_view.js: `render` as a whole, the
-- handlers of the mouse, and the `releaseHandler` of the partition, which renders the page.
--
-- What is read from the browser and from the rest of the view is an argument of `render_page`. The
-- template and the bindings of the events are not part of the model.
use incubator_htrace.Prelude.{ℕ, Option, none, some, List, [], ◌∷◌, ◌++◌, if◌then◌else◌, ◌>>=◌}
use incubator_htrace.Span.Store.{Store}
use incubator_htrace.Widget.Cursor.{TimeCursor}
use incubator_htrace.Widget.{Number, Event}
use incubator_htrace.Canvas.{Command}
use incubator_htrace.Canvas.Page.{
  Coordinates, Widget, group, row, button, partition, cursor, Scene, whole, setup_coordinates,
  setup_widgets,
}
use incubator_htrace.Canvas.Drawing.{canvas_too_small, draw_too_small, fill_background}
use incubator_htrace.Stage.{Stage, new_stage, deliver_event}
use incubator_htrace.Stage.Paint.{paint}

-- The size of the window, the ratio of `computeScaleFactor`, the window of time, the models and the
-- results.
pub record Input (W : Type 0) : Type 0 where
  pub inner_width : W
  pub window_height : W
  pub header_height : W
  pub ratio : W
  pub begin : W
  pub end : W
  pub models : Store
  pub search_results : List ℕ
  pub fuel : ℕ

-- The height of the element, and the width, the height and the scale of the canvas.
pub record CanvasSize (W : Type 0) : Type 0 where
  pub css_height : W
  pub width : W
  pub height : W
  pub scale : W

-- `drawn` is what was drawn last.
pub record Screen (W : Type 0) : Type 0 where
  pub input : Input W
  pub coordinates : Coordinates W
  pub size : CanvasSize W
  pub stage : Stage W
  pub drawn : List (Command W)

-- `this.timeCursor`, if there is one.
abbrev pub cursor_before : {W : Type 0} → List (Widget W) → Option (TimeCursor W)
cursor_before [] = none
cursor_before (cursor c ∷ ws) = some c
cursor_before (group b ∷ ws) = cursor_before ws
cursor_before (row w span ∷ ws) = cursor_before ws
cursor_before (button b span ∷ ws) = cursor_before ws
cursor_before (partition b ∷ ws) = cursor_before ws

-- What happens to the page: an event of the mouse, or that it is rendered again, with other models,
-- results, times, or another size of the window.
pub data Action (W : Type 0) : Type 0 where
  mouse : Event W → Action W
  rerender : Input W → (process_name_fraction : W) → Action W

module _ {W : Type 0} ⦃n : Number W⦄ where
  unfoldable pub scale_canvas : Coordinates W → (ratio : W) → CanvasSize W
  scale_canvas c ratio = record {
    css_height = c.canvas_y;
    width = n.mul c.view_x ratio;
    height = n.mul c.canvas_y ratio;
    scale = ratio;
  }

module _ {W : Type 0} ⦃n : Number W⦄ (without : List ℕ → ℕ → List ℕ) where
  -- `draw`, with the widgets drawn by their manager.
  unfoldable pub draw_stage : (fuel : ℕ) → List ℕ → Coordinates W → Stage W → List (Command W)
  draw_stage fuel search_results c s =
      if canvas_too_small c
      then draw_too_small c
      else fill_background c ++ paint without fuel search_results (whole 0) s

  -- The page with the widgets of a scene.
  unfoldable pub show_scene : Input W → Scene W → Screen W
  unfolding scale_canvas draw_stage
  show_scene i scene = record {
    input = i;
    coordinates = scene.coordinates;
    size = scale_canvas scene.coordinates i.ratio;
    stage = new_stage scene i.models;
    drawn = draw_stage i.fuel i.search_results scene.coordinates (new_stage scene i.models);
  }

  unfoldable pub render_page :
      Input W → (process_name_fraction : W) → (before : Option (TimeCursor W)) → Option (Screen W)
  unfolding show_scene
  render_page i process_name_fraction before = do
    scene ←
        setup_widgets i.models i.fuel
          (setup_coordinates i.inner_width i.window_height i.header_height process_name_fraction)
          i.begin i.end before i.search_results
    some (show_scene i scene)

  unfoldable pub redraw : Screen W → Stage W → Screen W
  unfolding draw_stage
  redraw p s = record p {
    stage = s;
    drawn = draw_stage p.input.fuel p.input.search_results p.coordinates s;
  }

  -- What the manager leaves, drawn; and if `releaseHandler` was called, the page as it renders it.
  unfoldable pub after_release : Screen W → Stage W → (releases : List W) → Option (Screen W)
  unfolding render_page redraw
  after_release p s [] = some (redraw p s)
  after_release p s (x ∷ xs) =
      render_page (record p.input { models = s.desk.spans.models }) (n.div x p.coordinates.view_x)
        (cursor_before s.widgets)

  -- `handleMouseDown` and the other handlers.
  unfoldable pub handle_event : Event W → Screen W → Option (Screen W)
  unfolding after_release
  handle_event e p = do
    s ← deliver_event without p.input.fuel p.input.search_results e p.stage
    after_release p s s.desk.releases

  unfoldable pub act : Action W → Screen W → Option (Screen W)
  unfolding handle_event render_page
  act (mouse e) p = handle_event e p
  act (rerender i process_name_fraction) p =
      render_page i process_name_fraction (cursor_before p.stage.widgets)

  unfoldable pub act_all : List (Action W) → Screen W → Option (Screen W)
  unfolding act
  act_all [] p = some p
  act_all (a ∷ rest) p = do p' ← act a p; act_all rest p'
