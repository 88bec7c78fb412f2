-- ===== src/Stage/Shown.antt =====
-- What is on the screen is the page as it is.
use incubator_htrace.Prelude.{
  ℕ, ◌≡◌, refl, ap, Option, none, some, List, [], ◌∷◌, ◌++◌, All, if◌then◌else◌,
}
use incubator_htrace.Span.Store.{Store}
use incubator_htrace.Widget.Cursor.{TimeCursor}
use incubator_htrace.Widget.{Number, Event, IsWithout}
use incubator_htrace.Results.Spans.{Families}
use incubator_htrace.Canvas.Page.{Coordinates, Scene, whole, setup_coordinates}
use incubator_htrace.Canvas.Setup.{setup_widgets-All}
use incubator_htrace.Canvas.Drawing.{canvas_too_small, draw_too_small, fill_background, draw_page}
use incubator_htrace.Stage.{Stage, new_stage}
use incubator_htrace.Stage.Paint.{paint_lem}
use incubator_htrace.Stage.Screen.{
  Input, Screen, cursor_before, scale_canvas, draw_stage, show_scene, render_page, after_release,
  redraw, handle_event, Action, mouse, rerender, act, act_all,
}
use incubator_htrace.Stage.Session.{IsFresh-IsCreated, new_stage-IsWorking, deliver_event-IsWorking}
use incubator_htrace.Stage.Start.{IsFresh}
use incubator_htrace.Stage.Working.{IsWorking}

-- The trees of the results are finite, and less high than the fuel.
abbrev pub IsFinite : {W : Type 0} → Input W → Type 0
IsFinite i = Families i.models i.fuel i.search_results

abbrev pub IsFiniteAction : {W : Type 0} → Action W → Type 0
IsFiniteAction (mouse e) = Unit
IsFiniteAction (rerender i process_name_fraction) = IsFinite i

module _ {W : Type 0} ⦃n : Number W⦄ (without : List ℕ → ℕ → List ℕ) where
  -- The widgets work as they were set up, what was drawn last is how they and the models now are, and
  -- the canvas has the size of the page.
  pub record IsShown (p : Screen W) : Type 0 where
    pub scene : Scene W
    pub models : Store
    pub working : IsWorking p.input.fuel p.input.search_results (new_stage scene models) p.stage
    pub shown :
        p.drawn
        ≡ draw_page p.stage.desk.spans.models
            (record { widgets = p.stage.widgets; coordinates = p.coordinates })
    pub sized : p.size ≡ scale_canvas p.coordinates p.input.ratio

  draw_stage_lem :
      (fuel : ℕ) (search_results : List ℕ) (c : Coordinates W) (scene : Scene W) (st : Store)
      (s : Stage W)
      → IsWorking fuel search_results (new_stage scene st) s
      → draw_stage without fuel search_results c s
        ≡ draw_page s.desk.spans.models (record { widgets = s.widgets; coordinates = c })
  unfolding draw_stage draw_page
  draw_stage_lem fuel search_results c scene st s working =
      ap (λ cs. if canvas_too_small c then draw_too_small c else fill_background c ++ cs)
        (paint_lem without fuel search_results st scene s (whole 0) working).0

  pub render_page-IsShown :
      (i : Input W) (process_name_fraction : W) (before : Option (TimeCursor W))
      → IsFinite i
      → (p : Screen W) × (render_page without i process_name_fraction before ≡ some p) × IsShown p
  unfolding render_page show_scene new_stage
  render_page-IsShown i process_name_fraction before families =
      let c =
        setup_coordinates i.inner_width i.window_height i.header_height process_name_fraction in
      let (scene, set_up, fresh) =
        setup_widgets-All i.models c i.begin i.end IsFresh
          (IsFresh-IsCreated i.models i.fuel i.search_results families c i.begin i.end) i.fuel
          i.search_results families before in
      let working = new_stage-IsWorking i.models i.fuel i.search_results families scene fresh in
      (
        show_scene without i scene,
        rw (render_page, set_up),
        record {
          scene = scene;
          models = i.models;
          working = working;
          shown =
              draw_stage_lem i.fuel i.search_results scene.coordinates scene i.models
                (new_stage scene i.models) working;
          sized = refl;
        },
      )

  module _ (law : IsWithout without) where
    after_release-IsShown :
        (p : Screen W) (h : IsShown p) (s : Stage W)
        → IsWorking p.input.fuel p.input.search_results (new_stage h.scene h.models) s
        → (releases : List W)
        → (p' : Screen W) × (after_release without p s releases ≡ some p') × IsShown p'
    unfolding after_release redraw
    after_release-IsShown p h s working [] = (
      redraw without p s,
      refl,
      record {
        scene = h.scene;
        models = h.models;
        working = working;
        shown =
            draw_stage_lem p.input.fuel p.input.search_results p.coordinates h.scene h.models s
              working;
        sized = h.sized;
      },
    )
    after_release-IsShown p h s working (x ∷ xs) =
        render_page-IsShown (record p.input { models = s.desk.spans.models })
          (n.div x p.coordinates.view_x) (cursor_before s.widgets) working.families

    handle_event-IsShown :
        (e : Event W) (p : Screen W)
        → IsShown p
        → (p' : Screen W) × (handle_event without e p ≡ some p') × IsShown p'
    unfolding handle_event
    handle_event-IsShown e p h =
        let (s, done, working) =
          deliver_event-IsWorking without law p.input.fuel p.input.search_results
            (new_stage h.scene h.models) e p.stage h.working in
        let (p', drawn, shown) = after_release-IsShown p h s working s.desk.releases in
        (p', rw (handle_event, done) drawn, shown)

    act-IsShown :
        (a : Action W) (p : Screen W)
        → IsFiniteAction a
        → IsShown p
        → (p' : Screen W) × (act without a p ≡ some p') × IsShown p'
    unfolding act
    act-IsShown (mouse e) p finite h = handle_event-IsShown e p h
    act-IsShown (rerender i process_name_fraction) p finite h =
        render_page-IsShown i process_name_fraction (cursor_before p.stage.widgets) finite

    act_all-IsShown :
        (actions : List (Action W)) (p : Screen W)
        → All IsFiniteAction actions
        → IsShown p
        → (p' : Screen W) × (act_all without actions p ≡ some p') × IsShown p'
    unfolding act_all
    act_all-IsShown [] p finite h = (p, refl, h)
    act_all-IsShown (a ∷ rest) p finite h =
        let (p1, now, h1) = act-IsShown a p finite.0 h in
        let (p2, later, h2) = act_all-IsShown rest p1 finite.1 h1 in
        (p2, rw (act_all, now) later, h2)

-- If `_.without` does what is documented of it, and the trees of the results are finite and less high
-- than the fuel whenever the page is rendered from outside: then the page is rendered, and whatever
-- the user does with the mouse, and however often the page is rendered again, with other models,
-- results, times or sizes, every handler comes to its end; what was drawn last is the page with its
-- widgets and models as they now are; and the widgets work as they were set up.
pub act_all-render_page :
    {W : Type 0}
    → ⦃n : Number W⦄
    → (without : List ℕ → ℕ → List ℕ) (law : IsWithout without) (i : Input W)
      (process_name_fraction : W) (actions : List (Action W))
    → IsFinite i
    → All IsFiniteAction actions
    → (p : Screen W) × (render_page without i process_name_fraction none ≡ some p)
      × (p' : Screen W) × (act_all without actions p ≡ some p')
      × IsShown without p'
act_all-render_page without law i process_name_fraction actions finite all_finite =
    let (p, rendered, shown) = render_page-IsShown without i process_name_fraction none finite in
    let (p', done, shown') = act_all-IsShown without law actions p all_finite shown in
    (p, rendered, p', done, shown')
