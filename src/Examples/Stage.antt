-- ===== src/Examples/Stage.antt =====
-- A page with all kinds of widgets at work.
use incubator_htrace.Prelude.{ℕ, ◌≡◌, refl, false, none, some, List, [], ◌∷◌, All}
use incubator_htrace.Widget.{Event, EventType, mouse_down, mouse_move, mouse_up}
use incubator_htrace.Widget.Triangle.{Triangle, up}
use incubator_htrace.Canvas.Page.{Coordinates, Scene, group, button, partition}
use incubator_htrace.Canvas.Drawing.{draw_widgets}
use incubator_htrace.Stage.{new_stage, deliver_event}
use incubator_htrace.Stage.Session.{new_stage-IsWorking}
use incubator_htrace.Stage.Screen.{Input, Screen, Action, mouse, rerender, render_page, act_all}
use incubator_htrace.Stage.Shown.{IsShown, act_all-render_page}
use incubator_htrace.Stage.Expanding.{Runs-render_page}
use incubator_htrace.Span.Reify.Answered.{IsAnswering}
use incubator_htrace.Canvas.Setup.{IsUseful}
use incubator_htrace.Examples.Reify.{one_span, one_span-IsAcyclic}
use incubator_htrace.Examples.Schedule.{models, tasks, runs}
use incubator_htrace.Stage.Paint.{draw_event, paint, paint_lem}
use incubator_htrace.Examples.Data.{
  store, families, without_all, without_all-IsWithout, whole_pixels,
}

abbrev coordinates : Coordinates ℕ
coordinates = record {
  view_x = 1000;
  view_y = 600;
  x_b = 200;
  x_d = 250;
  x_s = 950;
  canvas_y = 600;
}

abbrev at_point : EventType → ℕ → ℕ → Event ℕ
at_point t x y = record { type = t; x = x; y = y; ctrl_key = false }

abbrev up_button : Triangle ℕ
up_button = record { x0 = 10; x_f = 20; y0 = 10; y_f = 20; direction = up; selected = false }

abbrev scene : Scene ℕ
scene = record {
  widgets =
      group (record { x0 = 0; x_f = 950; y0 = 0; y_f = 24 })
      ∷ button up_button 1
      ∷ partition (record {
        x0 = 200;
        x_f = 205;
        x_min = 100;
        x_max = 900;
        y0 = 0;
        y_f = 24;
        selected = false;
      })
      ∷ [];
  coordinates = coordinates;
}

paint_lem_example :
    (paint without_all 3 (0 ∷ 1 ∷ []) 0 (new_stage scene store) ≡ draw_widgets store scene.widgets)
    × (deliver_event without_all 3 (0 ∷ 1 ∷ []) (draw_event 0) (new_stage scene store)
        ≡ some (new_stage scene store))
unfolding new_stage
paint_lem_example =
    paint_lem without_all 3 (0 ∷ 1 ∷ []) store scene (new_stage scene store) 0
      (new_stage-IsWorking store 3 (0 ∷ 1 ∷ []) families scene (tt, (refl, (refl, tt))))

abbrev input : Input ℕ
input = record {
  inner_width = 1000;
  window_height = 700;
  header_height = 50;
  ratio = 1;
  begin = 0;
  end = 100;
  models = store;
  search_results = 0 ∷ 1 ∷ [];
  fuel = 3;
}

-- A drag of the partition, which ends with the page rendered, and then a smaller window.
abbrev actions : List (Action ℕ)
actions =
    mouse (at_point mouse_down 1 10)
    ∷ mouse (at_point mouse_move 300 10)
    ∷ mouse (at_point mouse_up 300 10)
    ∷ rerender (record input { inner_width = 800 }) 1
    ∷ []

act_all-render_page_example :
    (p : Screen ℕ) × (render_page without_all input 0 none ≡ some p)
    × (p' : Screen ℕ) × (act_all without_all actions p ≡ some p')
    × IsShown without_all p'
act_all-render_page_example =
    act_all-render_page without_all without_all-IsWithout input 0 actions families
      (tt, (tt, (tt, (families, tt))))

-- Both buttons of a span were clicked on, and only the parents were found yet.
Runs-render_page_example :
    (fuel : ℕ) × (p : Screen ℕ) × (render_page without_all
        (record input { models = models; fuel = fuel })
        0
        none
      ≡ some p)
    × IsShown without_all p
    × All (IsUseful models) p.stage.widgets
Runs-render_page_example =
    Runs-render_page without_all IsAnswering one_span models tasks runs one_span-IsAcyclic input 0
      none
