-- ===== src/Stage/Expanding.antt =====
-- The page when it is rendered between the answers to look-ups.
use incubator_htrace.Prelude.{ℕ, ◌≡◌, subst, Option, some, List, All, some_inj}
use incubator_htrace.Span.Store.{Store}
use incubator_htrace.Span.Reify.{Server}
use incubator_htrace.Span.Reify.Acyclic.{IsAcyclic}
use incubator_htrace.Span.Reify.Schedule.{Tasks, Runs}
use incubator_htrace.Span.Reify.Schedule.Invariant.{Runs-Keeps}
use incubator_htrace.SpanWidget.Expand.{IsAcyclic-Families}
use incubator_htrace.Widget.Cursor.{TimeCursor}
use incubator_htrace.Widget.{Number}
use incubator_htrace.Canvas.Page.{setup_coordinates}
use incubator_htrace.Canvas.Setup.{IsUseful, setup_widgets-IsUseful}
use incubator_htrace.Stage.{new_stage}
use incubator_htrace.Stage.Screen.{Input, Screen, show_scene, render_page}
use incubator_htrace.Stage.Shown.{IsFinite, IsShown, render_page-IsShown}

module _ {W : Type 0} ⦃n : Number W⦄ (without : List ℕ → ℕ → List ℕ) where
  render_page-IsUseful :
      (i : Input W) (process_name_fraction : W) (before : Option (TimeCursor W)) (p : Screen W)
      → IsFinite i
      → render_page without i process_name_fraction before ≡ some p
      → All (IsUseful i.models) p.stage.widgets
  unfolding render_page show_scene new_stage
  render_page-IsUseful i process_name_fraction before p families rendered =
      let c =
        setup_coordinates i.inner_width i.window_height i.header_height process_name_fraction in
      let (scene, set_up, useful) =
        setup_widgets-IsUseful i.models c i.begin i.end i.fuel i.search_results families before in
      let same : some (show_scene without i scene) ≡ some p = rw set_up at rendered in
      subst (λ (q : Screen W). All (IsUseful i.models) q.stage.widgets) (some_inj same) useful

  -- Let the models have no cycle of parents or of children. Then after any clicks and any answers of
  -- htraced, in whatever order and however many look-ups are still under way: with enough fuel the
  -- page is rendered, over any results and at any times and sizes; what is drawn is the page with its
  -- widgets and models; and each of its buttons asks for parents or children that are not known yet.
  pub Runs-render_page :
      (Allows : Server → Type 0) (first st : Store) (ts : Tasks)
      → Runs Allows first st ts
      → IsAcyclic first
      → (i : Input W) (process_name_fraction : W) (before : Option (TimeCursor W))
      → (fuel : ℕ) × (p : Screen W) × (render_page without
            (record i { models = st; fuel = fuel })
            process_name_fraction
            before
          ≡ some p)
        × IsShown without p
        × All (IsUseful st) p.stage.widgets
  Runs-render_page Allows first st ts runs a i process_name_fraction before =
      let (k, _) = Runs-Keeps Allows first st ts runs a in
      let (fuel, families) = IsAcyclic-Families st i.search_results k.0 in
      let j = record i { models = st; fuel = fuel } in
      let (p, rendered, shown) =
        render_page-IsShown without j process_name_fraction before families in
      (
        fuel,
        p,
        rendered,
        shown,
        render_page-IsUseful j process_name_fraction before p families rendered,
      )
