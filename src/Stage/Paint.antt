-- ===== src/Stage/Paint.antt =====
-- Drawing the page by the manager: `widgetManager.handle({type: "draw"})` in `draw` of
-- search_results_view.js.
use incubator_htrace.Prelude.{
  ℕ, zero, suc, ◌+◌, ◌≡◌, refl, sym, ap, ◌∙◌, Bool, true, false, none, some, List, [], ◌∷◌, ◌++◌,
  map, arith, some_inj, Option-cases, inl, inr,
}
use mathlib.Core.List.{append-nil, append_assoc}
use incubator_htrace.Span.Store.{Store}
use incubator_htrace.Widget.{Number, Event, draw, no_listeners, handle_each}
use incubator_htrace.Widget.Triangle.{handle}
use incubator_htrace.Widget.Partition.{handle_partition}
use incubator_htrace.Widget.Cursor.{handle_cursor}
use incubator_htrace.SpanWidget.Row.{handle_row}
use incubator_htrace.Canvas.{Command}
use incubator_htrace.Canvas.Page.{Widget, group, row, button, partition, cursor, Scene}
use incubator_htrace.Canvas.Drawing.{draw_widget, draw_widgets}
use incubator_htrace.Stage.{
  Desk, Stage, at, put, new_stage, turn_widget, handle_widget, handle_next, deliver_event,
}
use incubator_htrace.Stage.Start.{listeners_from, register_all_lem}
use incubator_htrace.Stage.Step.{place}
use incubator_htrace.Stage.Working.{IsWorking}

-- The event has no point; no handler looks at it when it draws.
abbrev pub draw_event : {W : Type 0} → W → Event W
draw_event x = record { type = draw; x = x; y = x; ctrl_key = false }

put_same : {A : Type 0} → (xs : List A) (k : ℕ) (y : A) → at xs k ≡ some y → put xs k y ≡ xs
put_same [] k y h = refl
put_same (x ∷ xs) zero y h = ap (λ z. z ∷ xs) (sym (some_inj h))
put_same (x ∷ xs) (suc k) y h = ap (λ l. x ∷ l) (put_same xs k y h)

module _ {W : Type 0} ⦃n : Number W⦄ (without : List ℕ → ℕ → List ℕ) (fuel : ℕ)
    (search_results : List ℕ) (x : W) (s : Stage W) where
  -- What the widget at a place draws, behind what was drawn before.
  unfoldable pub paint_widget : ℕ → List (Command W) → List (Command W) × Bool
  unfolding handle_widget
  paint_widget k done = (
    done ++ elim (at s.widgets k) [ none ↦ [] | some w ↦ draw_widget s.desk.spans.models w ],
    (handle_widget without fuel search_results (draw_event x) k s).1,
  )

  unfoldable pub paint : List (Command W)
  unfolding handle_each paint_widget
  paint = handle_each paint_widget (s.desk.listeners draw) []

  turn_widget-draw :
      (k : ℕ) (w : Widget W) (d : Desk W)
      → turn_widget without fuel search_results (draw_event x) k w d ≡ (some (w, d), true)
  unfolding turn_widget handle handle_partition handle_cursor handle_row
  turn_widget-draw k (group b) d = refl
  turn_widget-draw k (row w span) d = refl
  turn_widget-draw k (button b span) d = refl
  turn_widget-draw k (partition b) d = refl
  turn_widget-draw k (cursor c) d = refl

  paint_widget-at :
      (k : ℕ) (w : Widget W) (done : List (Command W))
      → at s.widgets k ≡ some w
      → paint_widget k done ≡ (done ++ draw_widget s.desk.spans.models w, true)
  unfolding paint_widget handle_widget
  paint_widget-at k w done h = rw (paint_widget, handle_widget, h, turn_widget-draw k w s.desk)

  paint_from :
      (k : ℕ) (ws : List (Widget W)) (done : List (Command W))
      → ((i : ℕ) → at s.widgets (k + i) ≡ at ws i)
      → handle_each paint_widget (listeners_from draw k ws) done
        ≡ done ++ draw_widgets s.desk.spans.models ws
  unfolding handle_each draw_widgets
  paint_from k [] done rest = sym (append-nil done)
  paint_from k (w ∷ ws) done rest =
      let own = draw_widget s.desk.spans.models w in
      let now = paint_widget-at k w done (ap (at s.widgets) zero_place ∙ rest 0) in
      let later =
        paint_from (suc k) ws (done ++ own)
          (λ i. ap (at s.widgets) (next_place i) ∙ rest (suc i)) in
      rw (now) (later ∙ append_assoc done own (draw_widgets s.desk.spans.models ws))
    where
      zero_place : k ≡ k + 0
      zero_place = omega arith

      next_place : (i : ℕ) → suc k + i ≡ k + suc i
      next_place i = omega arith

  -- Drawing changes nothing of the page.
  keep_from :
      (ks : List ℕ)
      → handle_each (handle_next without fuel search_results (draw_event x)) ks (some s) ≡ some s
  unfolding handle_each handle_widget
  keep_from [] = refl
  keep_from (k ∷ ks) = elim (Option-cases (at s.widgets k)) [
    | inl nothing ↦ rw (handle_widget, nothing)
    | inr (w, there) ↦
        rw (handle_widget, there, turn_widget-draw k w s.desk, put_same s.widgets k w there)
          (keep_from ks)
  ]

-- The widgets in the order of their places listen to drawing.
listeners_from-place :
    {W : Type 0}
    → (k : ℕ) (ws vs : List (Widget W)) → map place ws ≡ map place vs
    → listeners_from draw k ws ≡ listeners_from draw k vs
listeners_from-place k [] [] e = refl
listeners_from-place k [] (v ∷ vs) e = cc
listeners_from-place k (w ∷ ws) [] e = cc
listeners_from-place k (w ∷ ws) (v ∷ vs) e =
    let same : map place ws ≡ map place vs = cc in
    ap (λ l. k ∷ l) (listeners_from-place (suc k) ws vs same)

-- Of a page whose widgets work as they were set up, as they do after any events: the manager draws
-- it as `draw_widgets` does, each widget once, in the order of their creation; and the drawing
-- changes nothing of the page.
pub paint_lem :
    {W : Type 0}
    → ⦃n : Number W⦄
    → (without : List ℕ → ℕ → List ℕ) (fuel : ℕ) (search_results : List ℕ) (st : Store)
      (scene : Scene W) (s : Stage W) (x : W)
    → IsWorking fuel search_results (new_stage scene st) s
    → (paint without fuel search_results x s ≡ draw_widgets s.desk.spans.models s.widgets)
      × (deliver_event without fuel search_results (draw_event x) s ≡ some s)
unfolding new_stage deliver_event paint
paint_lem without fuel search_results st scene s x working =
    let here : s.desk.listeners draw ≡ listeners_from draw 0 s.widgets =
      working.drawings
      ∙ register_all_lem draw refl 0 none scene.widgets no_listeners
      ∙ sym (listeners_from-place 0 s.widgets scene.widgets working.places) in
    (
      ap (λ ks. handle_each (paint_widget without fuel search_results x s) ks []) here
          ∙ paint_from without fuel search_results x s 0 s.widgets []
              (λ i. ap (at s.widgets) (zero_plus i)),
      keep_from without fuel search_results x s (s.desk.listeners draw),
    )
  where
    zero_plus : (i : ℕ) → 0 + i ≡ i
    zero_plus i = omega arith
