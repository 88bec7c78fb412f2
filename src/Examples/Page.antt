-- ===== src/Examples/Page.antt =====
-- What the user does on the page of the search results.
use incubator_htrace.Prelude.{
  arith, ℕ, Bool, not, ◌||◌, ◌≢◌, Bool-cases, ◌≡◌, refl, true, false, some, [], ◌∷◌, ◌++◌, inl, inr,
  if◌then◌else◌, ◌==◌, ◌&&◌,
}
use incubator_htrace.Prelude.Int.{pos}
use incubator_htrace.Span.Store.{Store}
use incubator_htrace.Widget.{
  EventType, mouse_down, mouse_up, mouse_move, mouse_out, dblclick, draw, same_type, Event,
  Listeners,
}
use incubator_htrace.Widget.Partition.{Partition, handle_partition}
use incubator_htrace.Widget.Manager.{contains}
use incubator_htrace.Widget.Triangle.{inside}
use incubator_htrace.Widget.Triangle.Session.{IsValid, deliver_all}
use incubator_htrace.Widget.Triangle.Loop.{Passes}
use incubator_htrace.Widget.Triangle.Click.{click_lem, ends_inside}
use incubator_htrace.Results.{View, render, is_selected, get_selected_spans_or_all_spans}
use incubator_htrace.Results.Spans.{all_spans}
use incubator_htrace.Results.Select.{selected_or_all, get_selected_spans_or_all_spans_lem}
use incubator_htrace.Results.Clear.{clear_handler}
use incubator_htrace.Results.Clear.Laws.{
  doomed, all_marked, clear_handler-none, clear_handler-some, clear_handler_keeps_selected,
}
use incubator_htrace.Results.Timeline.{set_times}
use incubator_htrace.Results.Timeline.Bounds.{Shows, set_times-Shows}
use incubator_htrace.SpanWidget.{select_span}
use incubator_htrace.SpanWidget.Selection.{with_selection, select_span_plain}
use incubator_htrace.Examples.Data.{
  family_3, store, families, view, remove_all, remove_all-IsRemove, without_all,
  without_all-IsWithout, whole_pixels, button, idle_partition, session, press_event, move_event,
  out_event, release_event,
}

-- The other widgets are the partition, and rows of spans that let everything through.
abbrev others : ℕ → Event ℕ → Partition ℕ → Listeners → Partition ℕ × Listeners × Bool
others w e b ls =
    if w == 3
    then (let (p, go_on) =
          handle_partition without_all 3 e
            (record { partition = b; listeners = ls; cursor = []; releases = [] }) in
        (p.partition, p.listeners, go_on))
    else (b, ls, true)

abbrev IsIdle : Partition ℕ → Type 0
IsIdle b = b ≡ idle_partition

-- The partition listens to presses only.
abbrev attends : ℕ → EventType → Bool
attends w t = not (w == 3) || same_type t mouse_down

press_Passes : Passes without_all 7 others IsIdle attends press_event
unfolding handle_partition incubator_htrace.Widget.in_bounding_box
press_Passes w b ls idle differs at = elim (Bool-cases (w == 3)) [
  | inl same ↦ rw (same, idle) (refl, (λ v t. refl), refl)
  | inr differs_too ↦ rw differs_too (idle, (λ v t. refl), refl)
]

drag_Passes :
    (e : Event ℕ)
    → same_type e.type mouse_down ≡ false
    → Passes without_all 7 others IsIdle attends e
drag_Passes e dragged w b ls idle differs at = elim (Bool-cases (w == 3)) [
  | inl same ↦ absurd (ground arith)
  | inr differs_too ↦ rw differs_too (idle, (λ v t. refl), refl)
]

session-IsValid : IsValid without_all 7 others session
session-IsValid = record { listens_down = refl; move_as_up = refl; out_as_up = refl }

attended :
    (w : ℕ) (t : EventType) → w ≢ 7 → contains w (session.listeners t) ≡ true → attends w t ≡ true
attended w mouse_down differs h = ground arith
attended w mouse_up differs h = cc
attended w mouse_move differs h = cc
attended w mouse_out differs h = cc
attended w dblclick differs h = cc
attended w draw differs h = cc

click_lem_example :
    let s' =
      deliver_all without_all 7 others
        (press_event ∷ (out_event ∷ move_event ∷ []) ++ release_event ∷ [])
        session in
    (s'.calls ≡ (
      if inside button press_event && ends_inside button true (out_event ∷ move_event ∷ [])
      then 1
      else 0))
    × (s'.button.selected ≡ false)
    × (contains 7 (s'.listeners mouse_up) ≡ false)
click_lem_example =
    click_lem without_all 7 others IsIdle attends without_all-IsWithout press_event release_event
      (out_event ∷ move_event ∷ []) session press_Passes
      (drag_Passes out_event refl, (drag_Passes move_event refl, tt))
      (drag_Passes release_event refl) (refl, attended) session-IsValid refl refl refl
      (inr refl, (inl refl, tt)) refl

get_selected_spans_or_all_spans_lem_example :
    get_selected_spans_or_all_spans store 3 (0 ∷ 1 ∷ [])
    ≡ some (selected_or_all store (all_spans store 3 (0 ∷ 1 ∷ []) families))
get_selected_spans_or_all_spans_lem_example =
    get_selected_spans_or_all_spans_lem store 3 (0 ∷ 1 ∷ []) families

clear_handler-some_example :
    clear_handler store 3 remove_all false view
    ≡ some (
        render (record view {
          search_results =
              remove_all (0 ∷ 1 ∷ []) (doomed (all_marked store 3 (0 ∷ 1 ∷ []) families));
        }))
clear_handler-some_example = clear_handler-some store 3 remove_all view families false refl

-- A page on which nothing is selected.
abbrev plain_view : View
plain_view = record view { search_results = 3 ∷ [] }

clear_handler-none_example :
    clear_handler store 3 remove_all true plain_view
    ≡ some (if true then render (record plain_view { search_results = [] }) else plain_view)
clear_handler-none_example =
    clear_handler-none store 3 remove_all plain_view ((family_3, omega arith, omega arith), tt) true
      remove_all-IsRemove refl

clear_handler_keeps_selected_example :
    clear_handler store 3 remove_all false (record view { search_results = 0 ∷ 1 ∷ [] })
    ≡ some (render (record view { search_results = 1 ∷ [] }))
clear_handler_keeps_selected_example =
    clear_handler_keeps_selected store 3 remove_all view 0 1 families false remove_all-IsRemove
      (λ e. cc) refl refl refl

set_times-Shows_example :
    Shows (set_times (some (pos 900)) (some (pos 890)) view).window (pos 900)
    × Shows (set_times (some (pos 900)) (some (pos 890)) view).window (pos 890)
set_times-Shows_example = set_times-Shows (pos 900) (pos 890) view (λ e. cc) (λ e. cc)

select_span_plain_example :
    (s' : Store) × (select_span 3 (0 ∷ 1 ∷ []) false 1 store ≡ some s')
    × (s'.cell 2
        ≡ with_selection (store.cell 2) (
            if contains 2 (all_spans store 3 (0 ∷ 1 ∷ []) families)
            then 1 == 2
            else is_selected store 2))
select_span_plain_example = select_span_plain 3 (0 ∷ 1 ∷ []) 1 store families 2
