-- ===== src/Examples/Dragging.antt =====
-- A drag of the partition, and the bar that shows a time.
use incubator_htrace.Prelude.{none, ℕ, ◌≡◌, refl, true, false, [], ◌∷◌, ◌++◌, text, Bool}
use incubator_htrace.Widget.{
  in_bounding_box, Event, EventType, mouse_down, mouse_move, mouse_up, no_listeners,
}
use incubator_htrace.Widget.Partition.{Partition, Page, handle_partition}
use incubator_htrace.Widget.Partition.Drag.{move_all, deliver_pages, drag_lem}
use incubator_htrace.Widget.Cursor.{TimeCursor}
use incubator_htrace.Examples.Data.{whole_pixels, without_all}

abbrev partition : Partition ℕ
partition = record {
  x0 = 100;
  x_f = 115;
  y0 = 0;
  y_f = 500;
  x_min = 50;
  x_max = 300;
  selected = false;
}

abbrev page : Page ℕ
page = record { partition = partition; listeners = no_listeners; cursor = []; releases = [] }

-- Another widget, which unregisters everyone.
abbrev rude : ℕ → Event ℕ → Page ℕ → Page ℕ × Bool
rude w e p = (record p { listeners = no_listeners }, true)

abbrev at : EventType → ℕ → Event ℕ
at t x = record { type = t; x = x; y = 20; ctrl_key = false }

in_box : in_bounding_box {W = ℕ} 105 20 100 115 0 500 ≡ true
unfolding in_bounding_box
in_box = refl

drag_lem_example :
    let p' =
      deliver_pages without_all 9 rude
        ((at mouse_move 400 ∷ []) ++ at mouse_up 400 ∷ [])
        (handle_partition without_all 9 (at mouse_down 105) page).0 in
    let b = move_all (record partition { selected = true }) (at mouse_move 400 ∷ []) in
    (p'.partition ≡ record b { selected = false })
    × (p'.releases ≡ b.x0 ∷ [])
    × (p'.cursor ≡ text "pointer")
drag_lem_example =
    drag_lem without_all 9 rude (at mouse_down 105) (at mouse_up 400) (at mouse_move 400 ∷ []) page
      refl in_box (refl, tt) refl

abbrev cursor : TimeCursor ℕ
cursor = record {
  x0 = 200;
  x_f = 1000;
  y0 = 0;
  y_f = 500;
  begin = 7;
  end = 87;
  selected_time = 7;
  shown = none;
}
