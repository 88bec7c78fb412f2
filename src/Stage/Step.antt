-- ===== src/Stage/Step.antt =====
-- One call of the handler of one widget of the page.
use incubator_htrace.Prelude.{ℕ, ◌≡◌, refl, ap, true, false, none, some, List, Bool-cases, inl, inr}
use incubator_htrace.Widget.{
  Number, Event, EventType, mouse_down, mouse_up, mouse_move, mouse_out, dblclick, draw, Listeners,
  IsWithout,
}
use incubator_htrace.Widget.Manager.{contains, Frames, Frames-refl}
use incubator_htrace.Widget.Triangle.Held.{IsHeld, handle-IsTurned}
use incubator_htrace.Widget.Partition.{Page}
use incubator_htrace.Widget.Partition.Held.{fixed_part, IsDragged, handle_partition-IsSwitched}
use incubator_htrace.Widget.Cursor.{TimeCursor, handle_cursor, turn_cursor, over}
use incubator_htrace.Results.Spans.{Families}
use incubator_htrace.SpanWidget.Links.{handle_row-SameLinks, Families-same}
use incubator_htrace.Canvas.Page.{Widget, group, row, button, partition, cursor}
use incubator_htrace.Stage.{Desk, turn_widget}

-- What no event changes of a widget.
abbrev pub place : {W : Type 0} → Widget W → Widget W
place (group b) = group b
place (row w span) = row w span
place (button b span) = button (record b { selected = false }) span
place (partition b) = partition (fixed_part b)
place (cursor c) = cursor (record c { selected_time = c.begin; shown = none })

-- How a widget stands to the registrations for the events of a drag.
abbrev pub Fits : {W : Type 0} → ℕ → Widget W → Listeners → Type 0
Fits k (group b) ls = contains k (ls mouse_up) ≡ false
Fits k (row w span) ls = contains k (ls mouse_up) ≡ false
Fits k (button b span) ls = IsHeld k b ls
Fits k (partition b) ls = IsDragged k b ls
Fits k (cursor c) ls = (contains k (ls mouse_move) ≡ true) × (contains k (ls mouse_up) ≡ false)

module _ {W : Type 0} ⦃n : Number W⦄ (e : Event W) where
  handle_cursor-place : (c : TimeCursor W) → place (cursor (handle_cursor e c).0) ≡ place (cursor c)
  unfolding handle_cursor
  handle_cursor-place c = by_type e.type
    where
      by_type : (t : EventType) → place (cursor (turn_cursor t e c).0) ≡ place (cursor c)
      by_type mouse_move = elim (Bool-cases (over c e)) [ inl hit ↦ rw hit | inr miss ↦ rw miss ]
      by_type mouse_down = refl
      by_type mouse_up = refl
      by_type mouse_out = refl
      by_type dblclick = refl
      by_type draw = refl

module _ {W : Type 0} ⦃n : Number W⦄ (without : List ℕ → ℕ → List ℕ) (law : IsWithout without)
    (fuel : ℕ) (search_results : List ℕ) (e : Event W) (k : ℕ) where
  -- The handler comes to an end, and its widget fits the registrations again.
  pub record IsStep (w : Widget W) (d : Desk W) : Type 0 where
    pub widget : Widget W
    pub desk : Desk W
    pub turned : (turn_widget without fuel search_results e k w d).0 ≡ some (widget, desk)
    pub places : place widget ≡ place w
    pub frames : Frames k d.listeners desk.listeners
    pub fits : Fits k widget desk.listeners
    pub moves : e.type ≡ mouse_move → desk.listeners ≡ d.listeners
    pub families : Families desk.spans.models fuel search_results

  pub turn_widget-IsStep :
      (w : Widget W) (d : Desk W)
      → Fits k w d.listeners
      → (e.type ≡ mouse_move → contains k (d.listeners mouse_move) ≡ true)
      → Families d.spans.models fuel search_results
      → IsStep w d
  unfolding turn_widget
  turn_widget-IsStep (group b) d fits on fs = record {
    widget = group b;
    desk = d;
    turned = refl;
    places = refl;
    frames = Frames-refl k d.listeners;
    fits = fits;
    moves = λ m. refl;
    families = fs;
  }
  turn_widget-IsStep (row w span) d fits on fs =
      let (p, done, same) = handle_row-SameLinks fuel search_results w span e d.spans fs in
      record {
        widget = row w span;
        desk = record d { spans = p };
        turned = rw (turn_widget, done);
        places = refl;
        frames = Frames-refl k d.listeners;
        fits = fits;
        moves = λ m. refl;
        families = Families-same d.spans.models p.models fuel search_results same fs;
      }
  turn_widget-IsStep (button b span) d fits on fs =
      let h = handle-IsTurned without law k b d.listeners fits e on in
      record {
        widget = _;
        desk = _;
        turned = refl;
        places = ap (λ c. button c span) h.box;
        frames = h.frames;
        fits = h.held;
        moves = h.moves;
        families = fs;
      }
  turn_widget-IsStep (partition b) d fits on fs =
      let before : Page W = record {
        partition = b;
        listeners = d.listeners;
        cursor = d.style;
        releases = d.releases;
      } in
      let h = handle_partition-IsSwitched without law k before fits e in
      record {
        widget = _;
        desk = _;
        turned = refl;
        places = ap partition h.bounds;
        frames = h.frames;
        fits = h.held;
        moves = h.moves;
        families = fs;
      }
  turn_widget-IsStep (cursor c) d fits on fs = record {
    widget = cursor (handle_cursor e c).0;
    desk = d;
    turned = refl;
    places = handle_cursor-place e c;
    frames = Frames-refl k d.listeners;
    fits = fits;
    moves = λ m. refl;
    families = fs;
  }
