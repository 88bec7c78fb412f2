-- ===== src/Stage.antt =====
-- The page of the search results at work: all widgets of the canvas under one manager, as
-- `setupWidgets` of search_results_view.js leaves them.
--
-- A widget is named by its place in the list of the widgets, which is the order of their creation.
-- What the handlers change beside their own widget is the desk: the listeners of the manager, the
-- spans, the style of the mouse cursor, and the calls of the callbacks of the buttons and of
-- `releaseHandler`, the last one first.
pub mod Expanding
pub mod Paint
pub mod Screen
pub mod Session
pub mod Shown
pub mod Start
pub mod Step
pub mod Working
use incubator_htrace.Prelude.{
  ℕ, zero, suc, Bool, true, false, Option, none, some, List, [], ◌∷◌, ◌++◌, Text, if◌then◌else◌,
}
use incubator_htrace.Span.Store.{Store}
use incubator_htrace.Widget.{
  Number, Event, EventType, mouse_down, mouse_move, dblclick, draw, same_type, Listeners,
  no_listeners, register, handle_each,
}
use incubator_htrace.Widget.Triangle.{Direction, handle}
use incubator_htrace.Widget.Partition.{Partition, Page, handle_partition}
use incubator_htrace.Widget.Cursor.{handle_cursor}
use incubator_htrace.SpanWidget.Row.{Spans, handle_row}
use incubator_htrace.Canvas.Page.{Widget, group, row, button, partition, cursor, Scene}

-- A call of the callback of a button.
pub record ButtonClick : Type 0 where
  pub direction : Direction
  pub ctrl_key : Bool
  pub span : ℕ

pub record Desk (W : Type 0) : Type 0 where
  pub listeners : Listeners
  pub spans : Spans
  pub style : Text
  pub clicks : List ButtonClick
  pub releases : List W

pub record Stage (W : Type 0) : Type 0 where
  pub widgets : List (Widget W)
  pub desk : Desk W

-- `a[k]` and `a[k] = x`, in a list.
module _ {A : Type 0} where
  abbrev pub at : List A → ℕ → Option A
  at [] k = none
  at (x ∷ xs) zero = some x
  at (x ∷ xs) (suc k) = at xs k

  abbrev pub put : List A → ℕ → A → List A
  put [] k y = []
  put (x ∷ xs) zero y = y ∷ xs
  put (x ∷ xs) (suc k) y = x ∷ put xs k y

-- A row registers for presses and double clicks when its buttons, which are created right behind it,
-- have done so.
abbrev pub close_row : Option ℕ → Listeners → Listeners
close_row none ls = ls
close_row (some k) ls = register dblclick k (register mouse_down k ls)

module _ {W : Type 0} where
  -- The registrations of the widgets from place `k` on, in the order of the calls.
  unfoldable pub register_all : ℕ → (open_row : Option ℕ) → List (Widget W) → Listeners → Listeners
  register_all k open_row [] ls = close_row open_row ls
  register_all k open_row (button b span ∷ ws) ls =
      register_all (suc k) open_row ws (register draw k (register mouse_down k ls))
  register_all k open_row (group b ∷ ws) ls =
      register_all (suc k) none ws (register draw k (close_row open_row ls))
  register_all k open_row (row w span ∷ ws) ls =
      register_all (suc k) (some k) ws (register draw k (close_row open_row ls))
  register_all k open_row (partition b ∷ ws) ls =
      register_all (suc k) none ws (register draw k (register mouse_down k (close_row open_row ls)))
  register_all k open_row (cursor c ∷ ws) ls =
      register_all (suc k) none ws (register draw k (register mouse_move k (close_row open_row ls)))

  unfoldable pub new_stage : Scene W → Store → Stage W
  unfolding register_all
  new_stage scene st = record {
    widgets = scene.widgets;
    desk = record {
      listeners = register_all 0 none scene.widgets no_listeners;
      spans = record { models = st; details = [] };
      style = [];
      clicks = [];
      releases = [];
    };
  }

module _ {W : Type 0} ⦃n : Number W⦄ (without : List ℕ → ℕ → List ℕ) (fuel : ℕ)
    (search_results : List ℕ) where
  -- The handler of the widget at place `k`: what it makes of its widget and of the desk, and whether
  -- the manager is to go on. `none` means that the fuel of a traversal ran out.
  unfoldable pub turn_widget : Event W → ℕ → Widget W → Desk W → Option (Widget W × Desk W) × Bool
  turn_widget e k (group b) d = (some (group b, d), same_type e.type draw)
  turn_widget e k (row w span) d =
      let (p, go_on) = handle_row fuel search_results w span e d.spans in
      (elim p [ none ↦ none | some spans ↦ some (row w span, record d { spans = spans }) ], go_on)
  turn_widget e k (button b span) d =
      let h = handle without k e b d.listeners in
      let click : ButtonClick = record {
        direction = b.direction;
        ctrl_key = e.ctrl_key;
        span = span;
      } in
      (
        some (
          button h.button span,
          record d {
            listeners = h.listeners;
            clicks = if h.called then click ∷ d.clicks else d.clicks;
          },
        ),
        h.go_on,
      )
  turn_widget e k (partition b) d =
      let before : Page W = record {
        partition = b;
        listeners = d.listeners;
        cursor = d.style;
        releases = d.releases;
      } in
      let (p, go_on) = handle_partition without k e before in
      (
        some (
          partition p.partition,
          record d { listeners = p.listeners; style = p.cursor; releases = p.releases },
        ),
        go_on,
      )
  turn_widget e k (cursor c) d = let (c', go_on) = handle_cursor e c in (some (cursor c', d), go_on)

  unfoldable pub handle_widget : Event W → ℕ → Stage W → Option (Stage W) × Bool
  unfolding turn_widget
  handle_widget e k s = elim (at s.widgets k) [
    | none ↦ (some s, false)
    | some w ↦
        let (r, go_on) = turn_widget e k w s.desk in
        (
          elim r [
            | none ↦ none
            | some (w', d) ↦ some (record { widgets = put s.widgets k w'; desk = d })
          ],
          go_on,
        )
  ]

  -- A handler after another one that may have run out of fuel.
  abbrev pub handle_next : Event W → ℕ → Option (Stage W) → Option (Stage W) × Bool
  handle_next e k none = (none, false)
  handle_next e k (some s) = handle_widget e k s

  -- `widgetManager.handle`
  unfoldable pub deliver_event : Event W → Stage W → Option (Stage W)
  unfolding handle_widget handle_each
  deliver_event e s = handle_each (handle_next e) (s.desk.listeners e.type) (some s)
