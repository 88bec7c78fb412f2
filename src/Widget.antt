-- ===== src/Widget.antt =====
-- The widgets on the canvas of the search results: widget_manager.js, triangle_button.js,
-- partition_widget.js and time_cursor.js, of htrace-webapp/src/main/webapp/app.
--
-- A coordinate is a JavaScript number that may have a fraction. The operations on such numbers are
-- an instance argument; what a theorem needs of them is a hypothesis of it. A widget is named by a
-- number, its place in the page.
pub mod Manager
pub mod Triangle
pub mod Partition
pub mod Cursor
use incubator_htrace.Prelude.{
  ℕ, suc, Bool, true, false, ◌&&◌, ◌||◌, not, List, [], ◌∷◌, ◌++◌, Text, ◌==◌, if◌then◌else◌, ◌≡◌,
}
use incubator_htrace.Prelude.Int.{ℤ, pos}

-- What the program does with numbers: literals, comparisons, arithmetic, `Math.floor`.
pub record Number (W : Type 0) : Type 0 where
  pub of_ℤ : ℤ → W
  pub le : W → W → Bool
  pub lt : W → W → Bool
  pub add : W → W → W
  pub sub : W → W → W
  pub mul : W → W → W
  pub div : W → W → W
  pub floor : W → W

pub data EventType : Type 0 where
  mouse_down mouse_up mouse_move mouse_out dblclick draw : EventType

pub EventType-discrete : Discrete EventType
EventType-discrete = hlevel

abbrev pub same_type : EventType → EventType → Bool
same_type mouse_down mouse_down = true
same_type mouse_up mouse_up = true
same_type mouse_move mouse_move = true
same_type mouse_out mouse_out = true
same_type dblclick dblclick = true
same_type draw draw = true
same_type _ _ = false

module _ {W : Type 0} ⦃n : Number W⦄ where
  -- `Math.min` and `Math.max`
  abbrev pub min_W : W → W → W
  min_W a b = if n.lt b a then b else a

  abbrev pub max_W : W → W → W
  max_W a b = if n.lt a b then b else a

  -- `x >= x0` and so on are written the other way round.
  unfoldable pub in_bounding_box : W → W → W → W → W → W → Bool
  in_bounding_box x y x0 x_f y0 y_f = n.le x0 x && n.le x x_f && n.le y0 y && n.le y y_f

-- An event as the view passes it to the manager. Only mouse events at a point have a point, and
-- of the browser's event (`raw`) only the control key is read.
pub record Event (W : Type 0) : Type 0 where
  pub type : EventType
  pub x : W
  pub y : W
  pub ctrl_key : Bool

abbrev pub Listeners : Type 0
Listeners = EventType → List ℕ

abbrev pub no_listeners : Listeners
no_listeners t = []

abbrev pub set_listeners : Listeners → EventType → List ℕ → Listeners
set_listeners ls t ws u = if same_type u t then ws else ls u

unfoldable pub register : EventType → ℕ → Listeners → Listeners
register t w ls = set_listeners ls t (ls t ++ w ∷ [])

unfoldable pub register_high_priority : EventType → ℕ → Listeners → Listeners
register_high_priority t w ls = set_listeners ls t (w ∷ ls t)

-- `_.without` of underscore.js is a parameter.
unfoldable pub unregister : (List ℕ → ℕ → List ℕ) → EventType → ℕ → Listeners → Listeners
unregister without t w ls = set_listeners ls t (without (ls t) w)

-- What underscore.js documents of `_.without`: a copy of the list with all that equals the value
-- left out.
pub record IsWithout (without : List ℕ → ℕ → List ℕ) : Type 0 where
  pub nil : (w : ℕ) → without [] w ≡ []
  pub cons :
      (v : ℕ) (vs : List ℕ) (w : ℕ)
      → without (v ∷ vs) w ≡ (if v == w then without vs w else v ∷ without vs w)

-- The loop of `WidgetManager.handle` over a copy of the listeners: it goes on while a handler
-- returns true.
unfoldable pub handle_each {ℓ} : {S : Type ℓ} → (ℕ → S → S × Bool) → List ℕ → S → S
handle_each handler [] s = s
handle_each handler (w ∷ ws) s =
    let (s', go_on) = handler w s in
    let rest = handle_each handler ws s' in if go_on then rest else s'
