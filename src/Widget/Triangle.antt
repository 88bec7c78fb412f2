-- ===== src/Widget/Triangle.antt =====
-- The triangle buttons of triangle_button.js, which ask for the parents or the children of a span.
pub mod Session
pub mod Loop
pub mod Turns
pub mod Leads
pub mod Click
pub mod Held
use incubator_htrace.Prelude.{ℕ, suc, Bool, true, false, ◌&&◌, not, List, ◌∷◌, if◌then◌else◌}
use incubator_htrace.Widget.{
  Number, EventType, mouse_down, mouse_up, mouse_move, mouse_out, dblclick, draw, in_bounding_box,
  Event, Listeners, register, unregister, handle_each,
}

pub data Direction : Type 0 where
  up down : Direction

pub record Triangle (W : Type 0) : Type 0 where
  pub x0 : W
  pub x_f : W
  pub y0 : W
  pub y_f : W
  pub direction : Direction
  pub selected : Bool

-- What one call of `handle` leaves: the button, the manager's listeners, whether the callback was
-- called, and whether the manager is to go on to the next listener.
pub record Handled (W : Type 0) : Type 0 where
  pub button : Triangle W
  pub listeners : Listeners
  pub called : Bool
  pub go_on : Bool

module _ {W : Type 0} ⦃n : Number W⦄ where
  abbrev pub inside : Triangle W → Event W → Bool
  inside b e = in_bounding_box e.x e.y b.x0 b.x_f b.y0 b.y_f

module _ {W : Type 0} ⦃n : Number W⦄ (without : List ℕ → ℕ → List ℕ) (this : ℕ) where
  press : Event W → Triangle W → Listeners → Handled W
  press e b ls =
      if not (inside b e)
      then record { button = b; listeners = ls; called = false; go_on = true }
      else record {
        button = record b { selected = true };
        listeners = register mouse_out this (register mouse_move this (register mouse_up this ls));
        called = false;
        go_on = false;
      }

  release : Triangle W → Listeners → Handled W
  release b ls = record {
    button = if b.selected then record b { selected = false } else b;
    listeners =
        unregister without mouse_out this
          (unregister without mouse_move this (unregister without mouse_up this ls));
    called = b.selected;
    go_on = true;
  }

  -- The `switch` of `handle`. `dblclick` has no case, so the result is undefined, which is falsy.
  dispatch : EventType → Event W → Triangle W → Listeners → Handled W
  unfolding press release
  dispatch mouse_down e b ls = press e b ls
  dispatch mouse_up e b ls = release b ls
  dispatch mouse_move e b ls = record {
    button = record b { selected = inside b e };
    listeners = ls;
    called = false;
    go_on = true;
  }
  dispatch mouse_out e b ls = record {
    button = record b { selected = false };
    listeners = ls;
    called = false;
    go_on = true;
  }
  dispatch draw e b ls = record { button = b; listeners = ls; called = false; go_on = true }
  dispatch dblclick e b ls = record { button = b; listeners = ls; called = false; go_on = false }

  unfoldable pub handle : Event W → Triangle W → Listeners → Handled W
  unfolding dispatch
  handle e b ls = dispatch e.type e b ls
