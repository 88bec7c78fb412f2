-- ===== src/Widget/Triangle/Session.antt =====
-- One triangle button under the widget manager, among other widgets: what it registers for, and the
-- events that the manager hands on.
use incubator_htrace.Prelude.{
  ℕ, suc, ◌≡◌, ◌≢◌, Bool, true, false, not, ◌&&◌, ◌||◌, List, [], ◌∷◌, arith, ◌==◌, if◌then◌else◌,
}
use incubator_htrace.Widget.{
  Number, EventType, mouse_down, mouse_up, mouse_move, mouse_out, same_type, Event, Listeners,
  register, unregister, IsWithout, handle_each,
}
use incubator_htrace.Widget.Manager.{contains, contains-register, contains-unregister}
use incubator_htrace.Widget.Triangle.{Triangle, handle}

abbrev pub listen : ℕ → Listeners → Listeners
listen w ls = register mouse_out w (register mouse_move w (register mouse_up w ls))

abbrev pub unlisten : (List ℕ → ℕ → List ℕ) → ℕ → Listeners → Listeners
unlisten without w ls =
    unregister without mouse_out w
      (unregister without mouse_move w (unregister without mouse_up w ls))

-- The events that a pressed button listens to.
abbrev pub is_drag : EventType → Bool
is_drag t = same_type t mouse_up || same_type t mouse_move || same_type t mouse_out

pub ==_refl : (a : ℕ) → (a == a) ≡ true
==_refl a = ground arith

pub contains-listen :
    (w : ℕ) (ls : Listeners) (t : EventType)
    → contains w (listen w ls t) ≡ (contains w (ls t) || is_drag t)
contains-listen w ls t = ground (
  arith,
  contains-register mouse_up t w w ls,
  contains-register mouse_move t w w (register mouse_up w ls),
  contains-register mouse_out t w w (register mouse_move w (register mouse_up w ls)),
)

pub contains-unlisten :
    (without : List ℕ → ℕ → List ℕ)
    → IsWithout without
    → (w : ℕ) (ls : Listeners) (t : EventType)
    → contains w (unlisten without w ls t) ≡ (contains w (ls t) && not (is_drag t))
contains-unlisten without law w ls t = ground (
  arith,
  contains-unregister mouse_up t w w ls without law,
  contains-unregister mouse_move t w w (unregister without mouse_up w ls) without law,
  contains-unregister mouse_out t w w
      (unregister without mouse_move w (unregister without mouse_up w ls)) without law,
)

-- The registrations of the other widgets.
pub others-listen :
    (v w : ℕ) (ls : Listeners) (t : EventType)
    → v ≢ w
    → contains v (listen w ls t) ≡ contains v (ls t)
others-listen v w ls t d = ground (
  arith,
  contains-register mouse_up t v w ls,
  contains-register mouse_move t v w (register mouse_up w ls),
  contains-register mouse_out t v w (register mouse_move w (register mouse_up w ls)),
)

pub others-unlisten :
    (without : List ℕ → ℕ → List ℕ)
    → IsWithout without
    → (v w : ℕ) (ls : Listeners) (t : EventType) → v ≢ w
    → contains v (unlisten without w ls t) ≡ contains v (ls t)
others-unlisten without law v w ls t d =
    let other : (v == w) ≡ false = ground arith in
    let up = unregister without mouse_up w ls in
    rw
      (
        contains-unregister mouse_out t v w (unregister without mouse_move w up) without law,
        contains-unregister mouse_move t v w up without law,
        contains-unregister mouse_up t v w ls without law,
        other,
      )
      (ground arith)

-- One button, what the other widgets keep, and the manager: the number of times that the callback was
-- called stands beside.
pub record Session (W S : Type 0) : Type 0 where
  pub button : Triangle W
  pub listeners : Listeners
  pub calls : ℕ
  pub others : S

module _ {W S : Type 0} ⦃n : Number W⦄ (without : List ℕ → ℕ → List ℕ) (this : ℕ)
    (other : ℕ → Event W → S → Listeners → S × Listeners × Bool) where
  -- The manager, with any other widgets: what each of them makes of their state and of the
  -- listeners, and whether the manager is to go on.
  abbrev pub turn : Event W → ℕ → Session W S → Session W S × Bool
  turn e w s =
      if w == this
      then (let h = handle without this e s.button s.listeners in
          (
            record {
              button = h.button;
              listeners = h.listeners;
              calls = if h.called then suc s.calls else s.calls;
              others = s.others;
            },
            h.go_on,
          ))
      else (let (others, ls, go_on) = other w e s.others s.listeners in
          (record s { listeners = ls; others = others }, go_on))

  -- `WidgetManager.handle`
  unfoldable pub deliver : Event W → Session W S → Session W S
  deliver e s = handle_each (turn e) (s.listeners e.type) s

  unfoldable pub deliver_all : List (Event W) → Session W S → Session W S
  deliver_all [] s = s
  deliver_all (e ∷ es) s = deliver_all es (deliver e s)

  -- Between two events: the button listens to releases, moves and exits together; it always listens
  -- to presses.
  pub record IsValid (s : Session W S) : Type 0 where
    pub listens_down : contains this (s.listeners mouse_down) ≡ true
    pub move_as_up : contains this (s.listeners mouse_move) ≡ contains this (s.listeners mouse_up)
    pub out_as_up : contains this (s.listeners mouse_out) ≡ contains this (s.listeners mouse_up)
