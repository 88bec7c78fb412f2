-- ===== src/Widget/Triangle/Held.antt =====
-- What one call of the handler of a button leaves of the registrations, of its own and of the others.
use incubator_htrace.Prelude.{
  ℕ, ◌≡◌, refl, sym, ◌∙◌, true, false, not, ◌&&◌, ◌||◌, List, arith, ◌==◌, Bool-cases, inl, inr,
}
use incubator_htrace.Widget.{
  Number, Event, EventType, mouse_down, mouse_up, mouse_move, mouse_out, dblclick, draw, register,
  unregister, Listeners, IsWithout,
}
use incubator_htrace.Widget.Manager.{
  contains, contains-register, contains-unregister, Frames, Frames-refl,
}
use incubator_htrace.Widget.Triangle.{Triangle, Handled, inside, handle, dispatch, press, release}
use incubator_htrace.Widget.Triangle.Session.{is_drag, listen, unlisten}

contains-listen-each :
    (v w : ℕ) (ls : Listeners) (t : EventType)
    → contains v (listen w ls t) ≡ (contains v (ls t) || (is_drag t && w == v))
contains-listen-each v w ls t = ground (
  arith,
  contains-register mouse_up t v w ls,
  contains-register mouse_move t v w (register mouse_up w ls),
  contains-register mouse_out t v w (register mouse_move w (register mouse_up w ls)),
)

contains-unlisten-each :
    (without : List ℕ → ℕ → List ℕ)
    → IsWithout without
    → (v w : ℕ) (ls : Listeners) (t : EventType)
    → contains v (unlisten without w ls t) ≡ (contains v (ls t) && not (is_drag t && v == w))
contains-unlisten-each without law v w ls t = ground (
  arith,
  contains-unregister mouse_up t v w ls without law,
  contains-unregister mouse_move t v w (unregister without mouse_up w ls) without law,
  contains-unregister mouse_out t v w
      (unregister without mouse_move w (unregister without mouse_up w ls)) without law,
)

module _ {W : Type 0} (this : ℕ) where
  -- The button listens to releases, moves and exits together, and does so while it is selected.
  abbrev pub IsHeld : Triangle W → Listeners → Type 0
  IsHeld b ls =
      (contains this (ls mouse_move) ≡ contains this (ls mouse_up))
      × (contains this (ls mouse_out) ≡ contains this (ls mouse_up))
      × (b.selected ≡ true → contains this (ls mouse_up) ≡ true)

listen-Frames : (this : ℕ) (ls : Listeners) → Frames this ls (listen this ls)
unfolding register
listen-Frames this ls = record {
  others = λ j t h. ground (arith, contains-listen-each j this ls t);
  presses = refl;
  drawings = refl;
  dblclicks = refl;
}

unlisten-Frames :
    (without : List ℕ → ℕ → List ℕ)
    → IsWithout without
    → (this : ℕ) (ls : Listeners) → Frames this ls (unlisten without this ls)
unfolding unregister
unlisten-Frames without law this ls = record {
  others = λ j t h. ground (arith, contains-unlisten-each without law j this ls t);
  presses = refl;
  drawings = refl;
  dblclicks = refl;
}

module _ {W : Type 0} ⦃n : Number W⦄ (without : List ℕ → ℕ → List ℕ) (law : IsWithout without)
    (this : ℕ) (b : Triangle W) (ls : Listeners) (before : IsHeld this b ls) where
  -- One call of the handler.
  pub record IsTurned (t : EventType) (h : Handled W) : Type 0 where
    pub frames : Frames this ls h.listeners
    pub held : IsHeld this h.button h.listeners
    pub moves : t ≡ mouse_move → h.listeners ≡ ls
    pub box : record h.button { selected = false } ≡ record b { selected = false }

  press-IsTurned : (e : Event W) → IsTurned mouse_down (press without this e b ls)
  unfolding press
  press-IsTurned e = elim (Bool-cases (inside b e)) [
    | inr miss ↦
        rw (press, miss)
          (record { frames = Frames-refl this ls; held = before; moves = λ m. refl; box = refl })
    | inl hit ↦
        rw (press, hit)
          (record {
            frames = listen-Frames this ls;
            held = (
              ground (
                arith,
                contains-listen-each this this ls mouse_move,
                contains-listen-each this this ls mouse_up,
              ),
              ground (
                arith,
                contains-listen-each this this ls mouse_out,
                contains-listen-each this this ls mouse_up,
              ),
              λ h. ground (arith, contains-listen-each this this ls mouse_up),
            );
            moves = λ m. cc;
            box = refl;
          })
  ]

  release-IsTurned : IsTurned mouse_up (release without this b ls)
  unfolding release
  release-IsTurned = record {
    frames = unlisten-Frames without law this ls;
    held = (
      ground (
        arith,
        contains-unlisten-each without law this this ls mouse_move,
        contains-unlisten-each without law this this ls mouse_up,
      ),
      ground (
        arith,
        contains-unlisten-each without law this this ls mouse_out,
        contains-unlisten-each without law this this ls mouse_up,
      ),
      λ h. elim (Bool-cases b.selected) [
        | inl on ↦ absurd (ground arith)
        | inr off ↦ absurd (ground arith)
      ],
    );
    moves = λ m. cc;
    box = ground arith;
  }

  dispatch-IsTurned :
      (t : EventType) (e : Event W)
      → (t ≡ mouse_move → contains this (ls mouse_move) ≡ true)
      → IsTurned t (dispatch without this t e b ls)
  unfolding dispatch
  dispatch-IsTurned mouse_down e on = press-IsTurned e
  dispatch-IsTurned mouse_up e on = release-IsTurned
  dispatch-IsTurned mouse_move e on = record {
    frames = Frames-refl this ls;
    held = (before.0, before.1, λ h. sym before.0 ∙ on refl);
    moves = λ m. refl;
    box = refl;
  }
  dispatch-IsTurned mouse_out e on = record {
    frames = Frames-refl this ls;
    held = (before.0, before.1, λ h. cc);
    moves = λ m. refl;
    box = refl;
  }
  dispatch-IsTurned dblclick e on = record {
    frames = Frames-refl this ls;
    held = before;
    moves = λ m. refl;
    box = refl;
  }
  dispatch-IsTurned draw e on = record {
    frames = Frames-refl this ls;
    held = before;
    moves = λ m. refl;
    box = refl;
  }

  pub handle-IsTurned :
      (e : Event W)
      → (e.type ≡ mouse_move → contains this (ls mouse_move) ≡ true)
      → IsTurned e.type (handle without this e b ls)
  unfolding handle
  handle-IsTurned e on = dispatch-IsTurned e.type e on
