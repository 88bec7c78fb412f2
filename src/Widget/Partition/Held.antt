-- ===== src/Widget/Partition/Held.antt =====
-- What one call of the handler of the partition leaves of the registrations.
use incubator_htrace.Prelude.{
  ℕ, ◌≡◌, refl, Bool, false, not, ◌&&◌, ◌||◌, List, arith, ◌==◌, Bool-cases, inl, inr,
}
use incubator_htrace.Widget.{
  Number, Event, EventType, mouse_down, mouse_up, mouse_move, mouse_out, dblclick, draw,
  in_bounding_box, register_high_priority, unregister, Listeners, IsWithout, same_type,
}
use incubator_htrace.Widget.Manager.{
  contains, contains-register_high_priority, contains-unregister, Frames, Frames-refl,
}
use incubator_htrace.Widget.Partition.{Partition, Page, handle_partition, let_go, switch}

-- What a drag does not change.
abbrev pub fixed_part : {W : Type 0} → Partition W → Partition W
fixed_part b = record b { x0 = b.x_min; x_f = b.x_min; selected = false }

module _ {W : Type 0} (this : ℕ) where
  -- The partition is selected exactly while it listens to releases, and to moves with them.
  abbrev pub IsDragged : Partition W → Listeners → Type 0
  IsDragged b ls =
      (contains this (ls mouse_move) ≡ contains this (ls mouse_up))
      × (b.selected ≡ contains this (ls mouse_up))

abbrev is_grab : EventType → Bool
is_grab t = same_type t mouse_up || same_type t mouse_move

abbrev listen : ℕ → Listeners → Listeners
listen w ls = register_high_priority mouse_move w (register_high_priority mouse_up w ls)

abbrev unlisten : (List ℕ → ℕ → List ℕ) → ℕ → Listeners → Listeners
unlisten without w ls = unregister without mouse_move w (unregister without mouse_up w ls)

contains-listen :
    (v w : ℕ) (ls : Listeners) (t : EventType)
    → contains v (listen w ls t) ≡ (contains v (ls t) || (is_grab t && w == v))
contains-listen v w ls t = ground (
  arith,
  contains-register_high_priority mouse_up t v w ls,
  contains-register_high_priority mouse_move t v w (register_high_priority mouse_up w ls),
)

contains-unlisten :
    (without : List ℕ → ℕ → List ℕ)
    → IsWithout without
    → (v w : ℕ) (ls : Listeners) (t : EventType)
    → contains v (unlisten without w ls t) ≡ (contains v (ls t) && not (is_grab t && v == w))
contains-unlisten without law v w ls t = ground (
  arith,
  contains-unregister mouse_up t v w ls without law,
  contains-unregister mouse_move t v w (unregister without mouse_up w ls) without law,
)

module _ {W : Type 0} ⦃n : Number W⦄ (without : List ℕ → ℕ → List ℕ) (law : IsWithout without)
    (this : ℕ) (p : Page W) (before : IsDragged this p.partition p.listeners) where
  pub record IsSwitched (t : EventType) (p' : Page W) : Type 0 where
    pub frames : Frames this p.listeners p'.listeners
    pub held : IsDragged this p'.partition p'.listeners
    pub moves : t ≡ mouse_move → p'.listeners ≡ p.listeners
    pub bounds : fixed_part p'.partition ≡ fixed_part p.partition

  unchanged : (t : EventType) → IsSwitched t p
  unchanged t = record {
    frames = Frames-refl this p.listeners;
    held = before;
    moves = λ m. refl;
    bounds = refl;
  }

  grab-IsSwitched : (e : Event W) → IsSwitched mouse_down (switch without this mouse_down e p).0
  unfolding register_high_priority
  grab-IsSwitched e =
      let b = p.partition in
      elim (Bool-cases (in_bounding_box e.x e.y b.x0 b.x_f b.y0 b.y_f)) [
        | inr miss ↦ rw miss (unchanged mouse_down)
        | inl hit ↦ rw hit (record {
          frames = record {
            others = λ j t h. ground (arith, contains-listen j this p.listeners t);
            presses = refl;
            drawings = refl;
            dblclicks = refl;
          };
          held = (
            ground (
              arith,
              contains-listen this this p.listeners mouse_move,
              contains-listen this this p.listeners mouse_up,
            ),
            ground (arith, contains-listen this this p.listeners mouse_up),
          );
          moves = λ m. cc;
          bounds = refl;
        })
      ]

  let_go-IsSwitched : IsSwitched mouse_up (let_go without this p)
  unfolding unregister
  let_go-IsSwitched = record {
    frames = record {
      others = λ j t h. ground (arith, contains-unlisten without law j this p.listeners t);
      presses = refl;
      drawings = refl;
      dblclicks = refl;
    };
    held = (
      ground (
        arith,
        contains-unlisten without law this this p.listeners mouse_move,
        contains-unlisten without law this this p.listeners mouse_up,
      ),
      ground (arith, contains-unlisten without law this this p.listeners mouse_up),
    );
    moves = λ m. cc;
    bounds = refl;
  }

  switch-IsSwitched : (t : EventType) (e : Event W) → IsSwitched t (switch without this t e p).0
  switch-IsSwitched mouse_down e = grab-IsSwitched e
  switch-IsSwitched mouse_up e = let_go-IsSwitched
  switch-IsSwitched mouse_move e = record {
    frames = Frames-refl this p.listeners;
    held = before;
    moves = λ m. refl;
    bounds = refl;
  }
  switch-IsSwitched mouse_out e = unchanged mouse_out
  switch-IsSwitched dblclick e = unchanged dblclick
  switch-IsSwitched draw e = unchanged draw

  pub handle_partition-IsSwitched :
      (e : Event W) → IsSwitched e.type (handle_partition without this e p).0
  unfolding handle_partition
  handle_partition-IsSwitched e = switch-IsSwitched e.type e
