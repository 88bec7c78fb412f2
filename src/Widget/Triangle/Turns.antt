-- ===== src/Widget/Triangle/Turns.antt =====
-- The turn of a triangle button in the loop of the manager, for each type of event.
use incubator_htrace.Prelude.{
  ℕ, suc, ◌≡◌, refl, ap, sym, ◌∙◌, Bool, true, false, not, ◌&&◌, ◌||◌, List, arith, if◌then◌else◌,
  Bool-cases, inl, inr,
}
use incubator_htrace.Widget.{
  Number, EventType, mouse_down, mouse_up, mouse_move, mouse_out, Event, Listeners, IsWithout,
}
use incubator_htrace.Widget.Triangle.{Triangle, inside, handle, dispatch, press, release}
use incubator_htrace.Widget.Triangle.Session.{
  ==_refl, is_drag, contains-listen, contains-unlisten, others-listen, others-unlisten, Session,
  turn,
}
use incubator_htrace.Widget.Triangle.Loop.{Seen, Has, event}

module _ {W S : Type 0} ⦃n : Number W⦄ (without : List ℕ → ℕ → List ℕ) (this : ℕ)
    (other : ℕ → Event W → S → Listeners → S × Listeners × Bool) (IsIdle : S → Type 0)
    (attends : ℕ → EventType → Bool) where
  pub miss_turn :
      (x : Seen W) (e : Event W)
      → inside x.button e ≡ false
      → (s : Session W S) → Has without this other IsIdle attends x s
      → Has without this other IsIdle attends x
          (turn without this other (event mouse_down e) this s).0
        × ((turn without this other (event mouse_down e) this s).1 ≡ true)
  unfolding handle dispatch press
  miss_turn x e miss s (b, c, l, i) =
      let missed : inside s.button e ≡ false = ap (λ v. inside v e) b ∙ miss in
      rw (==_refl this, missed) ((b, c, l, i), refl)

  abbrev pub hit_seen : Seen W → Seen W
  hit_seen x = record x {
    button = record x.button { selected = true };
    listens = λ t. x.listens t || is_drag t;
  }

  pub hit_turn :
      (x : Seen W) (e : Event W)
      → inside x.button e ≡ true
      → (s : Session W S) → Has without this other IsIdle attends x s
      → Has without this other IsIdle attends
          (hit_seen x)
          (turn without this other (event mouse_down e) this s).0
        × ((turn without this other (event mouse_down e) this s).1 ≡ false)
  unfolding handle dispatch press
  hit_turn x e hit s (b, c, l, i) =
      let was_hit : inside s.button e ≡ true = ap (λ v. inside v e) b ∙ hit in
      rw (==_refl this, was_hit)
        (
          (
            ap (λ (v : Triangle W). record v { selected = true }) b,
            c,
            (λ t. contains-listen this s.listeners t ∙ ap (λ v. v || is_drag t) (l t)),
            (i.0, λ v t d h. i.1 v t d (sym (others-listen v this s.listeners t d) ∙ h)),
          ),
          refl,
        )

  abbrev pub selected_seen : Seen W → Bool → Seen W
  selected_seen x value = record x { button = record x.button { selected = value } }

  pub move_turn :
      (x : Seen W) (e : Event W) (was : Bool)
      → (s : Session W S) → Has without this other IsIdle attends (selected_seen x was) s
      → Has without this other IsIdle attends
          (selected_seen x (inside x.button e))
          (turn without this other (event mouse_move e) this s).0
        × ((turn without this other (event mouse_move e) this s).1 ≡ true)
  unfolding handle dispatch
  move_turn x e was s (b, c, l, i) =
      rw (==_refl this)
        ((ap (λ (v : Triangle W). record v { selected = inside v e }) b, c, l, i), refl)

  pub out_turn :
      (x : Seen W) (e : Event W) (was : Bool)
      → (s : Session W S) → Has without this other IsIdle attends (selected_seen x was) s
      → Has without this other IsIdle attends
          (selected_seen x false)
          (turn without this other (event mouse_out e) this s).0
        × ((turn without this other (event mouse_out e) this s).1 ≡ true)
  unfolding handle dispatch
  out_turn x e was s (b, c, l, i) =
      rw (==_refl this) ((ap (λ (v : Triangle W). record v { selected = false }) b, c, l, i), refl)

  abbrev pub release_seen : Seen W → Seen W
  release_seen x = record {
    button = record x.button { selected = false };
    calls = if x.button.selected then suc x.calls else x.calls;
    listens = λ t. x.listens t && not (is_drag t);
  }

  free_button :
      (b : Triangle W)
      → (if b.selected then record b { selected = false } else b) ≡ record b { selected = false }
  free_button b = elim (Bool-cases b.selected) [ inl on ↦ rw on refl | inr off ↦ rw off refl ]

  pub release_turn :
      IsWithout without
      → (x : Seen W) (e : Event W) → (s : Session W S) → Has without this other IsIdle attends x s
      → Has without this other IsIdle attends
          (release_seen x)
          (turn without this other (event mouse_up e) this s).0
        × ((turn without this other (event mouse_up e) this s).1 ≡ true)
  unfolding handle dispatch release
  release_turn law x e s (b, c, l, i) = rw (==_refl this) (
    (
      free_button s.button ∙ ap (λ (v : Triangle W). record v { selected = false }) b,
      (λ j. if (b j).selected then suc (c j) else c j),
      (λ t.
          contains-unlisten without law this s.listeners t ∙ ap (λ v. v && not (is_drag t)) (l t)),
      (i.0, λ v t d h. i.1 v t d (sym (others-unlisten without law v this s.listeners t d) ∙ h)),
    ),
    refl,
  )

  -- A second turn finds nothing to do.
  released_again :
      (x : Seen W) (s : Session W S)
      → Has without this other IsIdle attends (release_seen (release_seen x)) s
      → Has without this other IsIdle attends (release_seen x) s
  released_again x s (b, c, l, i) = (b, c, (λ t. l t ∙ ground arith), i)

  pub release_turn_again :
      IsWithout without
      → (x : Seen W) (e : Event W) → (s : Session W S)
      → Has without this other IsIdle attends (release_seen x) s
      → Has without this other IsIdle attends
          (release_seen x)
          (turn without this other (event mouse_up e) this s).0
        × ((turn without this other (event mouse_up e) this s).1 ≡ true)
  release_turn_again law x e s h =
      let (k, goes_on) = release_turn law (release_seen x) e s h in
      (released_again x (turn without this other (event mouse_up e) this s).0 k, goes_on)
