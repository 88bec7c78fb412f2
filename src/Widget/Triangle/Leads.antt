-- ===== src/Widget/Triangle/Leads.antt =====
-- What one event leads to for a triangle button, through the loop of the manager over its listeners.
use incubator_htrace.Prelude.{ℕ, ◌≡◌, sym, subst, ◌∙◌, Bool, true, false, List, inl, inr}
use incubator_htrace.Widget.{
  Number, EventType, mouse_down, mouse_up, mouse_move, mouse_out, Event, Listeners, IsWithout,
}
use incubator_htrace.Widget.Manager.{contains}
use incubator_htrace.Widget.Triangle.{inside}
use incubator_htrace.Widget.Triangle.Session.{Session, deliver}
use incubator_htrace.Widget.Triangle.Loop.{Seen, Passes, Has, event, each_keeps, each_turns}
use incubator_htrace.Widget.Triangle.Turns.{
  miss_turn, hit_seen, hit_turn, selected_seen, move_turn, out_turn, release_seen, release_turn,
  release_turn_again,
}

module _ {W S : Type 0} ⦃n : Number W⦄ (without : List ℕ → ℕ → List ℕ) (this : ℕ)
    (other : ℕ → Event W → S → Listeners → S × Listeners × Bool) (IsIdle : S → Type 0)
    (attends : ℕ → EventType → Bool) where
  -- What is so before an event of a type is so after it.
  abbrev pub Leads : Seen W → Seen W → Event W → Type 0
  Leads x y e =
      Passes without this other IsIdle attends e
      → (s : Session W S) → Has without this other IsIdle attends x s
      → Has without this other IsIdle attends y (deliver without this other e s)

  pub typed_Leads :
      (x y : Seen W) (t : EventType) (e : Event W)
      → e.type ≡ t
      → Leads x y (event t e)
      → Leads x y e
  typed_Leads x y t e q = subst (Leads x y) (λ i. record e { type = sym q i })

  -- The button does not listen.
  pub skip_Leads : (x : Seen W) (e : Event W) → x.listens e.type ≡ false → Leads x x e
  unfolding deliver
  skip_Leads x e off passes s (b, c, l, idle) =
      let deaf : contains this (s.listeners e.type) ≡ false = l e.type ∙ off in
      each_keeps without this other IsIdle attends x e passes (s.listeners e.type)
        (λ v d h. idle.1 v _ d h) (λ on. cc) s (b, c, l, idle)

  pub miss_Leads :
      (x : Seen W) (e : Event W) → inside x.button e ≡ false → Leads x x (event mouse_down e)
  unfolding deliver
  miss_Leads x e miss passes s (b, c, l, idle) =
      each_keeps without this other IsIdle attends x (event mouse_down e) passes
        (s.listeners mouse_down) (λ v d h. idle.1 v _ d h)
        (λ _. miss_turn without this other IsIdle attends x e miss) s (b, c, l, idle)

  pub hit_Leads :
      (x : Seen W) (e : Event W)
      → inside x.button e ≡ true
      → x.listens mouse_down ≡ true
      → Leads x (hit_seen without this other IsIdle attends x) (event mouse_down e)
  unfolding deliver
  hit_Leads x e hit on passes s (b, c, l, idle) =
      each_turns without this other IsIdle attends x (hit_seen without this other IsIdle attends x)
        (event mouse_down e) passes (s.listeners mouse_down) (λ v d h. idle.1 v _ d h)
        (l mouse_down ∙ on) (λ t k. (hit_turn without this other IsIdle attends x e hit t k).0)
        (inl (λ t k. (hit_turn without this other IsIdle attends x e hit t k).1)) s (b, c, l, idle)

  pub move_Leads :
      (x : Seen W) (e : Event W) (was : Bool)
      → x.listens mouse_move ≡ true
      → Leads
          (selected_seen without this other IsIdle attends x was)
          (selected_seen without this other IsIdle attends x (inside x.button e))
          (event mouse_move e)
  unfolding deliver
  move_Leads x e was on passes s (b, c, l, idle) =
      let now = inside x.button e in
      each_turns without this other IsIdle attends
        (selected_seen without this other IsIdle attends x was)
        (selected_seen without this other IsIdle attends x now) (event mouse_move e) passes
        (s.listeners mouse_move) (λ v d h. idle.1 v _ d h) (l mouse_move ∙ on)
        (λ t k. (move_turn without this other IsIdle attends x e was t k).0)
        (inr (
          λ t k. (move_turn without this other IsIdle attends x e was t k).1,
          move_turn without this other IsIdle attends x e now,
        ))
        s (b, c, l, idle)

  pub out_Leads :
      (x : Seen W) (e : Event W) (was : Bool)
      → x.listens mouse_out ≡ true
      → Leads
          (selected_seen without this other IsIdle attends x was)
          (selected_seen without this other IsIdle attends x false)
          (event mouse_out e)
  unfolding deliver
  out_Leads x e was on passes s (b, c, l, idle) =
      each_turns without this other IsIdle attends
        (selected_seen without this other IsIdle attends x was)
        (selected_seen without this other IsIdle attends x false) (event mouse_out e) passes
        (s.listeners mouse_out) (λ v d h. idle.1 v _ d h) (l mouse_out ∙ on)
        (λ t k. (out_turn without this other IsIdle attends x e was t k).0)
        (inr (
          λ t k. (out_turn without this other IsIdle attends x e was t k).1,
          out_turn without this other IsIdle attends x e false,
        ))
        s (b, c, l, idle)

  pub release_Leads :
      IsWithout without
      → (x : Seen W) (e : Event W) → x.listens mouse_up ≡ true
      → Leads x (release_seen without this other IsIdle attends x) (event mouse_up e)
  unfolding deliver
  release_Leads law x e on passes s (b, c, l, idle) =
      each_turns without this other IsIdle attends x
        (release_seen without this other IsIdle attends x) (event mouse_up e) passes
        (s.listeners mouse_up) (λ v d h. idle.1 v _ d h) (l mouse_up ∙ on)
        (λ t k. (release_turn without this other IsIdle attends law x e t k).0)
        (inr (
          λ t k. (release_turn without this other IsIdle attends law x e t k).1,
          release_turn_again without this other IsIdle attends law x e,
        ))
        s (b, c, l, idle)
