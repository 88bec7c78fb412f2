-- ===== src/Widget/Triangle/Loop.antt =====
-- The loop of the manager over its listeners, for one triangle button among other widgets: what the
-- turns of the button and of the others keep.
use incubator_htrace.Prelude.{
  ℕ, ◌≡◌, ◌≢◌, sym, subst, ◌∙◌, ◌⊎◌, Bool, true, false, List, [], ◌∷◌, arith, ◌==◌, if◌then◌else◌,
  ==_iff, Bool-cases, inl, inr,
}
use incubator_htrace.Widget.{Number, EventType, Event, Listeners, handle_each}
use incubator_htrace.Widget.Manager.{contains}
use incubator_htrace.Widget.Triangle.{Triangle}
use incubator_htrace.Widget.Triangle.Session.{Session, turn}

-- What is of interest: the button, the number of calls, and what the button listens to.
pub record Seen (W : Type 0) : Type 0 where
  pub button : Triangle W
  pub calls : ℕ
  pub listens : EventType → Bool

module _ {W : Type 0} where
  abbrev pub event : EventType → Event W → Event W
  event t e = record e { type = t }

module _ {W S : Type 0} ⦃n : Number W⦄ (without : List ℕ → ℕ → List ℕ) (this : ℕ)
    (other : ℕ → Event W → S → Listeners → S × Listeners × Bool) where
  -- The states in which the other widgets are idle, and what they listen to then.
  module _ (IsIdle : S → Type 0) (attends : ℕ → EventType → Bool) where
    -- Every other widget that listens to the event while they are idle lets it through, leaves the
    -- registrations, and they stay idle.
    abbrev pub Passes : Event W → Type 0
    Passes e =
        (w : ℕ) (o : S) (ls : Listeners)
        → IsIdle o
        → w ≢ this
        → attends w e.type ≡ true
        → IsIdle (other w e o ls).0
          × ((v : ℕ) (t : EventType) → contains v ((other w e o ls).1 t) ≡ contains v (ls t))
          × ((other w e o ls).2 ≡ true)

    -- The other widgets are idle, and listen to no more than they do then.
    abbrev pub AreIdle : Session W S → Type 0
    AreIdle s =
        IsIdle s.others
        × ((w : ℕ) (t : EventType)
            → w ≢ this
            → contains w (s.listeners t) ≡ true
            → attends w t ≡ true)

    abbrev pub Has : Seen W → Session W S → Type 0
    Has x s =
        (s.button ≡ x.button)
        × (s.calls ≡ x.calls)
        × ((t : EventType) → contains this (s.listeners t) ≡ x.listens t)
        × AreIdle s

    -- Another widget.
    other_Has :
        (x : Seen W) (e : Event W)
        → Passes e
        → (w : ℕ) → (w == this) ≡ false
        → attends w e.type ≡ true
        → (s : Session W S) → Has x s
        → Has x (turn without this other e w s).0 × ((turn without this other e w s).1 ≡ true)
    other_Has x e passes w differs attended s (b, c, l, (i, a)) =
        let (stays, same, goes_on) = passes w s.others s.listeners i (λ q. ground arith) attended in
        rw differs (
          (b, c, (λ t. same this t ∙ l t), (stays, λ v t d h. a v t d (sym (same v t) ∙ h))),
          goes_on,
        )

    -- The listeners that the manager goes through.
    abbrev pub Attending : Event W → List ℕ → Type 0
    Attending e ws = (w : ℕ) → w ≢ this → contains w ws ≡ true → attends w e.type ≡ true

    -- The loop from a widget on.
    abbrev rest_of : Event W → List ℕ → Session W S × Bool → Session W S
    rest_of e ws (s, go_on) = if go_on then handle_each (turn without this other e) ws s else s

    -- The listeners that the manager goes through, where the turn of the button keeps what is so, or
    -- is not among them.
    pub each_keeps :
        (x : Seen W) (e : Event W)
        → Passes e
        → (ws : List ℕ) → Attending e ws
        → (contains this ws ≡ true
            → (s : Session W S) → Has x s
            → Has x (turn without this other e this s).0
              × ((turn without this other e this s).1 ≡ true))
        → (s : Session W S) → Has x s
        → Has x (handle_each (turn without this other e) ws s)
    unfolding handle_each
    each_keeps x e passes [] at own s h = h
    each_keeps x e passes (w ∷ ws) at own s h =
        let later =
          each_keeps x e passes ws (λ v d h. at v d (ground arith)) (λ c. own (ground arith)) in
        elim (Bool-cases (w == this)) [
          | inl same ↦
              let (k, goes_on) = own (ground arith) s h in
              let place : this ≡ w = sym ((==_iff w this).0 same) in
              subst (λ v. Has x (rest_of e ws (turn without this other e v s))) place
                (rw goes_on (later (turn without this other e this s).0 k))
          | inr differs ↦
              let (k, goes_on) =
                other_Has x e passes w differs (at w (λ q. ground arith) (ground arith)) s h in
              subst (λ (g : Bool). Has x (rest_of e ws ((turn without this other e w s).0, g)))
                (sym goes_on) (later (turn without this other e w s).0 k)
        ]

    -- The same, where the first turn of the button changes what is so, and either ends the loop or
    -- leaves what the turns after it keep.
    pub each_turns :
        (x y : Seen W) (e : Event W)
        → Passes e
        → (ws : List ℕ) → Attending e ws
        → contains this ws ≡ true
        → ((s : Session W S) → Has x s → Has y (turn without this other e this s).0)
        → (((s : Session W S) → Has x s → (turn without this other e this s).1 ≡ false)
            ⊎ (((s : Session W S) → Has x s → (turn without this other e this s).1 ≡ true)
                × ((s : Session W S)
                    → Has y s
                    → Has y (turn without this other e this s).0
                      × ((turn without this other e this s).1 ≡ true))))
        → (s : Session W S) → Has x s
        → Has y (handle_each (turn without this other e) ws s)
    unfolding handle_each
    each_turns x y e passes [] at c own goes s h = cc
    each_turns x y e passes (w ∷ ws) at c own goes s h = elim (Bool-cases (w == this)) [
      | inl same ↦
          let place : this ≡ w = sym ((==_iff w this).0 same) in
          subst (λ v. Has y (rest_of e ws (turn without this other e v s))) place
            (elim goes [
              | inl stops ↦ rw (stops s h) (own s h)
              | inr (goes_on, again) ↦ rw (goes_on s h) (
                  each_keeps y e passes ws (λ v d h. at v d (ground arith)) (λ _. again)
                    (turn without this other e this s).0 (own s h))
            ])
      | inr differs ↦
          let (k, goes_on) =
            other_Has x e passes w differs (at w (λ q. ground arith) (ground arith)) s h in
          subst (λ (g : Bool). Has y (rest_of e ws ((turn without this other e w s).0, g)))
            (sym goes_on)
            (each_turns x y e passes ws (λ v d h. at v d (ground arith)) (ground arith) own goes
              (turn without this other e w s).0 k)
    ]
