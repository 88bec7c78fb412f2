-- ===== src/Stage/Working.antt =====
-- What no event changes of the page, until it is rendered anew.
use incubator_htrace.Prelude.{
  ℕ, zero, suc, ◌≡◌, refl, sym, ap, subst, ◌∙◌, Bool, true, false, some, List, [], ◌∷◌, arith,
  if◌then◌else◌, ◌==◌, ==_iff, Bool-cases, Option-cases, inl, inr, map, All, some_inj,
}
use incubator_htrace.Widget.{
  Number, Event, EventType, mouse_down, mouse_move, mouse_up, mouse_out, dblclick, draw, Listeners,
  IsWithout, handle_each,
}
use incubator_htrace.Widget.Manager.{contains}
use incubator_htrace.Results.Spans.{Families}
use incubator_htrace.Canvas.Page.{Widget, group, row, button, partition, cursor}
use incubator_htrace.Stage.{Stage, at, put, handle_widget, handle_next}
use incubator_htrace.Stage.Step.{place, Fits, IsStep, turn_widget-IsStep}

module _ {A : Type 0} where
  at-put :
      (xs : List A) (k j : ℕ) (x y : A)
      → at xs k ≡ some x
      → at (put xs k y) j ≡ (if j == k then some y else at xs j)
  at-put [] k j x y h = cc
  at-put (z ∷ xs) zero zero x y h = refl
  at-put (z ∷ xs) zero (suc j) x y h =
      let other : (suc j == zero) ≡ false = ground arith in rw other
  at-put (z ∷ xs) (suc k) zero x y h =
      let other : (zero == suc k) ≡ false = ground arith in rw other
  at-put (z ∷ xs) (suc k) (suc j) x y h =
      let same : (suc j == suc k) ≡ (j == k) = ground arith in
      at-put xs k j x y h ∙ ap (λ b. if b then some y else at xs j) (sym same)

map-put :
    {A B : Type 0}
    → (f : A → B) (xs : List A) (k : ℕ) (x y : A) → at xs k ≡ some x
    → f y ≡ f x
    → map f (put xs k y) ≡ map f xs
map-put f [] k x y h e = refl
map-put f (z ∷ xs) zero x y h e = ap (λ v. v ∷ map f xs) (e ∙ ap f (sym (some_inj h)))
map-put f (z ∷ xs) (suc k) x y h e = ap (λ l. f z ∷ l) (map-put f xs k x y h e)

-- A widget that fits registrations fits others that say the same of it.
Fits-same :
    {W : Type 0}
    → (k : ℕ) (w : Widget W) (ls ls' : Listeners)
    → ((t : EventType) → contains k (ls' t) ≡ contains k (ls t))
    → Fits k w ls
    → Fits k w ls'
Fits-same k (group b) ls ls' same h = same mouse_up ∙ h
Fits-same k (row w span) ls ls' same h = same mouse_up ∙ h
Fits-same k (button b span) ls ls' same h = (
  same mouse_move ∙ h.0 ∙ sym (same mouse_up),
  same mouse_out ∙ h.1 ∙ sym (same mouse_up),
  λ on. same mouse_up ∙ h.2 on,
)
Fits-same k (partition b) ls ls' same h =
    (same mouse_move ∙ h.0 ∙ sym (same mouse_up), h.1 ∙ sym (same mouse_up))
Fits-same k (cursor c) ls ls' same h = (same mouse_move ∙ h.0, same mouse_up ∙ h.1)

module _ {W : Type 0} (fuel : ℕ) (search_results : List ℕ) (start : Stage W) where
  -- Since the start, the widgets are the same, in their places; who listens to presses, double
  -- clicks and drawing is the same; and the registrations for the events of a drag fit each widget.
  pub record IsWorking (s : Stage W) : Type 0 where
    pub places : map place s.widgets ≡ map place start.widgets
    pub presses : s.desk.listeners mouse_down ≡ start.desk.listeners mouse_down
    pub drawings : s.desk.listeners draw ≡ start.desk.listeners draw
    pub dblclicks : s.desk.listeners dblclick ≡ start.desk.listeners dblclick
    pub fits : (k : ℕ) (w : Widget W) → at s.widgets k ≡ some w → Fits k w s.desk.listeners
    pub families : Families s.desk.spans.models fuel search_results

module _ {W : Type 0} ⦃n : Number W⦄ (without : List ℕ → ℕ → List ℕ) (law : IsWithout without)
    (fuel : ℕ) (search_results : List ℕ) (start : Stage W) (e : Event W) where
  abbrev Working : Stage W → Type 0
  Working s = IsWorking fuel search_results start s

  -- Who was to be told of a move of the mouse, is registered for it.
  abbrev Told : Stage W → List ℕ → Type 0
  Told s ks = e.type ≡ mouse_move → All (λ k. contains k (s.desk.listeners mouse_move) ≡ true) ks

  -- The widget at one place after the call of a handler, with the other widgets as they were.
  put-Fits :
      (k : ℕ) (w : Widget W) (s : Stage W)
      → at s.widgets k ≡ some w
      → Working s
      → (h : IsStep without law fuel search_results e k w s.desk) → (j : ℕ) (v : Widget W)
      → at (put s.widgets k h.widget) j ≡ some v
      → Fits j v h.desk.listeners
  put-Fits k w s found working h j v here = elim (Bool-cases (j == k)) [
    | inl same ↦
        let own : h.widget ≡ v = some_inj (
          ap (λ (b : Bool). if b then some h.widget else at s.widgets j) (sym same)
          ∙ sym (at-put s.widgets k j w h.widget found)
          ∙ here) in
        subst (λ i. Fits i v h.desk.listeners) (sym ((==_iff j k).0 same))
          (subst (λ u. Fits k u h.desk.listeners) own h.fits)
    | inr other ↦
        let kept : at s.widgets j ≡ some v =
          ap (λ (b : Bool). if b then some h.widget else at s.widgets j) (sym other)
          ∙ sym (at-put s.widgets k j w h.widget found)
          ∙ here in
        Fits-same j v s.desk.listeners h.desk.listeners
          (λ t. h.frames.others j t (λ q. ground arith)) (working.fits j v kept)
  ]

  -- One call of a handler.
  handle_widget-IsWorking :
      (k : ℕ) (s : Stage W)
      → Working s
      → (e.type ≡ mouse_move → contains k (s.desk.listeners mouse_move) ≡ true)
      → (s' : Stage W) × ((handle_widget without fuel search_results e k s).0 ≡ some s')
        × Working s'
        × (e.type ≡ mouse_move → s'.desk.listeners ≡ s.desk.listeners)
  unfolding handle_widget
  handle_widget-IsWorking k s working on = elim (Option-cases (at s.widgets k)) [
    | inl none_there ↦ (s, rw (handle_widget, none_there), working, λ m. refl)
    | inr (w, found) ↦
        let h =
          turn_widget-IsStep without law fuel search_results e k w s.desk (working.fits k w found)
            on working.families in
        (
          record { widgets = put s.widgets k h.widget; desk = h.desk },
          rw (handle_widget, found, h.turned),
          record {
            places = map-put place s.widgets k w h.widget found h.places ∙ working.places;
            presses = h.frames.presses ∙ working.presses;
            drawings = h.frames.drawings ∙ working.drawings;
            dblclicks = h.frames.dblclicks ∙ working.dblclicks;
            fits = put-Fits k w s found working h;
            families = h.families;
          },
          h.moves,
        )
  ]

  -- The loop of the manager.
  pub handle_each-IsWorking :
      (ks : List ℕ) (s : Stage W)
      → Working s
      → Told s ks
      → (s' : Stage W) × (handle_each (handle_next without fuel search_results e) ks (some s)
          ≡ some s')
        × Working s'
  unfolding handle_each
  handle_each-IsWorking [] s working told = (s, refl, working)
  handle_each-IsWorking (k ∷ ks) s working told =
      let (s1, done, w1, same) = handle_widget-IsWorking k s working (λ m. (told m).0) in
      let told' : Told s1 ks = λ m.
        subst (λ ls. All (λ j. contains j (ls mouse_move) ≡ true) ks) (sym (same m)) (told m).1 in
      elim (Bool-cases (handle_widget without fuel search_results e k s).1) [
        | inr stop ↦ (s1, rw (handle_each, done, stop), w1)
        | inl on ↦
            let (s2, rest, w2) = handle_each-IsWorking ks s1 w1 told' in
            (s2, rw (handle_each, done, on, rest), w2)
      ]
