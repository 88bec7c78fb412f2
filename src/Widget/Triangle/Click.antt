-- ===== src/Widget/Triangle/Click.antt =====
-- What a click on a triangle button comes to, whatever moves of the mouse lie between its press
-- and its release, among other widgets.
use incubator_htrace.Prelude.{
  ℕ, suc, ◌≡◌, refl, ap, sym, subst, ◌∙◌, Bool, true, false, ◌&&◌, List, [], ◌∷◌, ◌++◌, arith,
  if◌then◌else◌, Bool-cases, ◌⊎◌, inl, inr, All,
}
use incubator_htrace.Widget.{
  Number, EventType, mouse_down, mouse_up, mouse_move, mouse_out, same_type, Event, Listeners,
  IsWithout,
}
use incubator_htrace.Widget.Manager.{contains}
use incubator_htrace.Widget.Triangle.{Triangle, inside}
use incubator_htrace.Widget.Triangle.Session.{Session, deliver, deliver_all, IsValid}
use incubator_htrace.Widget.Triangle.Loop.{Seen, Passes, AreIdle, Has}
use incubator_htrace.Widget.Triangle.Turns.{hit_seen, selected_seen, release_seen}
use incubator_htrace.Widget.Triangle.Leads.{
  typed_Leads, skip_Leads, miss_Leads, hit_Leads, move_Leads, out_Leads, release_Leads,
}

module _ {W : Type 0} ⦃n : Number W⦄ where
  -- Whether the button is selected after moves and exits, if it listens to them.
  abbrev pub AreMoves : List (Event W) → Type 0
  AreMoves = All (λ e. (e.type ≡ mouse_move) ⊎ (e.type ≡ mouse_out))

  pub ends_inside : Triangle W → Bool → List (Event W) → Bool
  ends_inside b selected [] = selected
  ends_inside b selected (e ∷ es) =
      ends_inside b (if same_type e.type mouse_move then inside b e else false) es

module _ {W S : Type 0} ⦃n : Number W⦄ (without : List ℕ → ℕ → List ℕ) (this : ℕ)
    (other : ℕ → Event W → S → Listeners → S × Listeners × Bool) (IsIdle : S → Type 0)
    (attends : ℕ → EventType → Bool) where
  -- The moves.
  moves_Leads :
      (x : Seen W) (es : List (Event W)) (was : Bool)
      → x.listens mouse_move ≡ true
      → x.listens mouse_out ≡ true
      → AreMoves es
      → All (Passes without this other IsIdle attends) es
      → (s : Session W S)
      → Has without this other IsIdle attends
          (selected_seen without this other IsIdle attends x was)
          s
      → Has without this other IsIdle attends
          (selected_seen without this other IsIdle attends x (ends_inside x.button was es))
          (deliver_all without this other es s)
  unfolding deliver_all ends_inside
  moves_Leads x [] was m o ms passes s h = h
  moves_Leads x (e ∷ es) was m o (inl q, ms) (pass, passes) s h =
      let now = inside x.button e in
      subst
        (λ (t : EventType).
          Has without this other IsIdle attends
            (selected_seen without this other IsIdle attends x (
              ends_inside x.button (if same_type t mouse_move then inside x.button e else false)
                es))
            (deliver_all without this other es (deliver without this other e s)))
        (sym q)
        (moves_Leads x es now m o ms passes (deliver without this other e s) (
          typed_Leads without this other IsIdle attends
            (selected_seen without this other IsIdle attends x was)
            (selected_seen without this other IsIdle attends x now) mouse_move e q
            (move_Leads without this other IsIdle attends x e was m) pass s h))
  moves_Leads x (e ∷ es) was m o (inr q, ms) (pass, passes) s h =
      subst
        (λ (t : EventType).
          Has without this other IsIdle attends
            (selected_seen without this other IsIdle attends x (
              ends_inside x.button (if same_type t mouse_move then inside x.button e else false)
                es))
            (deliver_all without this other es (deliver without this other e s)))
        (sym q)
        (moves_Leads x es false m o ms passes (deliver without this other e s) (
          typed_Leads without this other IsIdle attends
            (selected_seen without this other IsIdle attends x was)
            (selected_seen without this other IsIdle attends x false) mouse_out e q
            (out_Leads without this other IsIdle attends x e was o) pass s h))

  moves_skip :
      (x : Seen W) (es : List (Event W))
      → x.listens mouse_move ≡ false
      → x.listens mouse_out ≡ false
      → AreMoves es
      → All (Passes without this other IsIdle attends) es
      → (s : Session W S) → Has without this other IsIdle attends x s
      → Has without this other IsIdle attends x (deliver_all without this other es s)
  unfolding deliver_all
  moves_skip x [] m o ms passes s h = h
  moves_skip x (e ∷ es) m o (inl q, ms) (pass, passes) s h =
      moves_skip x es m o ms passes (deliver without this other e s)
        (skip_Leads without this other IsIdle attends x e (ap x.listens q ∙ m) pass s h)
  moves_skip x (e ∷ es) m o (inr q, ms) (pass, passes) s h =
      moves_skip x es m o ms passes (deliver without this other e s)
        (skip_Leads without this other IsIdle attends x e (ap x.listens q ∙ o) pass s h)

  deliver_all-append :
      (xs ys : List (Event W)) (s : Session W S)
      → deliver_all without this other (xs ++ ys) s
        ≡ deliver_all without this other ys (deliver_all without this other xs s)
  unfolding deliver_all
  deliver_all-append [] ys s = refl
  deliver_all-append (e ∷ xs) ys s = deliver_all-append xs ys (deliver without this other e s)

  click :
      (press release : Event W) (moves : List (Event W)) (s : Session W S)
      → deliver_all without this other (press ∷ moves ++ release ∷ []) s
        ≡ deliver without this other release
            (deliver_all without this other moves (deliver without this other press s))
  unfolding deliver_all
  click press release moves s =
      deliver_all-append moves (release ∷ []) (deliver without this other press s)

  -- The manager handles a press, any moves of the mouse within the canvas or out of it, and a
  -- release, and `_.without` does what is documented of it. The other widgets are idle and listen
  -- to no more than they do then; and those that listen to one of these events while they are
  -- idle let it through, leave the registrations as they are, and stay idle. Then of a button
  -- that satisfies its invariant, is not selected and does not listen to releases, the callback
  -- is called once if the press is inside the box of the button and the last move (if there is
  -- one) ends inside it, and not at all otherwise; afterwards it is not selected and does not
  -- listen to releases.
  pub click_lem :
      IsWithout without
      → (press release : Event W) (moves : List (Event W)) (s : Session W S)
      → Passes without this other IsIdle attends press
      → All (Passes without this other IsIdle attends) moves
      → Passes without this other IsIdle attends release
      → AreIdle without this other IsIdle attends s
      → IsValid without this other s
      → s.button.selected ≡ false
      → contains this (s.listeners mouse_up) ≡ false
      → press.type ≡ mouse_down
      → AreMoves moves
      → release.type ≡ mouse_up
      → let s' = deliver_all without this other (press ∷ moves ++ release ∷ []) s in
        (s'.calls ≡ (
          if inside s.button press && ends_inside s.button true moves
          then suc s.calls
          else s.calls))
        × (s'.button.selected ≡ false)
        × (contains this (s'.listeners mouse_up) ≡ false)
  unfolding ends_inside
  click_lem law press release moves s pass passes last idle v free off p ms r =
      let x : Seen W = record {
        button = s.button;
        calls = s.calls;
        listens = λ t. contains this (s.listeners t);
      } in
      let s1 = deliver without this other press s in
      let s2 = deliver_all without this other moves s1 in
      elim (Bool-cases (inside s.button press)) [
        | inl hit ↦
            let x1 = hit_seen without this other IsIdle attends x in
            let x2 =
              selected_seen without this other IsIdle attends x1
                (ends_inside s.button true moves) in
            let h1 =
              typed_Leads without this other IsIdle attends x x1 mouse_down press p
                (hit_Leads without this other IsIdle attends x press hit v.listens_down) pass s
                (refl, refl, (λ t. refl), idle) in
            let h2 = moves_Leads x1 moves true (ground arith) (ground arith) ms passes s1 h1 in
            let (b, c, l, i) =
              typed_Leads without this other IsIdle attends x2
                (release_seen without this other IsIdle attends x2) mouse_up release r
                (release_Leads without this other IsIdle attends law x2 release (ground arith)) last
                s2 h2 in
            rw (click press release moves s, hit)
              (c, ap (λ (b : Triangle W). b.selected) b, l mouse_up ∙ ground arith)
        | inr miss ↦
            let h1 =
              typed_Leads without this other IsIdle attends x x mouse_down press p
                (miss_Leads without this other IsIdle attends x press miss) pass s
                (refl, refl, (λ t. refl), idle) in
            let h2 = moves_skip x moves (v.move_as_up ∙ off) (v.out_as_up ∙ off) ms passes s1 h1 in
            let (b, c, l, i) =
              skip_Leads without this other IsIdle attends x release (ap x.listens r ∙ off) last s2
                h2 in
            rw (click press release moves s, miss)
              (c, ap (λ (b : Triangle W). b.selected) b ∙ free, l mouse_up ∙ off)
      ]
