-- ===== src/Stage/Start.antt =====
-- The registrations of the widgets of a new page.
use incubator_htrace.Prelude.{
  ℕ, zero, suc, ◌+◌, ◌≡◌, refl, sym, ap, subst, ◌∙◌, Bool, true, false, Option, none, some, List,
  [], ◌∷◌, ◌++◌, arith, if◌then◌else◌, ◌==◌, All, Bool-cases, inl, inr, ltb, some_inj, All-imp,
}
use mathlib.Core.List.{append-nil, append_assoc}
use incubator_htrace.Widget.{
  EventType, mouse_down, mouse_move, mouse_up, mouse_out, dblclick, draw, Listeners, no_listeners,
  register,
}
use incubator_htrace.Widget.Manager.{contains}
use incubator_htrace.Widget.Cursor.{TimeCursor}
use incubator_htrace.Canvas.Page.{Widget, group, row, button, partition, cursor}
use incubator_htrace.Stage.{at, close_row, register_all}
use incubator_htrace.Stage.Step.{Fits}

-- The types of events that a widget registers for when it is created, but for those of a press.
abbrev pub listens : {W : Type 0} → EventType → Widget W → Bool
listens draw w = true
listens mouse_move (cursor c) = true
listens _ _ = false

abbrev pub is_press : EventType → Bool
is_press mouse_down = true
is_press dblclick = true
is_press _ = false

-- The places, from `k` on, of the widgets that register for a type of event.
abbrev pub listeners_from : {W : Type 0} → EventType → ℕ → List (Widget W) → List ℕ
listeners_from t k [] = []
listeners_from t k (w ∷ ws) =
    let rest = listeners_from t (suc k) ws in if listens t w then k ∷ rest else rest

close_row_same :
    (t : EventType) (open_row : Option ℕ) (ls : Listeners)
    → is_press t ≡ false
    → close_row open_row ls t ≡ ls t
unfolding register
close_row_same t none ls h = refl
close_row_same t (some k) ls h = ground arith

register_same :
    (t u : EventType) (k : ℕ) (ls : Listeners)
    → is_press t ≡ false
    → is_press u ≡ true
    → register u k ls t ≡ ls t
unfolding register
register_same t u k ls h q = ground arith

-- The listeners for a type of event after the registrations of one widget.
abbrev listens_now : {W : Type 0} → EventType → ℕ → Widget W → List ℕ → List ℕ
listens_now t k w xs = if listens t w then xs ++ k ∷ [] else xs

module _ {W : Type 0} (k : ℕ) (w : Widget W) (ls ls' : Listeners) where
  registered_draw :
      (t : EventType)
      → is_press t ≡ false
      → ls' t ≡ ls t
      → (t ≡ mouse_move → listens t w ≡ false)
      → register draw k ls' t ≡ listens_now t k w (ls t)
  unfolding register
  registered_draw draw plain same other = ap (λ xs. xs ++ k ∷ []) same
  registered_draw mouse_move plain same other = rw (other refl) same
  registered_draw mouse_up plain same other = same
  registered_draw mouse_out plain same other = same
  registered_draw mouse_down plain same other = cc
  registered_draw dblclick plain same other = cc

-- A cursor registers for the moves of the mouse too.
registered_cursor :
    {W : Type 0}
    → (k : ℕ) (c : TimeCursor W) (ls ls' : Listeners) (t : EventType) → is_press t ≡ false
    → ls' t ≡ ls t
    → register draw k (register mouse_move k ls') t ≡ listens_now t k (cursor c) (ls t)
unfolding register
registered_cursor k c ls ls' draw plain same = ap (λ xs. xs ++ k ∷ []) same
registered_cursor k c ls ls' mouse_move plain same = ap (λ xs. xs ++ k ∷ []) same
registered_cursor k c ls ls' mouse_up plain same = same
registered_cursor k c ls ls' mouse_out plain same = same
registered_cursor k c ls ls' mouse_down plain same = cc
registered_cursor k c ls ls' dblclick plain same = cc

module _ {W : Type 0} (t : EventType) (plain : is_press t ≡ false) where
  append_listens :
      (k : ℕ) (w : Widget W) (xs now rest out : List ℕ)
      → out ≡ now ++ rest
      → now ≡ listens_now t k w xs
      → out ≡ xs ++ (if listens t w then k ∷ rest else rest)
  append_listens k w xs now rest out e h =
      e ∙ ap (λ l. l ++ rest) h ∙ elim (Bool-cases (listens t w)) [
        | inl on ↦ rw on (append_assoc xs (k ∷ []) rest)
        | inr off ↦ rw off
      ]

  -- Who listens, in the order of the widgets; the listeners that were there before stand in front.
  pub register_all_lem :
      (k : ℕ) (open_row : Option ℕ) (ws : List (Widget W)) (ls : Listeners)
      → register_all k open_row ws ls t ≡ ls t ++ listeners_from t k ws
  unfolding register_all
  register_all_lem k o [] ls = close_row_same t o ls plain ∙ sym (append-nil (ls t))
  register_all_lem k o (group b ∷ ws) ls =
      append_listens k (group b) (ls t) _ _ _ (register_all_lem (suc k) none ws _)
        (registered_draw k (group b) ls _ t plain (close_row_same t o ls plain) (λ m. rw m))
  register_all_lem k o (row w span ∷ ws) ls =
      append_listens k (row w span) (ls t) _ _ _ (register_all_lem (suc k) (some k) ws _)
        (registered_draw k (row w span) ls _ t plain (close_row_same t o ls plain) (λ m. rw m))
  register_all_lem k o (button b span ∷ ws) ls =
      append_listens k (button b span) (ls t) _ _ _ (register_all_lem (suc k) o ws _) (
        registered_draw k (button b span) ls _ t plain (register_same t mouse_down k ls plain refl)
          (λ m. rw m))
  register_all_lem k o (partition b ∷ ws) ls =
      append_listens k (partition b) (ls t) _ _ _ (register_all_lem (suc k) none ws _) (
        registered_draw k (partition b) ls _ t plain
          (register_same t mouse_down k (close_row o ls) plain refl ∙ close_row_same t o ls plain)
          (λ m. rw m))
  register_all_lem k o (cursor c ∷ ws) ls =
      append_listens k (cursor c) (ls t) _ _ _ (register_all_lem (suc k) none ws _)
        (registered_cursor k c ls _ t plain (close_row_same t o ls plain))

module _ {W : Type 0} (t : EventType) where
  contains_below :
      (j k : ℕ) (ws : List (Widget W)) → ltb j k ≡ true → contains j (listeners_from t k ws) ≡ false
  contains_below j k [] h = refl
  contains_below j k (w ∷ ws) h =
      let rest = contains_below j (suc k) ws (ground arith) in
      elim (Bool-cases (listens t w)) [
        | inl on ↦ rw (on, rest) (ground arith)
        | inr off ↦ rw off rest
      ]

  -- Whether a widget of a new page is registered for a type of event.
  contains-listeners_from :
      (i k : ℕ) (ws : List (Widget W)) (w : Widget W)
      → at ws i ≡ some w
      → contains (k + i) (listeners_from t k ws) ≡ listens t w
  contains-listeners_from i k [] w h = cc
  contains-listeners_from zero k (v ∷ ws) w h =
      let same : v ≡ w = some_inj h in
      let zero_there : k + zero ≡ k = omega arith in
      let rest = contains_below k (suc k) ws (ground arith) in
      rw (sym same, zero_there)
        (elim (Bool-cases (listens t v)) [
          | inl on ↦ rw (on) (ground arith)
          | inr off ↦ rw (off, rest)
        ])
  contains-listeners_from (suc i) k (v ∷ ws) w h =
      let rest = contains-listeners_from i (suc k) ws w h in
      let other : (k == k + suc i) ≡ false = ground arith in
      let place : k + suc i ≡ suc k + i = omega arith in
      let there : contains (k + suc i) (listeners_from t (suc k) ws) ≡ listens t w =
        ap (λ j. contains j (listeners_from t (suc k) ws)) place ∙ rest in
      elim (Bool-cases (listens t v)) [ inl on ↦ rw (on, other) there | inr off ↦ rw off there ]

pub contains-all : (ks : List ℕ) → All (λ k. contains k ks ≡ true) ks
contains-all [] = tt
contains-all (k ∷ ks) = (ground arith, All-imp ks (λ j h. ground arith) (contains-all ks))

-- A new button and a new partition are not selected.
abbrev pub IsFresh : {W : Type 0} → Widget W → Type 0
IsFresh (button b span) = b.selected ≡ false
IsFresh (partition b) = b.selected ≡ false
IsFresh _ = Unit

All-at :
    {A : Type 0}
    → (P : A → Type 0) (xs : List A) → All P xs
    → (k : ℕ) (x : A) → at xs k ≡ some x
    → P x
All-at P [] h k x e = cc
All-at P (y ∷ ys) h zero x e = subst P (some_inj e) h.0
All-at P (y ∷ ys) h (suc k) x e = All-at P ys h.1 k x e

module _ {W : Type 0} (ws : List (Widget W)) where
  abbrev first_listeners : Listeners
  first_listeners = register_all 0 none ws no_listeners

  registered :
      (k : ℕ) (w : Widget W)
      → at ws k ≡ some w
      → (t : EventType) → is_press t ≡ false
      → contains k (first_listeners t) ≡ listens t w
  registered k w h t plain =
      let zero_place : 0 + k ≡ k = omega arith in
      ap (contains k) (register_all_lem t plain 0 none ws no_listeners)
      ∙ ap (λ j. contains j (listeners_from t 0 ws)) (sym zero_place)
      ∙ contains-listeners_from t k 0 ws w h

  -- The registrations fit every widget of a new page.
  pub first_listeners-Fits :
      All IsFresh ws → (k : ℕ) (w : Widget W) → at ws k ≡ some w → Fits k w first_listeners
  first_listeners-Fits fresh k w h = by_widget w h (All-at IsFresh ws fresh k w h)
    where
      by_widget : (w : Widget W) → at ws k ≡ some w → IsFresh w → Fits k w first_listeners
      by_widget (group b) h new = registered k (group b) h mouse_up refl
      by_widget (row v span) h new = registered k (row v span) h mouse_up refl
      by_widget (button b span) h new =
          let up = registered k (button b span) h mouse_up refl in
          (
            registered k (button b span) h mouse_move refl ∙ sym up,
            registered k (button b span) h mouse_out refl ∙ sym up,
            λ on. cc,
          )
      by_widget (partition b) h new =
          let up = registered k (partition b) h mouse_up refl in
          (registered k (partition b) h mouse_move refl ∙ sym up, sym (up ∙ sym new))
      by_widget (cursor c) h new =
          (registered k (cursor c) h mouse_move refl, registered k (cursor c) h mouse_up refl)
