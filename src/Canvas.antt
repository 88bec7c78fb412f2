-- ===== src/Canvas.antt =====
-- The calls that the widgets of htrace-webapp/src/main/webapp/app make on the context of the canvas
-- (`this.ctx`), as commands; an assignment to a property of the context is a command as well.
--
-- What the browser does on a command is a parameter, `step`. Of it only that is used which the HTML
-- standard says of `save` and `restore`: they push and pop what it calls the drawing state (styles,
-- fonts, transformations and clipping regions).
pub mod Widgets
pub mod Bars
pub mod Page
pub mod Drawing
pub mod Setup
use incubator_htrace.Prelude.{
  arith, ◌≡◌, refl, ◌∙◌, Bool, true, false, ◌&&◌, List, [], ◌∷◌, ◌++◌, Text, Bool-cases, inl, inr,
  ◌⊎◌, ap₂, not,
}

pub data Command (W : Type 0) : Type 0 where
  save restore begin_path close_path clip fill stroke : Command W
  set_fill_style set_stroke_style set_font : Text → Command W
  set_line_width : W → Command W
  rect fill_rect stroke_rect : W → W → W → W → Command W
  move_to line_to : W → W → Command W
  fill_text : Text → W → W → Command W

-- Neither `save` nor `restore`.
abbrev pub is_plain : {W : Type 0} → Command W → Bool
is_plain save = false
is_plain restore = false
is_plain _ = true

abbrev pub all_plain : {W : Type 0} → List (Command W) → Bool
all_plain [] = true
all_plain (c ∷ cs) = is_plain c && all_plain cs

-- Every `save` has its `restore`, and none is between another and its `restore`; `inner` says that
-- the commands stand behind a `save`.
abbrev pub is_balanced : {W : Type 0} → (inner : Bool) → List (Command W) → Bool
is_balanced inner [] = not inner
is_balanced false (save ∷ cs) = is_balanced true cs
is_balanced false (_ ∷ cs) = false
is_balanced true (restore ∷ cs) = is_balanced false cs
is_balanced true (save ∷ cs) = false
is_balanced true (_ ∷ cs) = is_balanced true cs

pub is_balanced-plain :
    {W : Type 0}
    → (cs ds : List (Command W)) → all_plain cs ≡ true
    → is_balanced true (cs ++ ds) ≡ is_balanced true ds
is_balanced-plain [] ds h = refl
is_balanced-plain (save ∷ cs) ds h = cc
is_balanced-plain (restore ∷ cs) ds h = cc
is_balanced-plain (c ∷ cs) ds h = is_balanced-plain cs ds h

module _ {W S D : Type 0} (step : Command W → S → S) (state : S → D) (saved : S → List D) where
  -- `state` is the drawing state of a context and `saved` its stack of drawing states.
  pub record IsCanvas : Type 0 where
    pub state-save : (s : S) → state (step save s) ≡ state s
    pub saved-save : (s : S) → saved (step save s) ≡ state s ∷ saved s
    pub state-restore :
        (s : S) (d : D) (ds : List D) → saved s ≡ d ∷ ds → state (step restore s) ≡ d
    pub saved-restore :
        (s : S) (d : D) (ds : List D) → saved s ≡ d ∷ ds → saved (step restore s) ≡ ds
    pub saved-plain : (c : Command W) (s : S) → is_plain c ≡ true → saved (step c s) ≡ saved s

  abbrev pub run : List (Command W) → S → S
  run [] s = s
  run (c ∷ cs) s = run cs (step c s)

  -- The drawing state is the same after the commands as before, and so is the stack.
  abbrev pub Restores : List (Command W) → Type 0
  Restores cs = (s : S) → (state (run cs s) ≡ state s) × (saved (run cs s) ≡ saved s)

  run-append : (cs ds : List (Command W)) (s : S) → run (cs ++ ds) s ≡ run ds (run cs s)
  run-append [] ds s = refl
  run-append (c ∷ cs) ds s = run-append cs ds (step c s)

  pub Restores-append : (cs ds : List (Command W)) → Restores cs → Restores ds → Restores (cs ++ ds)
  Restores-append cs ds h k s =
      rw (run-append cs ds s) ((k (run cs s)).0 ∙ (h s).0, (k (run cs s)).1 ∙ (h s).1)

  module _ (canvas : IsCanvas) where
    -- Behind a `save`, the stack still holds what there was before it.
    Restores-from :
        (cs : List (Command W)) (s : S) (d : D) (ds : List D)
        → ((is_balanced false cs ≡ true) × (state s ≡ d) × (saved s ≡ ds))
          ⊎ ((is_balanced true cs ≡ true) × (saved s ≡ d ∷ ds))
        → (state (run cs s) ≡ d) × (saved (run cs s) ≡ ds)
    Restores-from [] s d ds (inl h) = (h.1, h.2)
    Restores-from [] s d ds (inr h) = let e = h.0 in cc
    Restores-from (save ∷ cs) s d ds (inl h) =
        Restores-from cs (step save s) d ds
          (inr (h.0, canvas.saved-save s ∙ ap₂ (λ e es. e ∷ es) h.1 h.2))
    Restores-from (c ∷ cs) s d ds (inl h) = let e = h.0 in cc
    Restores-from (restore ∷ cs) s d ds (inr h) =
        Restores-from cs (step restore s) d ds
          (inl (h.0, canvas.state-restore s d ds h.1, canvas.saved-restore s d ds h.1))
    Restores-from (save ∷ cs) s d ds (inr h) = let e = h.0 in cc
    Restores-from (c ∷ cs) s d ds (inr h) =
        Restores-from cs (step c s) d ds (inr (h.0, canvas.saved-plain c s refl ∙ h.1))

    -- The canvas is left as it was by commands that are balanced.
    pub Restores-balanced : (cs : List (Command W)) → is_balanced false cs ≡ true → Restores cs
    Restores-balanced cs h s = Restores-from cs s (state s) (saved s) (inl (h, refl, refl))
