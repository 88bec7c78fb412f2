-- ===== src/Modal.antt =====
-- htrace-webapp/src/main/webapp/app/modal.js: the modal dialog, and the key that dismisses it.
--
-- `keypress` is the list of the handlers that the document has for `keypress`, all of them the one of
-- `showModal`, by the number of calls of `showModal` before; `clicks` counts the clicks on the first
-- button of the dialog that the program makes. The template of a warning is a parameter.
use incubator_htrace.Prelude.{
  ℕ, suc, ◌+◌, ◌≡◌, refl, ap, ◌∙◌, Bool, true, false, List, [], ◌∷◌, ◌++◌, Text, length, ◌==◌,
  if◌then◌else◌, arith,
}

pub record Modal : Type 0 where
  pub html : Text
  pub keypress : List ℕ
  pub clicks : ℕ
  pub shows : ℕ

unfoldable pub show_modal : Text → Modal → Modal
show_modal html d = record d {
  html = html;
  keypress = d.keypress ++ d.shows ∷ [];
  shows = suc d.shows;
}

unfoldable pub show_modal_warning : (Text → Text → Text) → (title body : Text) → Modal → Modal
unfolding show_modal
show_modal_warning template title body d = show_modal (template title body) d

-- The handler; false keeps the event from other elements.
unfoldable pub on_keypress : (which : ℕ) → Modal → Modal × Bool
on_keypress which d =
    if which == 13 then (record d { keypress = []; clicks = suc d.clicks }, false) else (d, true)

-- jQuery calls each of the handlers that there were when the key was pressed.
unfoldable pub press_key : List ℕ → (which : ℕ) → Modal → Modal
unfolding on_keypress
press_key [] which d = d
press_key (handler ∷ handlers) which d = press_key handlers which (on_keypress which d).0

-- Enter, with handlers, leaves none, and clicks once for each of them.
pub press_key_enter :
    (handler : ℕ) (handlers : List ℕ) (d : Modal)
    → press_key (handler ∷ handlers) 13 d
      ≡ record d { keypress = []; clicks = d.clicks + length (handler ∷ handlers) }
unfolding press_key on_keypress
press_key_enter handler [] d = ap (λ k. record d { keypress = []; clicks = k }) (omega arith)
press_key_enter handler (next ∷ handlers) d =
    press_key_enter next handlers (record d { keypress = []; clicks = suc d.clicks })
    ∙ ap (λ k. record d { keypress = []; clicks = k }) (omega arith)

-- Any other key changes nothing.
pub press_key_other :
    (handlers : List ℕ) (which : ℕ) (d : Modal)
    → (which == 13) ≡ false
    → press_key handlers which d ≡ d
unfolding press_key on_keypress
press_key_other [] which d h = refl
press_key_other (handler ∷ handlers) which d h =
    rw (on_keypress, h) (press_key_other handlers which d h)
