-- ===== src/Widget/Partition/Drag.antt =====
-- A drag of the partition under the widget manager, among any other widgets.
use incubator_htrace.Prelude.{
  ℕ, ◌≡◌, refl, ap, ◌∙◌, Bool, true, false, List, [], ◌∷◌, ◌++◌, text, if◌then◌else◌, ◌==◌, arith,
  All,
}
use incubator_htrace.Widget.{
  Number, mouse_down, mouse_up, mouse_move, Event, register_high_priority, handle_each,
  in_bounding_box,
}
use incubator_htrace.Widget.Triangle.Session.{==_refl}
use incubator_htrace.Widget.Partition.{
  Partition, Page, clamp, width, move_to, grab, let_go, handle_partition,
}

-- The order of the numbers that are not NaN.
pub record IsOrdered (W : Type 0) ⦃n : Number W⦄ : Type 0 where
  pub refl_le : (a : W) → n.le a a ≡ true
  pub not_lt_le : (a b : W) → n.lt a b ≡ false → n.le b a ≡ true

module _ {W : Type 0} ⦃n : Number W⦄ where
  -- Wherever the mouse is, the place that the partition is moved to lies within its bounds, if
  -- the bounds are in order and the numbers are ordered.
  pub clamp_lem :
      (b : Partition W) (x : W)
      → IsOrdered W
      → n.le b.x_min b.x_max ≡ true
      → (n.le b.x_min (clamp b x) ≡ true) × (n.le (clamp b x) b.x_max ≡ true)
  clamp_lem b x law h = ground (
    arith,
    law.refl_le b.x_min,
    law.refl_le b.x_max,
    law.not_lt_le x b.x_min,
    law.not_lt_le b.x_max x,
    law.not_lt_le b.x_max b.x_min,
  )

  abbrev pub move_all : Partition W → List (Event W) → Partition W
  move_all b [] = b
  move_all b (e ∷ es) = move_all (move_to b e.x) es

  move_all-width :
      (es : List (Event W)) (b : Partition W)
      → ((a c : W) → n.sub (n.add a c) a ≡ c)
      → width (move_all b es) ≡ width b
  move_all-width [] b law = refl
  move_all-width (e ∷ es) b law = move_all-width es (move_to b e.x) law ∙ law _ (width b)

  move_all-bounds :
      (es : List (Event W)) (b : Partition W) (x : W) → clamp (move_all b es) x ≡ clamp b x
  move_all-bounds [] b x = refl
  move_all-bounds (e ∷ es) b x = move_all-bounds es (move_to b e.x) x

  move_all-append :
      (es : List (Event W)) (e : Event W) (b : Partition W)
      → move_all b (es ++ e ∷ []) ≡ move_to (move_all b es) e.x
  move_all-append [] e b = refl
  move_all-append (d ∷ es) e b = move_all-append es e (move_to b d.x)

  -- However the mouse moved, the partition ends where its last move alone would have taken it, and
  -- its width is as it was, if a sum less one of its terms is the other.
  pub move_all_last :
      (es : List (Event W)) (e : Event W) (b : Partition W)
      → ((a c : W) → n.sub (n.add a c) a ≡ c)
      → ((move_all b (es ++ e ∷ [])).x0 ≡ (move_to b e.x).x0)
        × (width (move_all b (es ++ e ∷ [])) ≡ width b)
  move_all_last es e b law = (
    ap (λ (p : Partition W). p.x0) (move_all-append es e b)
        ∙ rw (move_all-bounds es b e.x, move_all-width es b law),
    move_all-width (es ++ e ∷ []) b law,
  )

module _ {W : Type 0} ⦃n : Number W⦄ (without : List ℕ → ℕ → List ℕ) (this : ℕ)
    (other : ℕ → Event W → Page W → Page W × Bool) where
  -- The manager, with any other widgets, which may do anything to the page.
  abbrev pub turn_of : Event W → ℕ → Page W → Page W × Bool
  turn_of e w p = if w == this then handle_partition without this e p else other w e p

  unfoldable pub deliver_page : Event W → Page W → Page W
  deliver_page e p = handle_each (turn_of e) (p.listeners e.type) p

  unfoldable pub deliver_pages : List (Event W) → Page W → Page W
  deliver_pages [] p = p
  deliver_pages (e ∷ es) p = deliver_pages es (deliver_page e p)

  abbrev IsGrabbed : Page W → List ℕ → List ℕ → Type 0
  IsGrabbed p ups moves =
      (p.listeners mouse_up ≡ this ∷ ups) × (p.listeners mouse_move ≡ this ∷ moves)

  deliver_page-move :
      (e : Event W) (p : Page W) (ws : List ℕ)
      → e.type ≡ mouse_move
      → p.listeners mouse_move ≡ this ∷ ws
      → deliver_page e p ≡ record p { partition = move_to p.partition e.x }
  unfolding deliver_page handle_each handle_partition
  deliver_page-move e p ws t h = rw (t, h, ==_refl this)

  deliver_page-release :
      (e : Event W) (p : Page W) (ws : List ℕ)
      → e.type ≡ mouse_up
      → p.listeners mouse_up ≡ this ∷ ws
      → deliver_page e p ≡ let_go without this p
  unfolding deliver_page handle_each handle_partition
  deliver_page-release e p ws t h = rw (t, h, ==_refl this)

  grabbed_moves :
      (es : List (Event W)) (release : Event W) (p : Page W) (ups moves : List ℕ)
      → All (λ e. e.type ≡ mouse_move) es
      → release.type ≡ mouse_up
      → IsGrabbed p ups moves
      → deliver_pages (es ++ release ∷ []) p
        ≡ let_go without this (record p { partition = move_all p.partition es })
  unfolding deliver_pages
  grabbed_moves [] release p ups moves h r g = deliver_page-release release p ups r g.0
  grabbed_moves (e ∷ es) release p ups moves (t, h) r g =
      rw (deliver_pages, deliver_page-move e p moves t g.1)
        (grabbed_moves es release (record p { partition = move_to p.partition e.x }) ups moves h r
          g)

  grab-IsGrabbed :
      (p : Page W) → IsGrabbed (grab without this p) (p.listeners mouse_up) (p.listeners mouse_move)
  unfolding register_high_priority
  grab-IsGrabbed p = (refl, refl)

  -- Once the mouse is pressed in the box of the partition, the moves and the release go to the
  -- partition alone, whatever other widgets listen to them and whatever they do: the partition is
  -- moved by each move, `releaseHandler` is called once, with where it then stands, and the
  -- partition is not selected.
  pub drag_lem :
      (press release : Event W) (es : List (Event W)) (p : Page W)
      → press.type ≡ mouse_down
      → in_bounding_box press.x press.y p.partition.x0 p.partition.x_f p.partition.y0
          p.partition.y_f
        ≡ true
      → All (λ e. e.type ≡ mouse_move) es
      → release.type ≡ mouse_up
      → let p' = deliver_pages (es ++ release ∷ []) (handle_partition without this press p).0 in
        let b = move_all (record p.partition { selected = true }) es in
        (p'.partition ≡ record b { selected = false })
        × (p'.releases ≡ b.x0 ∷ p.releases)
        × (p'.cursor ≡ text "pointer")
  unfolding handle_partition
  drag_lem press release es p t hit h r =
      rw
        (
          t,
          hit,
          grabbed_moves es release (grab without this p) (p.listeners mouse_up)
              (p.listeners mouse_move) h r (grab-IsGrabbed p),
        )
        (refl, refl, refl)
