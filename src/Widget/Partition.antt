-- ===== src/Widget/Partition.antt =====
-- The partition between the labels and the bars, of partition_widget.js, which the mouse drags.
pub mod Drag
pub mod Held
use incubator_htrace.Prelude.{
  ℕ, Bool, true, false, not, Option, none, some, List, [], ◌∷◌, Text, text, if◌then◌else◌,
}
use incubator_htrace.Prelude.Int.{pos}
use incubator_htrace.Widget.{
  Number, EventType, mouse_down, mouse_up, mouse_move, mouse_out, dblclick, draw, in_bounding_box,
  min_W, max_W, Event, Listeners, register_high_priority, unregister,
}

pub record Partition (W : Type 0) : Type 0 where
  pub x0 : W
  pub x_f : W
  pub y0 : W
  pub y_f : W
  pub x_min : W
  pub x_max : W
  pub selected : Bool

-- What the handler changes: the partition, the manager's listeners, the style of the mouse cursor,
-- and the calls of `releaseHandler` with their argument, the last one first.
pub record Page (W : Type 0) : Type 0 where
  pub partition : Partition W
  pub listeners : Listeners
  pub cursor : Text
  pub releases : List W

module _ {W : Type 0} ⦃n : Number W⦄ where
  -- `Math.min(Math.max(x, this.xMin), this.xMax)`
  abbrev pub clamp : Partition W → W → W
  clamp b x = min_W (max_W x b.x_min) b.x_max

  abbrev pub width : Partition W → W
  width b = n.sub b.x_f b.x0

  -- The `mouseMove` case.
  abbrev pub move_to : Partition W → W → Partition W
  move_to b x =
      let left = n.floor (n.sub (clamp b x) (n.div (width b) (n.of_ℤ (pos 2)))) in
      record b { x0 = left; x_f = n.add left (width b) }

module _ {W : Type 0} ⦃n : Number W⦄ (without : List ℕ → ℕ → List ℕ) (this : ℕ) where
  abbrev pub grab : Page W → Page W
  grab p = record p {
    partition = record p.partition { selected = true };
    listeners =
        register_high_priority mouse_move this (register_high_priority mouse_up this p.listeners);
    cursor = text "ew-resize";
  }

  abbrev pub let_go : Page W → Page W
  let_go p = record {
    partition = record p.partition { selected = false };
    listeners = unregister without mouse_move this (unregister without mouse_up this p.listeners);
    cursor = text "pointer";
    releases = p.partition.x0 ∷ p.releases;
  }

  abbrev switch : EventType → Event W → Page W → Page W × Bool
  switch mouse_down e p =
      let b = p.partition in
      if not (in_bounding_box e.x e.y b.x0 b.x_f b.y0 b.y_f) then (p, true) else (grab p, false)
  switch mouse_move e p = (record p { partition = move_to p.partition e.x }, false)
  switch mouse_up e p = (let_go p, false)
  switch mouse_out e p = (p, true)
  switch dblclick e p = (p, true)
  switch draw e p = (p, true)

  unfoldable pub handle_partition : Event W → Page W → Page W × Bool
  handle_partition e p = switch e.type e p
