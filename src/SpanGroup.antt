-- ===== src/SpanGroup.antt =====
-- htrace-webapp/src/main/webapp/app/span_group_widget.js: the rows of one result on the canvas, its
-- parents above it and its children below it.
--
-- A row is a span widget that is created (span_widget.js), with those of its parameters that differ
-- from row to row. Heights on the canvas are whole numbers, as search_results_view.js gives them.
pub mod Layout
pub mod Groups
use incubator_htrace.Prelude.{
  ℕ, ◌+◌, ltb, Bool, true, false, Option, none, some, List, [], ◌∷◌, ◌++◌, if◌then◌else◌, ◌>>=◌,
}
use incubator_htrace.Prelude.Int.{ℤ, pos, sub_ℕ}
use incubator_htrace.Tree.{tree_height, traverse_pre, traverse_post}
use incubator_htrace.Span.Store.{Store, get_reified_parents, get_reified_children}
use incubator_htrace.Widget.{Number, max_W}

pub record Row (W : Type 0) : Type 0 where
  pub span : ℕ
  pub x_t : W
  pub y0 : ℕ
  pub y_f : ℕ
  pub allow_up_button : Bool
  pub allow_down_button : Bool

-- The parameters of the group that its rows depend on.
pub record GroupParams (W : Type 0) : Type 0 where
  pub span : ℕ
  pub x_d : W
  pub x_f : W
  pub y0 : ℕ
  pub span_widget_height : ℕ

-- The span widgets that were created, and `spanY`.
pub record Group (W : Type 0) : Type 0 where
  pub rows : List (Row W)
  pub span_y : ℕ

module _ {W : Type 0} ⦃n : Number W⦄ (p : GroupParams W) where
  abbrev pub child_indent : W
  child_indent = max_W (n.of_ℤ (pos 10)) (n.div (n.sub p.x_f p.x_d) (n.of_ℤ (pos 50)))

  unfoldable pub create_span_widget :
      (node : ℕ) (indent_level : ℤ) (up down : Bool) → Group W → Group W
  create_span_widget node indent_level up down g = record {
    rows =
        g.rows
        ++ record {
          span = node;
          x_t = n.mul child_indent (n.of_ℤ indent_level);
          y0 = g.span_y;
          y_f = g.span_y + p.span_widget_height;
          allow_up_button = up;
          allow_down_button = down;
        }
          ∷ [];
    span_y = g.span_y + p.span_widget_height;
  }

  -- The callbacks of the two traversals.
  abbrev pub create_above : ℕ → ℕ → ℕ → Group W → Group W
  create_above parent_tree_height node depth g =
      if ltb 0 depth
      then create_span_widget node (sub_ℕ parent_tree_height depth) true false g
      else g

  abbrev pub create_below : ℕ → ℕ → ℕ → Group W → Group W
  create_below parent_tree_height node depth g =
      if ltb 0 depth
      then create_span_widget node (pos (parent_tree_height + depth)) false true g
      else g

  -- The constructor: the rows, and `yF`.
  unfoldable pub lay_out : Store → (fuel : ℕ) → Option (List (Row W) × ℕ)
  lay_out st fuel = do
    parent_tree_height ← tree_height (get_reified_parents st) fuel p.span
    g ←
        traverse_post (get_reified_parents st) (create_above parent_tree_height) fuel p.span 0
          (record { rows = []; span_y = p.y0 + 4 })
    g' ←
        traverse_pre (get_reified_children st) (create_below parent_tree_height) fuel p.span 0
          (create_span_widget p.span (pos parent_tree_height) true true g)
    some (g'.rows, g'.span_y + 4)
