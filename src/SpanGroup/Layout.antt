-- ===== src/SpanGroup/Layout.antt =====
-- Which rows a group has, and where.
use incubator_htrace.Prelude.{
  ℕ, zero, suc, ◌+◌, ◌*◌, ◌<◌, ◌≤◌, ◌≡◌, refl, sym, ap, ◌∙◌, lt→ltb, Bool, true, false, some, List,
  [], ◌∷◌, ◌++◌, length, arith, All, All-append, All-imp,
}
use mathlib.Core.List.{append-nil, append_assoc}
use incubator_htrace.Prelude.Int.{ℤ, pos, sub_ℕ, ◌≤ℤ◌, sub_ℕ_parts}
use incubator_htrace.Tree.Rose.{
  Rose, Forest, node, nil, cons, height, levels, preorder, preorders, postorder, postorders,
  visit_all,
}
use incubator_htrace.Tree.Traversal.{traverse_pre_lem, traverse_post_lem, tree_height_lem}
use incubator_htrace.Span.Store.{Store, get_reified_parents, get_reified_children, Family}
use incubator_htrace.Widget.{Number}
use incubator_htrace.SpanGroup.{
  Row, GroupParams, Group, child_indent, create_span_widget, create_above, create_below, lay_out,
}

-- What a row shows: the span, how far it is indented, and which buttons it has.
pub record Item : Type 0 where
  pub span : ℕ
  pub level : ℤ
  pub up : Bool
  pub down : Bool

-- The spans above and below a span of the given height of its tree upwards.
abbrev pub above : ℕ → List (ℕ × ℕ) → List Item
above h [] = []
above h ((a, zero) ∷ vs) = above h vs
above h ((a, suc d) ∷ vs) =
    record { span = a; level = sub_ℕ h (suc d); up = true; down = false } ∷ above h vs

abbrev pub below : ℕ → List (ℕ × ℕ) → List Item
below h [] = []
below h ((a, zero) ∷ vs) = below h vs
below h ((a, suc d) ∷ vs) =
    record { span = a; level = pos (h + suc d); up = false; down = true } ∷ below h vs

-- The items of a group: its parents, the span itself, its children.
abbrev pub items : {st : Store} {span : ℕ} → Family st span → List Item
items {st} {span} f =
    above (height f.up) (postorder f.up 0)
    ++ record { span = span; level = pos (height f.up); up = true; down = true }
      ∷ below (height f.up) (preorder f.down 0)

mutual
  preorder-depth : (t : Rose ℕ) (d : ℕ) → All (λ v. v.1 ≤ d + height t) (preorder t d)
  preorder-depth (node a f) d =
      (omega arith, All-imp (preorders f (d + 1)) (λ v k. omega arith) (preorders-depth f (d + 1)))

  preorders-depth : (f : Forest ℕ) (d : ℕ) → All (λ v. v.1 + 1 ≤ d + levels f) (preorders f d)
  preorders-depth nil d = tt
  preorders-depth (cons t f) d =
      All-append (λ v. v.1 + 1 ≤ d + levels (cons t f)) (preorder t d) (preorders f d)
        (All-imp (preorder t d) (λ v k. omega arith) (preorder-depth t d))
        (All-imp (preorders f d) (λ v k. omega arith) (preorders-depth f d))

mutual
  postorder-depth : (t : Rose ℕ) (d : ℕ) → All (λ v. v.1 ≤ d + height t) (postorder t d)
  postorder-depth (node a f) d =
      All-append (λ v. v.1 ≤ d + levels f) (postorders f (d + 1)) ((a, d) ∷ [])
        (All-imp (postorders f (d + 1)) (λ v k. omega arith) (postorders-depth f (d + 1)))
        (omega arith, tt)

  postorders-depth : (f : Forest ℕ) (d : ℕ) → All (λ v. v.1 + 1 ≤ d + levels f) (postorders f d)
  postorders-depth nil d = tt
  postorders-depth (cons t f) d =
      All-append (λ v. v.1 + 1 ≤ d + levels (cons t f)) (postorder t d) (postorders f d)
        (All-imp (postorder t d) (λ v k. omega arith) (postorder-depth t d))
        (All-imp (postorders f d) (λ v k. omega arith) (postorders-depth f d))

-- The level is not negative and at most the bound.
abbrev pub IsLevel : ℕ → Item → Type 0
IsLevel bound i = (pos 0 ≤ℤ i.level) × (i.level ≤ℤ pos bound)

above-IsLevel :
    (h bound : ℕ) (vs : List (ℕ × ℕ))
    → h ≤ bound
    → All (λ v. v.1 ≤ h) vs
    → All (IsLevel bound) (above h vs)
above-IsLevel h bound [] k a = tt
above-IsLevel h bound ((x, zero) ∷ vs) k a = above-IsLevel h bound vs k a.1
above-IsLevel h bound ((x, suc d) ∷ vs) k a = (
  (omega (arith, a.0, sub_ℕ_parts h (suc d)), ground (arith, a.0)),
  above-IsLevel h bound vs k a.1,
)

below-IsLevel :
    (h bound : ℕ) (vs : List (ℕ × ℕ))
    → All (λ v. h + v.1 ≤ bound) vs
    → All (IsLevel bound) (below h vs)
below-IsLevel h bound [] a = tt
below-IsLevel h bound ((x, zero) ∷ vs) a = below-IsLevel h bound vs a.1
below-IsLevel h bound ((x, suc d) ∷ vs) a =
    ((omega arith, omega (arith, a.0)), below-IsLevel h bound vs a.1)

items-IsLevel :
    {st : Store} {span : ℕ} (f : Family st span)
    → All (IsLevel (height f.up + height f.down)) (items f)
items-IsLevel {st} {span} f =
    let h = height f.up in
    let bound = height f.up + height f.down in
    All-append (IsLevel bound) (above h (postorder f.up 0)) _
      (above-IsLevel h bound (postorder f.up 0) (omega arith)
        (All-imp (postorder f.up 0) (λ v k. omega arith) (postorder-depth f.up 0)))
      (
        (omega arith, omega arith),
        below-IsLevel h bound (preorder f.down 0)
            (All-imp (preorder f.down 0) (λ v k. omega arith) (preorder-depth f.down 0)),
      )

module _ {W : Type 0} ⦃n : Number W⦄ (p : GroupParams W) where
  -- Rows from the height `y` on, each directly below the one before it.
  abbrev pub stack : ℕ → List Item → List (Row W)
  stack y [] = []
  stack y (i ∷ is) =
      record {
        span = i.span;
        x_t = n.mul (child_indent p) (n.of_ℤ i.level);
        y0 = y;
        y_f = y + p.span_widget_height;
        allow_up_button = i.up;
        allow_down_button = i.down;
      }
      ∷ stack (y + p.span_widget_height) is

  abbrev create_all : List Item → Group W → Group W
  create_all [] g = g
  create_all (i ∷ is) g = create_all is (create_span_widget p i.span i.level i.up i.down g)

  create_all-append :
      (is js : List Item) (g : Group W) → create_all (is ++ js) g ≡ create_all js (create_all is g)
  create_all-append [] js g = refl
  create_all-append (i ∷ is) js g =
      create_all-append is js (create_span_widget p i.span i.level i.up i.down g)

  create_all_lem :
      (is : List Item) (g : Group W)
      → create_all is g ≡ record {
        rows = g.rows ++ stack g.span_y is;
        span_y = g.span_y + length is * p.span_widget_height;
      }
  unfolding create_span_widget
  create_all_lem [] g =
      let none_more : g.span_y ≡ g.span_y + 0 * p.span_widget_height = omega arith in
      λ i. record { rows = sym (append-nil g.rows) i; span_y = none_more i }
  create_all_lem (j ∷ is) g =
      let g' = create_span_widget p j.span j.level j.up j.down g in
      let one_more : g'.span_y + length is * p.span_widget_height
          ≡ g.span_y + suc (length is) * p.span_widget_height =
        grind arith in
      create_all_lem is g' ∙ (λ i. record {
        rows = append_assoc g.rows (stack g.span_y (j ∷ [])) (stack g'.span_y is) i;
        span_y = one_more i;
      })

  visit_above :
      (h : ℕ) (vs : List (ℕ × ℕ)) (g : Group W)
      → visit_all (create_above p h) vs g ≡ create_all (above h vs) g
  visit_above h [] g = refl
  visit_above h ((a, zero) ∷ vs) g = visit_above h vs g
  visit_above h ((a, suc d) ∷ vs) g =
      rw (lt→ltb 0 (suc d) (omega arith))
        (visit_above h vs (create_span_widget p a (sub_ℕ h (suc d)) true false g))

  visit_below :
      (h : ℕ) (vs : List (ℕ × ℕ)) (g : Group W)
      → visit_all (create_below p h) vs g ≡ create_all (below h vs) g
  visit_below h [] g = refl
  visit_below h ((a, zero) ∷ vs) g = visit_below h vs g
  visit_below h ((a, suc d) ∷ vs) g =
      rw (lt→ltb 0 (suc d) (omega arith))
        (visit_below h vs (create_span_widget p a (pos (h + suc d)) false true g))

  -- Of a span whose two trees are finite and less high than the fuel, the group has a row for each
  -- parent, in post-order, then one for the span, then one for each child, in pre-order; the rows
  -- stand one directly below the other, between margins of 4, and no row is indented to the left or
  -- by more levels than the two trees are high.
  pub lay_out_lem :
      (st : Store) (fuel : ℕ) (family : Family st p.span)
      → height family.up < fuel
      → height family.down < fuel
      → (lay_out p st fuel
          ≡ some (
            stack (p.y0 + 4) (items family),
            p.y0 + 4 + length (items family) * p.span_widget_height + 4,
          ))
        × All (IsLevel (height family.up + height family.down)) (items family)
  unfolding lay_out
  lay_out_lem st fuel family hu hd =
      let ups = postorder family.up 0 in
      let downs = preorder family.down 0 in
      let h = height family.up in
      let g0 : Group W = record { rows = []; span_y = p.y0 + 4 } in
      let g1 = visit_all (create_above p h) ups g0 in
      let g2 = create_span_widget p p.span (pos h) true true g1 in
      let tall =
        rw family.up_root at
          (tree_height_lem (get_reified_parents st) family.up fuel family.up_tree hu) in
      let first = rw family.up_root at (
        traverse_post_lem (get_reified_parents st) (create_above p h) family.up fuel 0 g0
          family.up_tree hu) in
      let second = rw family.down_root at (
        traverse_pre_lem (get_reified_children st) (create_below p h) family.down fuel 0 g2
          family.down_tree hd) in
      let all : visit_all (create_below p h) downs g2 ≡ create_all (items family) g0 =
        visit_below h downs g2
        ∙ rw (visit_above h ups g0) (
            sym (
              create_all-append (above h ups)
                (record { span = p.span; level = pos h; up = true; down = true } ∷ below h downs)
                g0)) in
      (
        rw (tall, first, second)
            (ap (λ (g : Group W). some (g.rows, g.span_y + 4))
              (all ∙ create_all_lem (items family) g0)),
        items-IsLevel family,
      )
