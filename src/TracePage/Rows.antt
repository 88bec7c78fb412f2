-- ===== src/TracePage/Rows.antt =====
-- The rows of a trace whose spans form finite trees.
use mathlib.Core.List.{append-nil, append_assoc}
use incubator_htrace.Prelude.{
  ℕ, zero, suc, ◌+◌, ◌<◌, ◌≡◌, refl, sym, ap, ◌∙◌, Option, none, some, List, [], ◌∷◌, ◌++◌, Text,
  ◌==◌, arith, Option-cases, Bool-cases, inl, inr, ==_iff,
}
use incubator_htrace.Prelude.Sort.{compare_by, sort}
use incubator_htrace.Tree.{for_each}
use incubator_htrace.Widget.Triangle.Session.{==_refl}
use incubator_htrace.Tree.Rose.{
  Rose, Forest, node, nil, cons, root, roots, height, levels, IsTreeOf, AreTreesOf, preorder,
  preorders,
}
use incubator_htrace.TracePage.{
  TraceSpan, Children, root_span_id, with_parent, if_any, IsNest, set_children, add_step,
  visit_step, addchildren, traverse, sorted_rows,
}

abbrev pub to_list : Option (List ℕ) → List ℕ
to_list none = []
to_list (some xs) = xs

module _ (cell : ℕ → TraceSpan) (byparent : Text → Option (List ℕ)) where
  -- The spans below a span.
  abbrev pub below : ℕ → List ℕ
  below e = to_list (byparent (cell e).span_id)

  -- The children of a span are set, if it has any.
  abbrev IsAdded : Children → ℕ → Type 0
  IsAdded children e = children e ≡ byparent (cell e).span_id

  -- Nothing that was set is changed.
  abbrev Extends : Children → Children → Type 0
  Extends c c' = (e : ℕ) → IsAdded c e → IsAdded c' e

  abbrev mutual
    AllAdded : Children → Rose ℕ → Type 0
    AllAdded c (node e f) = IsAdded c e × AllAddedEach c f

    AllAddedEach : Children → Forest ℕ → Type 0
    AllAddedEach c nil = Unit
    AllAddedEach c (cons t f) = AllAdded c t × AllAddedEach c f

  -- Spans without children of their own have none set either.
  abbrev IsPart : Children → Type 0
  IsPart c = (e : ℕ) → (byparent (cell e).span_id ≡ none) → c e ≡ none

  mutual
    AllAdded-Extends : (c c' : Children) (t : Rose ℕ) → Extends c c' → AllAdded c t → AllAdded c' t
    AllAdded-Extends c c' (node e f) h k = (h e k.0, AllAddedEach-Extends c c' f h k.1)

    AllAddedEach-Extends :
        (c c' : Children) (f : Forest ℕ) → Extends c c' → AllAddedEach c f → AllAddedEach c' f
    AllAddedEach-Extends c c' nil h k = tt
    AllAddedEach-Extends c c' (cons t f) h k =
        (AllAdded-Extends c c' t h k.0, AllAddedEach-Extends c c' f h k.1)

  -- What adding the children of some spans comes to.
  abbrev Added : Children → Option Children → (Children → Type 0) → Type 0
  Added c result P = (c' : Children) × (result ≡ some c') × Extends c c' × P c' × IsPart c'

  IsPart-set :
      (c : Children) (e : ℕ) (found : List ℕ)
      → byparent (cell e).span_id ≡ some found
      → IsPart c
      → IsPart (set_children cell byparent c e found)
  IsPart-set c e found h p j k = elim (Bool-cases (j == e)) [
    | inl same ↦
        let q : none ≡ some found =
          sym k ∙ ap (λ i. byparent (cell i).span_id) ((==_iff j e).0 same) ∙ h in
        cc
    | inr other ↦ rw other (p j k)
  ]

  Extends-set :
      (c : Children) (e : ℕ) (found : List ℕ)
      → byparent (cell e).span_id ≡ some found
      → Extends c (set_children cell byparent c e found)
  Extends-set c e found h j k = elim (Bool-cases (j == e)) [
    | inl same ↦ rw same (sym h ∙ ap (λ i. byparent (cell i).span_id) (sym ((==_iff j e).0 same)))
    | inr other ↦ rw other k
  ]

  no_roots : (c : Children) (f : Forest ℕ) → [] ≡ roots f → AllAddedEach c f
  no_roots c nil h = tt
  no_roots c (cons t f) h = cc

  mutual
    unfolding addchildren for_each

    add_one :
        (t : Rose ℕ) (fuel : ℕ) (c : Children)
        → IsTreeOf below t
        → height t < fuel
        → IsPart c
        → Added c
            (add_step cell byparent (addchildren cell byparent fuel) (root t) c)
            (λ c'. AllAdded c' t)
    add_one t zero c h l p = absurd (omega arith)
    add_one (node e g) (suc fuel) c h l p = elim (Option-cases (byparent (cell e).span_id)) [
      | inl leaf ↦ (
        c,
        rw (add_step, leaf),
        (λ j k. k),
        (p e leaf ∙ sym leaf, no_roots c g (ap to_list (sym leaf) ∙ h.0)),
        p,
      )
      | inr (found, q) ↦
          let c1 = set_children cell byparent c e found in
          let (c2, s2, x2, a2, p2) = add_each g fuel c1 h.1 l (IsPart-set c e found q p) in
          let listed : found ≡ roots g = ap to_list (sym q) ∙ h.0 in
          let here : IsAdded c1 e = rw (==_refl e) (sym q) in
          (
            c2,
            rw (add_step, q) (ap (λ ks. addchildren cell byparent (suc fuel) ks c1) listed ∙ s2),
            (λ j k. x2 j (Extends-set c e found q j k)),
            (x2 e here, a2),
            p2,
          )
    ]

    add_each :
        (f : Forest ℕ) (fuel : ℕ) (c : Children)
        → AreTreesOf below f
        → levels f < suc fuel
        → IsPart c
        → Added c (addchildren cell byparent (suc fuel) (roots f) c) (λ c'. AllAddedEach c' f)
    add_each nil fuel c h l p = (c, refl, (λ e k. k), tt, p)
    add_each (cons t f) fuel c h l p =
        let (c1, e1, x1, a1, p1) = add_one t fuel c h.0 (omega arith) p in
        let (c2, e2, x2, a2, p2) = add_each f fuel c1 h.1 (omega arith) p1 in
        (c2, rw (for_each, e1) e2, (λ e k. x2 e (x1 e k)), (AllAdded-Extends c1 c2 t x2 a1, a2), p2)

  no_order : (f : Forest ℕ) (depth : ℕ) → [] ≡ roots f → preorders f depth ≡ []
  no_order nil depth h = refl
  no_order (cons t f) depth h = cc

  mutual
    unfolding traverse for_each visit_step

    visit_one :
        (t : Rose ℕ) (c : Children) (fuel depth : ℕ) (done : List (ℕ × ℕ))
        → IsTreeOf below t
        → AllAdded c t
        → height t < fuel
        → visit_step c (traverse c fuel (depth + 1)) depth (root t) done
          ≡ some (done ++ preorder t depth)
    visit_one t c zero depth done h k l = absurd (omega arith)
    visit_one (node e g) c (suc fuel) depth done h k l =
        elim (Option-cases (byparent (cell e).span_id)) [
          | inl leaf ↦
              rw (visit_step, k.0, leaf, no_order g (depth + 1) (ap to_list (sym leaf) ∙ h.0))
          | inr (found, q) ↦
              let listed : found ≡ roots g = ap to_list (sym q) ∙ h.0 in
              rw (visit_step, k.0, q, listed)
                (visit_each g c fuel (depth + 1) (done ++ (e, depth) ∷ []) h.1 k.1 l
                  ∙ ap some (append_assoc done ((e, depth) ∷ []) (preorders g (depth + 1))))
        ]

    visit_each :
        (f : Forest ℕ) (c : Children) (fuel depth : ℕ) (done : List (ℕ × ℕ))
        → AreTreesOf below f
        → AllAddedEach c f
        → levels f < suc fuel
        → traverse c (suc fuel) depth (roots f) done ≡ some (done ++ preorders f depth)
    visit_each nil c fuel depth done h k l = ap some (sym (append-nil done))
    visit_each (cons t f) c fuel depth done h k l =
        rw (for_each, visit_one t c fuel depth done h.0 k.0 (omega arith))
          (visit_each f c fuel depth (done ++ preorder t depth) h.1 k.1 (omega arith)
            ∙ ap some (append_assoc done (preorder t depth) (preorders f depth)))

module _ (cell : ℕ → TraceSpan) (nest : List ℕ → Text → Option (List ℕ)) (law : IsNest cell nest)
    (spans : List ℕ) where
  -- The spans with one parent, by their start.
  abbrev pub sorted_below : Text → List ℕ
  sorted_below k = sort (compare_by (λ e. (cell e).start)) (with_parent cell k spans)

  to_list-if_any : (xs : List ℕ) → to_list (if_any cell xs) ≡ xs
  to_list-if_any [] = refl
  to_list-if_any (x ∷ xs) = refl

  below-nest : (e : ℕ) → below cell (nest spans) e ≡ sorted_below (cell e).span_id
  below-nest e =
      rw (law.get spans (cell e).span_id) (to_list-if_any (sorted_below (cell e).span_id))

  mutual
    tree_below :
        (t : Rose ℕ)
        → IsTreeOf (λ e. sorted_below (cell e).span_id) t
        → IsTreeOf (below cell (nest spans)) t
    tree_below (node e f) h = (below-nest e ∙ h.0, trees_below f h.1)

    trees_below :
        (f : Forest ℕ)
        → AreTreesOf (λ e. sorted_below (cell e).span_id) f
        → AreTreesOf (below cell (nest spans)) f
    trees_below nil h = tt
    trees_below (cons t f) h = (tree_below t h.0, trees_below f h.1)

  -- If the spans below the root form finite trees, each node with the spans that name it as their
  -- parent, by their start, below it, and there is a span below the root, then the rows of the page
  -- are the nodes of these trees, each above those below it, at their depths, if the fuel is more
  -- than the number of levels and `d3.nest` does what is documented of it.
  pub sorted_rows_lem :
      (t : Rose ℕ) (f : Forest ℕ) (fuel : ℕ)
      → sorted_below root_span_id ≡ roots (cons t f)
      → AreTreesOf (λ e. sorted_below (cell e).span_id) (cons t f)
      → levels (cons t f) < fuel
      → sorted_rows cell nest fuel spans ≡ some (preorders (cons t f) 0)
  unfolding sorted_rows
  sorted_rows_lem t f zero top h l = absurd (omega arith)
  sorted_rows_lem t f (suc fuel) top h l =
      let trees = trees_below (cons t f) h in
      let l' : levels (cons t f) < suc fuel = l in
      let found : nest spans root_span_id ≡ some (roots (cons t f)) =
        law.get spans root_span_id ∙ ap (if_any cell) top in
      let (c, e, x, added, p) =
        add_each cell (nest spans) (cons t f) fuel (λ e. none) trees l' (λ e k. refl) in
      rw (found, e) (visit_each cell (nest spans) (cons t f) c fuel 0 [] trees added l')
