-- ===== src/SpanWidget/Links.antt =====
-- A click on a span changes no link between the spans, so that the families of the results stay.
use incubator_htrace.Prelude.{
  ℕ, ◌≡◌, refl, ◌∙◌, Bool, true, false, some, List, [], ◌∷◌, if◌then◌else◌, not, ◌==◌, Bool-cases,
  inl, inr,
}
use incubator_htrace.Tree.Rose.{Rose, Forest, node, nil, cons, IsTreeOf, AreTreesOf}
use incubator_htrace.Span.Store.{
  Store, Family, get_reified_parents, get_reified_children, set_selected,
  reified_parents-set_selected, reified_children-set_selected,
}
use incubator_htrace.Results.{is_selected}
use incubator_htrace.Results.Spans.{Families, all_spans, fold, apply_to_all_spans_lem}
use incubator_htrace.Widget.{
  Number, Event, EventType, mouse_down, mouse_up, mouse_move, mouse_out, dblclick, draw,
}
use incubator_htrace.Canvas.Bars.{SpanWidget}
use incubator_htrace.SpanWidget.Row.{Spans, in_row, press_row, turn_row, handle_row}
use incubator_htrace.SpanWidget.{select_only, select_span}

-- The same links.
abbrev pub SameLinks : Store → Store → Type 0
SameLinks st st' =
    ((j : ℕ) → get_reified_parents st' j ≡ get_reified_parents st j)
    × ((j : ℕ) → get_reified_children st' j ≡ get_reified_children st j)

module _ (get get' : ℕ → List ℕ) (same : (j : ℕ) → get' j ≡ get j) where
  mutual
    tree_same : (t : Rose ℕ) → IsTreeOf get t → IsTreeOf get' t
    tree_same (node a f) h = (same a ∙ h.0, trees_same f h.1)

    trees_same : (f : Forest ℕ) → AreTreesOf get f → AreTreesOf get' f
    trees_same nil h = tt
    trees_same (cons t f) h = (tree_same t h.0, trees_same f h.1)

Family-same : (st st' : Store) (span : ℕ) → SameLinks st st' → Family st span → Family st' span
Family-same st st' span same f = record {
  up = f.up;
  down = f.down;
  up_root = f.up_root;
  down_root = f.down_root;
  up_tree = tree_same (get_reified_parents st) (get_reified_parents st') same.0 f.up f.up_tree;
  down_tree =
      tree_same (get_reified_children st) (get_reified_children st') same.1 f.down f.down_tree;
}

pub Families-same :
    (st st' : Store) (fuel : ℕ) (results : List ℕ)
    → SameLinks st st'
    → Families st fuel results
    → Families st' fuel results
unfolding Family-same
Families-same st st' fuel [] same fs = tt
Families-same st st' fuel (r ∷ rs) same ((f, hu, hd), fs) =
    ((Family-same st st' r same f, hu, hd), Families-same st st' fuel rs same fs)

set_selected-SameLinks :
    (st : Store) (k : ℕ) (value : Bool) → SameLinks st (set_selected st k value)
set_selected-SameLinks st k value = (
  λ j. reified_parents-set_selected st k value j,
  λ j. reified_children-set_selected st k value j,
)

same : (st : Store) → SameLinks st st
same st = (λ j. refl, λ j. refl)

SameLinks-trans : (s t u : Store) → SameLinks s t → SameLinks t u → SameLinks s u
SameLinks-trans s t u h k = (λ j. k.0 j ∙ h.0 j, λ j. k.1 j ∙ h.1 j)

SameLinks-if :
    (st s t : Store) (test : Bool)
    → SameLinks st s
    → SameLinks st t
    → SameLinks st (if test then s else t)
SameLinks-if st s t true h k = h
SameLinks-if st s t false h k = k

select_only-SameLinks : (this span : ℕ) (st : Store) → SameLinks st (select_only this span st)
unfolding select_only
select_only-SameLinks this span st =
    let on = set_selected-SameLinks st span true in
    let off = set_selected-SameLinks st span false in
    let sel = is_selected st span in
    let t = set_selected st span true in
    let f = set_selected st span false in
    SameLinks-if st (if not sel then t else st) (if sel then f else st) (this == span)
      (SameLinks-if st t st (not sel) on (same st)) (SameLinks-if st f st sel off (same st))

fold-SameLinks :
    (this : ℕ) (xs : List ℕ) (st : Store) → SameLinks st (fold (select_only this) xs st)
fold-SameLinks this [] st = same st
fold-SameLinks this (x ∷ xs) st =
    SameLinks-trans st (select_only this x st) (fold (select_only this) xs (select_only this x st))
      (select_only-SameLinks this x st) (fold-SameLinks this xs (select_only this x st))

-- A click on a span comes to an end, and changes no link.
pub select_span-SameLinks :
    (st : Store) (fuel : ℕ) (results : List ℕ) (families : Families st fuel results)
    (ctrl_key : Bool) (this : ℕ)
    → (st' : Store) × (select_span fuel results ctrl_key this st ≡ some st') × SameLinks st st'
unfolding select_span
select_span-SameLinks st fuel results families true this =
    let sel = is_selected st this in
    let t = set_selected st this true in
    let f = set_selected st this false in
    (
      if sel then f else t,
      refl,
      SameLinks-if st f t sel (set_selected-SameLinks st this false)
          (set_selected-SameLinks st this true),
    )
select_span-SameLinks st fuel results families false this = (
  fold (select_only this) (all_spans st fuel results families) st,
  apply_to_all_spans_lem (select_only this) st fuel results families st,
  fold-SameLinks this (all_spans st fuel results families) st,
)

-- Whatever event a row handles, the handler comes to an end, and changes no link.
module _ {W : Type 0} ⦃n : Number W⦄ (fuel : ℕ) (results : List ℕ) (w : SpanWidget W) (span : ℕ)
    (e : Event W) (p : Spans) (fs : Families p.models fuel results) where
  press_row-SameLinks :
      (p' : Spans) × (press_row fuel results w span e p ≡ some p') × SameLinks p.models p'.models
  unfolding press_row
  press_row-SameLinks = elim (Bool-cases (in_row fuel results w span e)) [
    | inr miss ↦ (p, rw (press_row, miss), same p.models)
    | inl hit ↦
        let (st, done, links) = select_span-SameLinks p.models fuel results fs e.ctrl_key span in
        (record p { models = st }, rw (press_row, hit, done), links)
  ]

  details-SameLinks :
      (test : Bool)
      → SameLinks p.models (if test then record p { details = span ∷ p.details } else p).models
  details-SameLinks true = same p.models
  details-SameLinks false = same p.models

  pub handle_row-SameLinks :
      (p' : Spans) × ((handle_row fuel results w span e p).0 ≡ some p')
      × SameLinks p.models p'.models
  unfolding handle_row turn_row
  handle_row-SameLinks = by_type e.type
    where
      by_type :
          (t : EventType)
          → (p' : Spans) × ((turn_row fuel results w span t e p).0 ≡ some p')
            × SameLinks p.models p'.models
      by_type mouse_down = press_row-SameLinks
      by_type mouse_up = (p, refl, same p.models)
      by_type mouse_move = (p, refl, same p.models)
      by_type mouse_out = (p, refl, same p.models)
      by_type draw = (p, refl, same p.models)
      by_type dblclick = (
        (if in_row fuel results w span e then record p { details = span ∷ p.details } else p),
        refl,
        details-SameLinks (in_row fuel results w span e),
      )
