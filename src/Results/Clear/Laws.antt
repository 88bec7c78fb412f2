-- ===== src/Results/Clear/Laws.antt =====
-- What `clearHandler` takes off the page, and what it leaves.
use incubator_htrace.Prelude.{
  ℕ, ◌<◌, ◌≡◌, ◌≢◌, refl, sym, ap, ◌∙◌, Bool, true, false, not, ◌||◌, ◌&&◌, some, List, [], ◌∷◌,
  ◌++◌, arith, if◌then◌else◌, Bool-cases, inl, inr,
}
use mathlib.Core.List.{append-nil, append_assoc}
use incubator_htrace.Tree.{for_each}
use incubator_htrace.Tree.Rose.{height, preorder, visit_all}
use incubator_htrace.Tree.Traversal.{traverse_pre_lem}
use incubator_htrace.Span.Store.{Store, get_reified_parents, get_reified_children, Family}
use incubator_htrace.Widget.Manager.{contains}
use incubator_htrace.Results.{is_selected, View, render}
use incubator_htrace.Results.Spans.{Families, nodes}
use incubator_htrace.Results.Select.{any_selected}
use incubator_htrace.Results.Clear.{result_selected, mark_all, clear_handler}

-- A result, whether a span is selected among itself and those below it, and whether one is among
-- itself and those above it.
abbrev pub Marked : Type 0
Marked = ℕ × Bool × Bool

abbrev pub marked : {st : Store} {span : ℕ} → Family st span → Marked
marked {st} {span} f =
    (span, any_selected st (nodes (preorder f.down 0)), any_selected st (nodes (preorder f.up 0)))

abbrev pub all_marked :
    (st : Store) (fuel : ℕ) (results : List ℕ) → Families st fuel results → List Marked
all_marked st fuel [] fs = []
all_marked st fuel (r ∷ rs) (f, fs) = marked f.0 ∷ all_marked st fuel rs fs

abbrev pub any_marked : List Marked → Bool
any_marked [] = false
any_marked ((r, below, above) ∷ ms) = (below || above) || any_marked ms

abbrev pub above_marked : List Marked → List ℕ
above_marked [] = []
above_marked ((r, below, above) ∷ ms) = if above then r ∷ above_marked ms else above_marked ms

-- The results that the loop collects, once one is selected: the first one with a selected span,
-- and of the later ones those where a span is selected among themselves and those above them.
abbrev pub doomed : List Marked → List ℕ
doomed [] = []
doomed ((r, below, above) ∷ ms) = if below || above then r ∷ above_marked ms else doomed ms

module _ (st : Store) where
  visit_any :
      (vs : List (ℕ × ℕ)) (r : Bool)
      → visit_all (λ node _ r. if is_selected st node then true else r) vs r
        ≡ (any_selected st (nodes vs) || r)
  visit_any [] r = refl
  visit_any ((a, d) ∷ vs) r = visit_any vs (if is_selected st a then true else r) ∙ ground arith

  visit_nothing : (vs : List (ℕ × ℕ)) (r : Bool) → visit_all (λ (node : ℕ) _ (r : Bool). r) vs r ≡ r
  visit_nothing [] r = refl
  visit_nothing ((a, d) ∷ vs) r = visit_nothing vs r

  result_selected_lem :
      (fuel r : ℕ) (f : Family st r) (none_selected : Bool)
      → height f.up < fuel
      → height f.down < fuel
      → result_selected st fuel none_selected r
        ≡ some (
            (none_selected && any_selected st (nodes (preorder f.down 0)))
            || any_selected st (nodes (preorder f.up 0)))
  unfolding result_selected
  result_selected_lem fuel r f true hu hd =
      let below =
        visit_all (λ node _ r. if is_selected st node then true else r) (preorder f.down 0) false in
      rw
        (
          rw f.down_root at (
              traverse_pre_lem (get_reified_children st)
                (λ node _ r. if is_selected st node then true else r) f.down fuel 0 false
                f.down_tree hd),
          rw f.up_root at (
              traverse_pre_lem (get_reified_parents st)
                (λ node _ r. if is_selected st node then true else r) f.up fuel 0 below f.up_tree
                hu),
        )
        (ap some
          (visit_any (preorder f.up 0) below ∙ ground (arith, visit_any (preorder f.down 0) false)))
  result_selected_lem fuel r f false hu hd =
      let below = visit_all (λ (node : ℕ) _ (r : Bool). r) (preorder f.down 0) false in
      rw
        (
          rw f.down_root at (
              traverse_pre_lem (get_reified_children st) (λ node _ r. r) f.down fuel 0 false
                f.down_tree hd),
          rw f.up_root at (
              traverse_pre_lem (get_reified_parents st)
                (λ node _ r. if is_selected st node then true else r) f.up fuel 0 below f.up_tree
                hu),
        )
        (ap some (
          visit_any (preorder f.up 0) below
          ∙ ground (arith, visit_nothing (preorder f.down 0) false)))

  -- The loop after some result was selected.
  mark_all_later :
      (fuel : ℕ) (results : List ℕ) (fs : Families st fuel results) (d : List ℕ)
      → mark_all st fuel results (record { to_delete = d; none_selected = false })
        ≡ some (record {
          to_delete = d ++ above_marked (all_marked st fuel results fs);
          none_selected = false;
        })
  unfolding mark_all
  mark_all_later fuel [] fs d =
      ap (λ (l : List ℕ). some (record { to_delete = l; none_selected = false }))
        (sym (append-nil d))
  mark_all_later fuel (r ∷ rs) ((f, hu, hd), fs) d =
      rw (result_selected_lem fuel r f false hu hd, for_each)
        (elim (Bool-cases (any_selected st (nodes (preorder f.up 0)))) [
          | inl on ↦ rw on (
              mark_all_later fuel rs fs (d ++ r ∷ [])
              ∙ ap (λ (l : List ℕ). some (record { to_delete = l; none_selected = false }))
                  (append_assoc d (r ∷ []) (above_marked (all_marked st fuel rs fs))))
          | inr off ↦ rw off (mark_all_later fuel rs fs d)
        ])

  mark_all_lem :
      (fuel : ℕ) (results : List ℕ) (fs : Families st fuel results) (d : List ℕ)
      → let ms = all_marked st fuel results fs in
        mark_all st fuel results (record { to_delete = d; none_selected = true })
        ≡ some (record {
          to_delete = if any_marked ms then doomed ms else d ++ results;
          none_selected = not (any_marked ms);
        })
  unfolding mark_all
  mark_all_lem fuel [] fs d =
      ap (λ (l : List ℕ). some (record { to_delete = l; none_selected = true }))
        (sym (append-nil d))
  mark_all_lem fuel (r ∷ rs) ((f, hu, hd), fs) d =
      let ms = all_marked st fuel rs fs in
      rw (result_selected_lem fuel r f true hu hd, for_each)
        (elim (Bool-cases (
          any_selected st (nodes (preorder f.down 0))
          || any_selected st (nodes (preorder f.up 0)))) [
            | inl on ↦ rw on (mark_all_later fuel rs fs (r ∷ []))
            | inr off ↦ rw off (
                mark_all_lem fuel rs fs (d ++ r ∷ [])
                ∙ ap
                    (λ (l : List ℕ). some (record {
                      to_delete = if any_marked ms then doomed ms else l;
                      none_selected = not (any_marked ms);
                    }))
                    (append_assoc d (r ∷ []) rs))
          ])

-- What Backbone documents of `collection.remove(models)`: the models are taken out, and the others
-- keep their order.
pub record IsRemove (remove : List ℕ → List ℕ → List ℕ) : Type 0 where
  pub nil : (ds : List ℕ) → remove [] ds ≡ []
  pub cons :
      (x : ℕ) (xs ds : List ℕ)
      → remove (x ∷ xs) ds ≡ (if contains x ds then remove xs ds else x ∷ remove xs ds)

remove_subset :
    (remove : List ℕ → List ℕ → List ℕ) (law : IsRemove remove) (xs ds : List ℕ)
    → ((x : ℕ) → contains x xs ≡ true → contains x ds ≡ true)
    → remove xs ds ≡ []
remove_subset remove law [] ds h = law.nil ds
remove_subset remove law (x ∷ xs) ds h =
    rw (law.cons x xs ds, h x (ground arith))
      (remove_subset remove law xs ds (λ y k. h y (ground arith)))

module _ (st : Store) (fuel : ℕ) (remove : List ℕ → List ℕ → List ℕ) (v : View)
    (fs : Families st fuel v.search_results) where
  -- Over results with finite trees that are less high than the fuel, if Backbone's `remove` does what
  -- is documented of it and no span on the page is selected, `clearHandler(true)` takes every result
  -- off the page and renders it, and `clearHandler(false)` changes nothing.
  pub clear_handler-none :
      (clear_all : Bool)
      → IsRemove remove
      → any_marked (all_marked st fuel v.search_results fs) ≡ false
      → clear_handler st fuel remove clear_all v
        ≡ some (if clear_all then render (record v { search_results = [] }) else v)
  unfolding clear_handler
  clear_handler-none true law h = rw (
    mark_all_lem st fuel v.search_results fs [],
    h,
    remove_subset remove law v.search_results v.search_results (λ x k. k),
  )
  clear_handler-none false law h = rw (mark_all_lem st fuel v.search_results fs [], h)

  -- Over results with finite trees that are less high than the fuel, if some span on the page is
  -- selected, `clearHandler` renders the page and gives Backbone's `remove` the first result with a
  -- selected span, and of the later ones those where a span is selected among themselves and those
  -- above them.
  pub clear_handler-some :
      (clear_all : Bool)
      → any_marked (all_marked st fuel v.search_results fs) ≡ true
      → clear_handler st fuel remove clear_all v
        ≡ some (
            render (record v {
              search_results =
                  remove v.search_results (doomed (all_marked st fuel v.search_results fs));
            }))
  unfolding clear_handler
  clear_handler-some clear_all h = rw (mark_all_lem st fuel v.search_results fs [], h)

-- Of two different results with finite trees that are less high than the fuel, the first has a
-- selected span among itself and those above it, and the later one has a selected span below it, but
-- none among itself and those above it. Then `clearHandler` takes only the first off the page, if
-- Backbone's `remove` does what is documented of it.
pub clear_handler_keeps_selected :
    (st : Store) (fuel : ℕ) (remove : List ℕ → List ℕ → List ℕ) (v : View) (first later : ℕ)
    (fs : Families st fuel (first ∷ later ∷ [])) (clear_all : Bool)
    → IsRemove remove
    → first ≢ later
    → any_selected st (nodes (preorder fs.0.0.up 0)) ≡ true
    → any_selected st (nodes (preorder fs.1.0.0.down 0)) ≡ true
    → any_selected st (nodes (preorder fs.1.0.0.up 0)) ≡ false
    → clear_handler st fuel remove clear_all (record v { search_results = first ∷ later ∷ [] })
      ≡ some (render (record v { search_results = later ∷ [] }))
clear_handler_keeps_selected st fuel remove v first later fs clear_all law ne h k l =
    clear_handler-some st fuel remove (record v { search_results = first ∷ later ∷ [] }) fs
      clear_all (ground arith)
    ∙ ap (λ (xs : List ℕ). some (render (record v { search_results = xs })))
        (ap (remove (first ∷ later ∷ [])) only_first
          ∙ law.cons first (later ∷ []) (first ∷ [])
          ∙ ground (arith, law.cons later [] (first ∷ []), law.nil (first ∷ [])))
  where
    only_first : doomed (all_marked st fuel (first ∷ later ∷ []) fs) ≡ first ∷ []
    only_first = ground arith
