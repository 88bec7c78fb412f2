-- ===== src/Span/Store.antt =====
-- The span models that the page holds. Models are shared: a span is listed as a result, as a
-- parent and as a child, so they stand in a store and are named by their place in it.
use incubator_htrace.Prelude.{ℕ, ◌≡◌, Bool, List, [], arith, ◌==◌, if◌then◌else◌}
use incubator_htrace.Tree.Rose.{Rose, root, IsTreeOf}
use incubator_htrace.Span.{Span, object_or}

-- Places from `next` on are unused.
pub record Store : Type 0 where
  pub cell : ℕ → Span
  pub next : ℕ

-- `htrace.getReifiedParents`: null is read as the empty array.
unfoldable pub get_reified_parents : Store → ℕ → List ℕ
get_reified_parents st span = object_or (st.cell span).reified_parents []

-- `htrace.getReifiedChildren`
unfoldable pub get_reified_children : Store → ℕ → List ℕ
get_reified_children st span = object_or (st.cell span).reified_children []

unfoldable pub update : Store → ℕ → Span → Store
update st k s = record st { cell = λ j. if j == k then s else st.cell j }

-- `span.set("selected", value)`
unfoldable pub set_selected : Store → ℕ → Bool → Store
unfolding update
set_selected st k value = update st k (record (st.cell k) { selected = value })

-- What a selection changes: the one attribute of the one model.
pub set_selected_lem :
    (st : Store) (k : ℕ) (value : Bool) (j : ℕ)
    → ((set_selected st k value).cell j).selected ≡ (if j == k then value else (st.cell j).selected)
unfolding set_selected
set_selected_lem st k value j = ground arith

pub reified_parents-set_selected :
    (st : Store) (k : ℕ) (value : Bool) (j : ℕ)
    → get_reified_parents (set_selected st k value) j ≡ get_reified_parents st j
unfolding get_reified_parents set_selected
reified_parents-set_selected st k value j = ground arith

pub reified_children-set_selected :
    (st : Store) (k : ℕ) (value : Bool) (j : ℕ)
    → get_reified_children (set_selected st k value) j ≡ get_reified_children st j
unfolding get_reified_children set_selected
reified_children-set_selected st k value j = ground arith

-- The two trees of a span: upwards over its reified parents, downwards over its reified children.
pub record Family (st : Store) (span : ℕ) : Type 0 where
  pub up : Rose ℕ
  pub down : Rose ℕ
  pub up_root : root up ≡ span
  pub down_root : root down ≡ span
  pub up_tree : IsTreeOf (get_reified_parents st) up
  pub down_tree : IsTreeOf (get_reified_children st) down
