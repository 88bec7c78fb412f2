-- ===== src/Examples/Data.antt =====
-- A small page: three span models, and instances of the parameters.
use incubator_htrace.Prelude.{
  ℕ, ◌+◌, ◌-◌, ◌*◌, ◌/◌, ◌≡◌, refl, Bool, true, false, some, List, [], ◌∷◌, length, Text, text,
  arith, leb, ltb, ◌==◌, if◌then◌else◌,
}
use incubator_htrace.Prelude.Int.{ℤ, pos, ltb_ℤ, pos_part}
use incubator_htrace.Tree.Rose.{node, nil, cons}
use incubator_htrace.Span.{Span}
use incubator_htrace.Span.Store.{Store, Family, get_reified_parents, get_reified_children}
use incubator_htrace.Format.{MomentJs, to_string}
use incubator_htrace.Widget.{
  Number, Event, mouse_down, mouse_move, mouse_out, mouse_up, IsWithout, no_listeners,
  set_listeners,
}
use incubator_htrace.Widget.Manager.{contains}
use incubator_htrace.Widget.Partition.{Partition}
use incubator_htrace.Widget.Triangle.{Triangle, up}
use incubator_htrace.Widget.Triangle.Session.{Session}
use incubator_htrace.Results.{View}
use incubator_htrace.Results.Spans.{Families}
use incubator_htrace.Results.Clear.Laws.{IsRemove}

abbrev pub span_id : Text
span_id = text "0123456789abcdef0123456789abcdef"

abbrev pub span : ℤ → ℤ → Bool → List ℕ → List ℕ → Span
span begin end selected parents children = record {
  span_id = span_id;
  tracer_id = [];
  parents = [];
  description = text "getFileInfo";
  begin = begin;
  end = end;
  time_annotations = [];
  info_annotations = [];
  selected = selected;
  reified_children = some children;
  reified_parents = some parents;
}

-- Span 0 is selected and alone; span 1 has the child 2, which is selected; span 3 is alone and not
-- selected.
abbrev pub cells : ℕ → Span
cells k =
    if k == 0
    then span (pos 5) (pos 9) true [] []
    else if k == 1
    then span (pos 20) (pos 40) false [] (2 ∷ [])
    else if k == 2
    then span (pos 10) (pos 50) true (1 ∷ []) []
    else span (pos 60) (pos 70) false [] []

abbrev pub store : Store
store = record { cell = cells; next = 4 }

pub links_0 : (get_reified_parents store 0 ≡ []) × (get_reified_children store 0 ≡ [])
unfolding get_reified_parents get_reified_children
links_0 = (refl, refl)

pub links_1 : (get_reified_parents store 1 ≡ []) × (get_reified_children store 1 ≡ 2 ∷ [])
unfolding get_reified_parents get_reified_children
links_1 = (refl, refl)

pub children_2 : get_reified_children store 2 ≡ []
unfolding get_reified_children
children_2 = refl

abbrev pub family_0 : Family store 0
family_0 = record {
  up = node 0 nil;
  down = node 0 nil;
  up_root = refl;
  down_root = refl;
  up_tree = (links_0.0, tt);
  down_tree = (links_0.1, tt);
}

abbrev pub family_1 : Family store 1
family_1 = record {
  up = node 1 nil;
  down = node 1 (cons (node 2 nil) nil);
  up_root = refl;
  down_root = refl;
  up_tree = (links_1.0, tt);
  down_tree = (links_1.1, ((children_2, tt), tt));
}

pub links_3 : (get_reified_parents store 3 ≡ []) × (get_reified_children store 3 ≡ [])
unfolding get_reified_parents get_reified_children
links_3 = (refl, refl)

abbrev pub family_3 : Family store 3
family_3 = record {
  up = node 3 nil;
  down = node 3 nil;
  up_root = refl;
  down_root = refl;
  up_tree = (links_3.0, tt);
  down_tree = (links_3.1, tt);
}

abbrev pub families : Families store 3 (0 ∷ 1 ∷ [])
families = ((family_0, omega arith, omega arith), ((family_1, omega arith, omega arith), tt))

abbrev pub view : View
view = record {
  search_results = 0 ∷ 1 ∷ [];
  window = record { begin = pos 0; end = pos 100; scale = 0 };
  shown = record { begin = pos 0; end = pos 100; scale = 0 };
  renders = 0;
}

abbrev pub remove_all : List ℕ → List ℕ → List ℕ
remove_all [] ds = []
remove_all (x ∷ xs) ds = if contains x ds then remove_all xs ds else x ∷ remove_all xs ds

pub remove_all-IsRemove : IsRemove remove_all
remove_all-IsRemove = record { nil = λ ds. refl; cons = λ x xs ds. refl }

abbrev pub without_all : List ℕ → ℕ → List ℕ
without_all [] w = []
without_all (v ∷ vs) w = if v == w then without_all vs w else v ∷ without_all vs w

pub without_all-IsWithout : IsWithout without_all
without_all-IsWithout = record { nil = λ w. refl; cons = λ v vs w. refl }

instance abbrev pub whole_pixels : Number ℕ
whole_pixels = record {
  of_ℤ = pos_part;
  le = leb;
  lt = ltb;
  add = λ a b. a + b;
  sub = λ a b. a - b;
  mul = λ a b. a * b;
  div = λ a b. a / b;
  floor = λ a. a;
}

abbrev pub button : Triangle ℕ
button = record { x0 = 10; x_f = 20; y0 = 10; y_f = 20; direction = up; selected = false }

-- The partition, which is not selected.
abbrev pub idle_partition : Partition ℕ
idle_partition = record {
  x0 = 100;
  x_f = 110;
  y0 = 0;
  y_f = 600;
  x_min = 50;
  x_max = 500;
  selected = false;
}

-- The button is widget 7; it listens to presses, behind the partition, which is widget 3.
abbrev pub session : Session ℕ (Partition ℕ)
session = record {
  others = idle_partition;
  button = button;
  listeners = set_listeners no_listeners mouse_down (3 ∷ 7 ∷ []);
  calls = 0;
}

abbrev pub press_event : Event ℕ
press_event = record { type = mouse_down; x = 15; y = 15; ctrl_key = false }

abbrev pub move_event : Event ℕ
move_event = record { type = mouse_move; x = 12; y = 19; ctrl_key = false }

abbrev pub out_event : Event ℕ
out_event = record { type = mouse_out; x = 0; y = 0; ctrl_key = false }

abbrev pub release_event : Event ℕ
release_event = record { type = mouse_up; x = 12; y = 19; ctrl_key = false }

-- Moments by their milliseconds; a text is valid by a format of its length.
abbrev pub moments : MomentJs
moments = record {
  Moment = ℤ;
  utc = λ ms. ms;
  utc_strict = λ val f. if length val == length f then pos (length f) else pos 0;
  is_valid = λ d. ltb_ℤ (pos 0) d;
  utc_of = λ d. d;
  value_of = λ d. some d;
  now = pos 1;
  format = λ d f. to_string d;
}
