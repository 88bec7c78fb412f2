-- ===== src/Span.antt =====
-- htrace-webapp/src/main/webapp/app/span.js: the attributes of a span model, and how a span is
-- read from the JSON that htraced sends and is written back to it.
--
-- A time in JSON is an integer (an int64 of milliseconds, within the integers that a JavaScript
-- number holds), so `parseInt` gives it back. A reference to another span model is a number: its
-- place in a store of models (Span.Store).
pub mod Wire
pub mod Store
pub mod Extent
pub mod Ajax
pub mod Reify
pub mod Print
use incubator_htrace.Prelude.{
  ℕ, Bool, true, false, not, Option, none, some, List, [], ◌∷◌, Text, text, text_eq, if◌then◌else◌,
}
use incubator_htrace.Prelude.Int.{ℤ, pos, negsuc, ltb_ℤ}
use incubator_htrace.Prelude.Sort.{compare_by, sort}

pub record TimeAnnotation : Type 0 where
  pub t : ℤ
  pub m : Text

-- The JSON object of a span. A property that is absent is `none`.
pub record WireSpan : Type 0 where
  pub a : Option Text
  pub r : Option Text
  pub p : Option (List Text)
  pub d : Option Text
  pub b : Option ℤ
  pub e : Option ℤ
  pub t : Option (List TimeAnnotation)
  pub n : Option (List (Text × Text))

-- The attributes of `htrace.Span`; `none` is null.
pub record Span : Type 0 where
  pub span_id : Text
  pub tracer_id : Text
  pub parents : List Text
  pub description : Text
  pub begin : ℤ
  pub end : ℤ
  pub time_annotations : List TimeAnnotation
  pub info_annotations : List (Text × Text)
  pub selected : Bool
  pub reified_children : Option (List ℕ)
  pub reified_parents : Option (List ℕ)

abbrev pub invalid_span_id : Text
invalid_span_id = text "00000000000000000000000000000000"

-- `x ? x : d` for a string: the empty string and an absent property are falsy.
abbrev pub text_or : Option Text → Text → Text
text_or none d = d
text_or (some []) d = d
text_or (some (c ∷ s)) d = c ∷ s

-- `x ? x : d` for an object or array, which is always truthy.
abbrev pub object_or {ℓ} : {A : Type ℓ} → Option A → A → A
object_or none d = d
object_or (some x) d = x

-- `x ? parseInt(x, 10) : 0`
abbrev pub number_or_zero : Option ℤ → ℤ
number_or_zero none = pos 0
number_or_zero (some x) = x

abbrev pub is_empty {ℓ} : {A : Type ℓ} → List A → Bool
is_empty [] = true
is_empty (x ∷ xs) = false

-- `reifiedParents` of a span with these parents, before they are looked up.
abbrev pub fresh_parents : List Text → Option (List ℕ)
fresh_parents parents = if is_empty parents then some [] else none

unfoldable pub sort_annotations : List TimeAnnotation → List TimeAnnotation
sort_annotations = sort (compare_by (λ (x : TimeAnnotation). x.t))

unfoldable pub parse : WireSpan → Span
parse response = record {
  span_id = text_or response.a invalid_span_id;
  tracer_id = text_or response.r [];
  parents = object_or response.p [];
  description = text_or response.d [];
  begin = number_or_zero response.b;
  end = number_or_zero response.e;
  time_annotations = elim response.t [ some t ↦ sort_annotations t | none ↦ [] ];
  info_annotations = object_or response.n [];
  selected = false;
  reified_children = none;
  reified_parents = fresh_parents (object_or response.p []);
}

-- A property that is set under a test.
abbrev pub given {ℓ} : {A : Type ℓ} → Bool → A → Option A
given test x = if test then some x else none

unfoldable pub unparse : Span → WireSpan
unparse s = record {
  a = given (not (text_eq s.span_id invalid_span_id)) s.span_id;
  r = given (not (text_eq s.tracer_id [])) s.tracer_id;
  p = given (not (is_empty s.parents)) s.parents;
  d = given (not (is_empty s.description)) s.description;
  b = given (ltb_ℤ (pos 0) s.begin) s.begin;
  e = given (ltb_ℤ (pos 0) s.end) s.end;
  t = given (not (is_empty s.time_annotations)) s.time_annotations;
  n = given (not (is_empty s.info_annotations)) s.info_annotations;
}
