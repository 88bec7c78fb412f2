-- ===== src/SpanWidget/Details.antt =====
-- `htrace.showSpanDetails` of span_widget.js: the rows of the table that a double click on a span
-- shows; ServerInfo has the loop that writes such a table. The objects `info` and `explicitOrder`
-- are lists of pairs in which the last one set is the first.
pub mod Keys
pub mod Rows
use Prim.Native.Nat.{Ordering}
use incubator_htrace.Prelude.{
  ℕ, ◌≡◌, refl, Bool, true, false, ltb, Option, none, some, List, [], ◌∷◌, ◌++◌, Text, text,
  text_eq, text_lt, if◌then◌else◌, arith, map,
}
use incubator_htrace.Prelude.Int.{ℤ, ◌-ℤ◌}
use incubator_htrace.Prelude.Sort.{sort}
use incubator_htrace.Format.{MomentJs, date_to_string, to_string}
use incubator_htrace.Span.{Span, TimeAnnotation}

-- What a row says: a text, or the ids of the parents.
pub data Value : Type 0 where
  shown : Text → Value
  ids : List Text → Value

-- `o[k]`, on which undefined is `none`.
abbrev pub get {ℓ} : {A : Type ℓ} → List (Text × A) → Text → Option A
get [] k = none
get ((key, v) ∷ o) k = if text_eq key k then some v else get o k

-- `keys`, `info` and `explicitOrder`.
pub record Details : Type 0 where
  pub keys : List Text
  pub info : List (Text × Value)
  pub explicit_order : List (Text × ℕ)

-- A key of its own, which comes behind all others.
unfoldable pub add_annotation : Text → Value → Details → Details
add_annotation key value d = record {
  keys = d.keys ++ key ∷ [];
  info = (key, value) ∷ d.info;
  explicit_order = (key, 200) ∷ d.explicit_order;
}

-- What is done with a key that has no rule of its own.
unfoldable pub add_attribute : Text → Value → Details → Details
add_attribute key value d = record d {
  keys = d.keys ++ key ∷ [];
  info = elim (get d.info key) [ none ↦ (key, value) ∷ d.info | some v ↦ d.info ];
}

-- `explicitOrder[a] || 100`
abbrev pub order_of : List (Text × ℕ) → Text → ℕ
order_of order key = elim (get order key) [ none ↦ 100 | some o ↦ o ]

-- The comparison that the keys are sorted by.
abbrev pub compare_keys : List (Text × ℕ) → Text → Text → Ordering
compare_keys order a b =
    if ltb (order_of order a) (order_of order b)
    then Ordering.lt
    else if ltb (order_of order b) (order_of order a)
    then Ordering.gt
    else if text_lt a b
    then Ordering.lt
    else if text_lt b a
    then Ordering.gt
    else Ordering.eq

module _ (m : MomentJs) where
  unfoldable pub duration : Span → Text
  duration span = to_string (span.end -ℤ span.begin) ++ text " ms"

  unfoldable pub initial_details : Span → Details
  unfolding duration
  initial_details span = record {
    keys = text "duration" ∷ [];
    info =
        (text "begin", shown (date_to_string m span.begin))
        ∷ (text "end", shown (date_to_string m span.end))
        ∷ (text "duration", shown (duration span))
        ∷ [];
    explicit_order =
        (text "spanId", 1) ∷ (text "begin", 2) ∷ (text "end", 3) ∷ (text "duration", 4) ∷ [];
  }

  unfoldable pub add_time_annotations : List TimeAnnotation → Details → Details
  unfolding add_annotation
  add_time_annotations [] d = d
  add_time_annotations (a ∷ annotations) d =
      add_time_annotations annotations (add_annotation (date_to_string m a.t) (shown a.m) d)

  unfoldable pub add_info_annotations : List (Text × Text) → Details → Details
  unfolding add_annotation
  add_info_annotations [] d = d
  add_info_annotations ((key, value) ∷ annotations) d =
      add_info_annotations annotations
        (add_annotation (text "[" ++ key ++ text "]") (shown value) d)

  -- The loop over the attributes, in the order in which `parse` set them; the last three are left
  -- out.
  unfoldable pub collect_details : Span → Details
  unfolding initial_details add_attribute add_time_annotations add_info_annotations
  collect_details span =
      let d0 = initial_details span in
      let d1 = add_attribute (text "spanId") (shown span.span_id) d0 in
      let d2 = add_attribute (text "tracerId") (shown span.tracer_id) d1 in
      let d3 = add_attribute (text "parents") (ids span.parents) d2 in
      let d4 = add_attribute (text "description") (shown span.description) d3 in
      let d5 = add_attribute (text "begin") (shown (to_string span.begin)) d4 in
      let d6 = add_attribute (text "end") (shown (to_string span.end)) d5 in
      add_info_annotations span.info_annotations (add_time_annotations span.time_annotations d6)

  -- The rows of the table: the keys in order, with what `info` has of each.
  unfoldable pub show_span_details : Span → List (Text × Option Value)
  unfolding collect_details
  show_span_details span =
      let d = collect_details span in
      map (λ k. (k, get d.info k)) (sort (compare_keys d.explicit_order) d.keys)
