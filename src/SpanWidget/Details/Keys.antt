-- ===== src/SpanWidget/Details/Keys.antt =====
-- The keys that are collected from a span, and that each of them has a value.
use mathlib.Core.List.{append-nil, append_assoc}
use incubator_htrace.Prelude.{
  ◌≡◌, inl, inr, refl, sym, ap, ◌∙◌, some, List, [], ◌∷◌, ◌++◌, Text, text, text_eq, All, All-imp,
  All-append, Option-cases, Bool-cases, text_eq_refl,
}
use incubator_htrace.Format.{MomentJs, date_to_string, to_string}
use incubator_htrace.Span.{Span, TimeAnnotation}
use incubator_htrace.SpanWidget.Details.{
  Value, shown, ids, get, Details, add_annotation, add_attribute, initial_details,
  add_time_annotations, add_info_annotations, collect_details,
}

-- A key with a value.
abbrev pub HasValue : List (Text × Value) → Text → Type 0
HasValue info key = (v : Value) × (get info key ≡ some v)

abbrev IsFilled : Details → Type 0
IsFilled d = All (HasValue d.info) d.keys

HasValue-more :
    (key : Text) (value : Value) (info : List (Text × Value)) (k : Text)
    → HasValue info k
    → HasValue ((key, value) ∷ info) k
HasValue-more key value info k (v, e) = elim (Bool-cases (text_eq key k)) [
  | inl same ↦ (value, rw same)
  | inr other ↦ (v, rw other e)
]

add_annotation-IsFilled :
    (key : Text) (value : Value) (d : Details) → IsFilled d → IsFilled (add_annotation key value d)
unfolding add_annotation
add_annotation-IsFilled key value d h =
    All-append (HasValue ((key, value) ∷ d.info)) d.keys (key ∷ [])
      (All-imp d.keys (λ k s. HasValue-more key value d.info k s) h)
      ((value, rw (text_eq_refl key)), tt)

add_attribute-IsFilled :
    (key : Text) (value : Value) (d : Details) → IsFilled d → IsFilled (add_attribute key value d)
unfolding add_attribute
add_attribute-IsFilled key value d h = elim (Option-cases (get d.info key)) [
  | inl missing ↦
      rw (add_attribute, missing)
        (All-append (HasValue ((key, value) ∷ d.info)) d.keys (key ∷ [])
          (All-imp d.keys (λ k s. HasValue-more key value d.info k s) h)
          ((value, rw (text_eq_refl key)), tt))
  | inr (v, e) ↦
      rw (add_attribute, e) (All-append (HasValue d.info) d.keys (key ∷ []) h ((v, e), tt))
]

module _ (m : MomentJs) where
  abbrev pub time_keys : List TimeAnnotation → List Text
  time_keys [] = []
  time_keys (a ∷ annotations) = date_to_string m a.t ∷ time_keys annotations

  abbrev pub info_keys : List (Text × Text) → List Text
  info_keys [] = []
  info_keys ((key, value) ∷ annotations) = (text "[" ++ key ++ text "]") ∷ info_keys annotations

  -- What the table is to tell of a span.
  abbrev pub detail_keys : Span → List Text
  detail_keys span =
      text "duration"
        ∷ text "spanId"
        ∷ text "tracerId"
        ∷ text "parents"
        ∷ text "description"
        ∷ text "begin"
        ∷ text "end"
        ∷ time_keys span.time_annotations
      ++ info_keys span.info_annotations

  time_lem :
      (annotations : List TimeAnnotation) (d : Details)
      → IsFilled d
      → IsFilled (add_time_annotations m annotations d)
        × ((add_time_annotations m annotations d).keys ≡ d.keys ++ time_keys annotations)
  unfolding add_time_annotations
  time_lem [] d h = (h, sym (append-nil d.keys))
  time_lem (a ∷ annotations) d h =
      let key = date_to_string m a.t in
      let d' = add_annotation key (shown a.m) d in
      let (filled, e) = time_lem annotations d' (add_annotation-IsFilled key (shown a.m) d h) in
      (filled, e ∙ append_assoc d.keys (key ∷ []) (time_keys annotations))

  info_lem :
      (annotations : List (Text × Text)) (d : Details)
      → IsFilled d
      → IsFilled (add_info_annotations m annotations d)
        × ((add_info_annotations m annotations d).keys ≡ d.keys ++ info_keys annotations)
  unfolding add_info_annotations
  info_lem [] d h = (h, sym (append-nil d.keys))
  info_lem ((name, value) ∷ annotations) d h =
      let key = text "[" ++ name ++ text "]" in
      let d' = add_annotation key (shown value) d in
      let (filled, e) = info_lem annotations d' (add_annotation-IsFilled key (shown value) d h) in
      (filled, e ∙ append_assoc d.keys (key ∷ []) (info_keys annotations))

  pub collect_lem :
      (span : Span)
      → IsFilled (collect_details m span) × ((collect_details m span).keys ≡ detail_keys span)
  unfolding collect_details initial_details add_attribute
  collect_lem span =
      let d0 = initial_details m span in
      let d1 = add_attribute (text "spanId") (shown span.span_id) d0 in
      let d2 = add_attribute (text "tracerId") (shown span.tracer_id) d1 in
      let d3 = add_attribute (text "parents") (ids span.parents) d2 in
      let d4 = add_attribute (text "description") (shown span.description) d3 in
      let d5 = add_attribute (text "begin") (shown (to_string span.begin)) d4 in
      let d6 = add_attribute (text "end") (shown (to_string span.end)) d5 in
      let f0 : IsFilled d0 = ((_, refl), tt) in
      let f1 = add_attribute-IsFilled (text "spanId") (shown span.span_id) d0 f0 in
      let f2 = add_attribute-IsFilled (text "tracerId") (shown span.tracer_id) d1 f1 in
      let f3 = add_attribute-IsFilled (text "parents") (ids span.parents) d2 f2 in
      let f4 = add_attribute-IsFilled (text "description") (shown span.description) d3 f3 in
      let f5 = add_attribute-IsFilled (text "begin") (shown (to_string span.begin)) d4 f4 in
      let f6 = add_attribute-IsFilled (text "end") (shown (to_string span.end)) d5 f5 in
      let (f7, timed) = time_lem span.time_annotations d6 f6 in
      let d7 = add_time_annotations m span.time_annotations d6 in
      let (f8, informed) = info_lem span.info_annotations d7 f7 in
      (f8, informed ∙ ap (λ ks. ks ++ info_keys span.info_annotations) timed)
