-- ===== src/Span/Wire.antt =====
-- Writing a span and reading it back, and reading JSON and writing it again.
use incubator_htrace.Prelude.{
  ◌≡◌, ◌≢◌, refl, sym, ap, ◌∙◌, true, false, not, Option, none, some, List, [], ◌∷◌, arith, Text,
  text_eq, text_eq_sound, Bool-cases, ◌⊎◌, inl, inr,
}
use incubator_htrace.Prelude.Int.{ℤ, pos, ltb_ℤ, ◌≤ℤ◌}
use incubator_htrace.Prelude.Sort.{IsSorted, sort-IsSorted, sort_of_IsSorted}
use incubator_htrace.Span.{
  TimeAnnotation, WireSpan, Span, invalid_span_id, text_or, object_or, number_or_zero, is_empty,
  fresh_parents, sort_annotations, parse, given, unparse,
}

abbrev pub InTimeOrder : List TimeAnnotation → Type 0
InTimeOrder = IsSorted (λ (x : TimeAnnotation). x.t)

-- A span as it is when it has just been read, with times that are not before the epoch.
pub record IsFresh (s : Span) : Type 0 where
  pub identified : s.span_id ≢ []
  pub begin_nonneg : pos 0 ≤ℤ s.begin
  pub end_nonneg : pos 0 ≤ℤ s.end
  pub ordered : InTimeOrder s.time_annotations
  pub unselected : s.selected ≡ false
  pub no_children : s.reified_children ≡ none
  pub parents_unread : s.reified_parents ≡ fresh_parents s.parents

span_id-parse-unparse :
    (id : Text)
    → id ≢ []
    → text_or (given (not (text_eq id invalid_span_id)) id) invalid_span_id ≡ id
span_id-parse-unparse [] ne = absurd (ne refl)
span_id-parse-unparse (c ∷ s) ne = elim (Bool-cases (text_eq (c ∷ s) invalid_span_id)) [
  | inl same ↦ rw same (sym (text_eq_sound (c ∷ s) invalid_span_id same))
  | inr other ↦ rw other
]

tracer_id-parse-unparse : (s : Text) → text_or (given (not (text_eq s [])) s) [] ≡ s
tracer_id-parse-unparse [] = refl
tracer_id-parse-unparse (c ∷ s) = refl

text-parse-unparse : (s : Text) → text_or (given (not (is_empty s)) s) [] ≡ s
text-parse-unparse [] = refl
text-parse-unparse (c ∷ s) = refl

list-parse-unparse {ℓ} :
    {A : Type ℓ} (xs : List A) → object_or (given (not (is_empty xs)) xs) [] ≡ xs
list-parse-unparse [] = refl
list-parse-unparse (x ∷ xs) = refl

time-parse-unparse : (x : ℤ) → pos 0 ≤ℤ x → number_or_zero (given (ltb_ℤ (pos 0) x) x) ≡ x
time-parse-unparse x h = ground arith

annotations-parse-unparse :
    (xs : List TimeAnnotation)
    → InTimeOrder xs
    → elim (given (not (is_empty xs)) xs) [ some t ↦ sort_annotations t | none ↦ [] ] ≡ xs
unfolding sort_annotations
annotations-parse-unparse [] h = refl
annotations-parse-unparse (x ∷ xs) h = sort_of_IsSorted (λ (x : TimeAnnotation). x.t) (x ∷ xs) h

-- A span that is fresh is given back by writing it and reading what was written.
pub parse-unparse : (s : Span) → IsFresh s → parse (unparse s) ≡ s
unfolding parse unparse
parse-unparse s h = λ i. record {
  span_id = span_id-parse-unparse s.span_id h.identified i;
  tracer_id = tracer_id-parse-unparse s.tracer_id i;
  parents = list-parse-unparse s.parents i;
  description = text-parse-unparse s.description i;
  begin = time-parse-unparse s.begin h.begin_nonneg i;
  end = time-parse-unparse s.end h.end_nonneg i;
  time_annotations = annotations-parse-unparse s.time_annotations h.ordered i;
  info_annotations = list-parse-unparse s.info_annotations i;
  selected = sym h.unselected i;
  reified_children = sym h.no_children i;
  reified_parents = (ap fresh_parents (list-parse-unparse s.parents) ∙ sym h.parents_unread) i;
}

-- JSON that has no property whose value is the one that its absence stands for, with annotations
-- in the order of their times and times that are not before the epoch.
pub record IsCanonical (w : WireSpan) : Type 0 where
  pub a_given : (w.a ≢ some []) × (w.a ≢ some invalid_span_id)
  pub r_given : w.r ≢ some []
  pub p_given : w.p ≢ some []
  pub d_given : w.d ≢ some []
  pub b_positive : (w.b ≡ none) ⊎ (ltb_ℤ (pos 0) (number_or_zero w.b) ≡ true)
  pub e_positive : (w.e ≡ none) ⊎ (ltb_ℤ (pos 0) (number_or_zero w.e) ≡ true)
  pub t_given : w.t ≢ some []
  pub t_ordered : InTimeOrder (object_or w.t [])
  pub n_given : w.n ≢ some []

a-unparse-parse :
    (o : Option Text)
    → o ≢ some []
    → o ≢ some invalid_span_id
    → given (not (text_eq (text_or o invalid_span_id) invalid_span_id)) (text_or o invalid_span_id)
      ≡ o
a-unparse-parse none h k = refl
a-unparse-parse (some []) h k = absurd (h refl)
a-unparse-parse (some (c ∷ s)) h k = elim (Bool-cases (text_eq (c ∷ s) invalid_span_id)) [
  | inl same ↦ absurd (k (ap some (text_eq_sound (c ∷ s) invalid_span_id same)))
  | inr other ↦ rw other
]

r-unparse-parse :
    (o : Option Text) → o ≢ some [] → given (not (text_eq (text_or o []) [])) (text_or o []) ≡ o
r-unparse-parse none h = refl
r-unparse-parse (some []) h = absurd (h refl)
r-unparse-parse (some (c ∷ s)) h = refl

d-unparse-parse :
    (o : Option Text) → o ≢ some [] → given (not (is_empty (text_or o []))) (text_or o []) ≡ o
d-unparse-parse none h = refl
d-unparse-parse (some []) h = absurd (h refl)
d-unparse-parse (some (c ∷ s)) h = refl

list-unparse-parse {ℓ} :
    {A : Type ℓ} (o : Option (List A))
    → o ≢ some []
    → given (not (is_empty (object_or o []))) (object_or o []) ≡ o
list-unparse-parse none h = refl
list-unparse-parse (some []) h = absurd (h refl)
list-unparse-parse (some (x ∷ xs)) h = refl

time-unparse-parse :
    (o : Option ℤ)
    → (o ≡ none) ⊎ (ltb_ℤ (pos 0) (number_or_zero o) ≡ true)
    → given (ltb_ℤ (pos 0) (number_or_zero o)) (number_or_zero o) ≡ o
time-unparse-parse none h = refl
time-unparse-parse (some x) h = ground arith

abbrev read_annotations : Option (List TimeAnnotation) → List TimeAnnotation
read_annotations o = elim o [ some t ↦ sort_annotations t | none ↦ [] ]

read_annotations_of_ordered :
    (o : Option (List TimeAnnotation))
    → InTimeOrder (object_or o [])
    → read_annotations o ≡ object_or o []
unfolding sort_annotations
read_annotations_of_ordered none h = refl
read_annotations_of_ordered (some xs) h = sort_of_IsSorted (λ (x : TimeAnnotation). x.t) xs h

-- Canonical JSON is given back by reading it and writing the span.
pub unparse-parse : (w : WireSpan) → IsCanonical w → unparse (parse w) ≡ w
unfolding parse unparse
unparse-parse w h = λ i. record {
  a = a-unparse-parse w.a h.a_given.0 h.a_given.1 i;
  r = r-unparse-parse w.r h.r_given i;
  p = list-unparse-parse w.p h.p_given i;
  d = d-unparse-parse w.d h.d_given i;
  b = time-unparse-parse w.b h.b_positive i;
  e = time-unparse-parse w.e h.e_positive i;
  t =
      (ap (λ (xs : List TimeAnnotation). given (not (is_empty xs)) xs)
            (read_annotations_of_ordered w.t h.t_ordered)
          ∙ list-unparse-parse w.t h.t_given)
        i;
  n = list-unparse-parse w.n h.n_given i;
}

-- What is read is fresh, if the times are not before the epoch.
pub parse-IsFresh :
    (w : WireSpan) → pos 0 ≤ℤ number_or_zero w.b → pos 0 ≤ℤ number_or_zero w.e → IsFresh (parse w)
unfolding parse sort_annotations
parse-IsFresh w hb he = record {
  identified = text_or-ne-nil w.a;
  begin_nonneg = hb;
  end_nonneg = he;
  ordered = ordered w.t;
  unselected = refl;
  no_children = refl;
  parents_unread = refl;
}
  where
    text_or-ne-nil : (o : Option Text) → text_or o invalid_span_id ≢ []
    text_or-ne-nil none e = cc
    text_or-ne-nil (some []) e = cc
    text_or-ne-nil (some (c ∷ s)) e = cc

    ordered : (o : Option (List TimeAnnotation)) → InTimeOrder (read_annotations o)
    ordered none = tt
    ordered (some xs) = sort-IsSorted (λ (x : TimeAnnotation). x.t) xs

-- Writing what was read and reading it again changes nothing, whatever the JSON left out or held
-- out of order, if its times are not before the epoch.
pub parse-unparse-parse :
    (w : WireSpan)
    → pos 0 ≤ℤ number_or_zero w.b
    → pos 0 ≤ℤ number_or_zero w.e
    → parse (unparse (parse w)) ≡ parse w
parse-unparse-parse w hb he = parse-unparse (parse w) (parse-IsFresh w hb he)
