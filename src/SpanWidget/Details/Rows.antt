-- ===== src/SpanWidget/Details/Rows.antt =====
-- The rows of the details of a span: which there are, and in what order.
use Prim.Native.Nat.{Ordering}
use mathlib.Core.List.{Perm}
use incubator_htrace.Prelude.{text_lt, text_lt_trans, text_lt_asym}
use incubator_htrace.Prelude.{
  ℕ, ◌<◌, ◌≡◌, ◌⊎◌, inl, inr, refl, ap, ◌∙◌, Bool, true, false, ltb, Option, some, List, [], ◌∷◌,
  Text, if◌then◌else◌, arith, map, All,
}
use incubator_htrace.Prelude.Sort.{sort, sort-perm}
use incubator_htrace.Prelude.Order.{IsOrder, IsOrdered, sort-IsOrdered, All-sort}
use incubator_htrace.Format.{MomentJs}
use incubator_htrace.Span.{Span}
use incubator_htrace.SpanWidget.Details.{
  Value, get, order_of, compare_keys, collect_details, show_span_details,
}
use incubator_htrace.SpanWidget.Details.Keys.{detail_keys, HasValue, collect_lem}

-- One key goes above another: it has a smaller order, or the same and a text that is not greater.
abbrev pub GoesAbove : List (Text × ℕ) → Text → Text → Type 0
GoesAbove order a b =
    (order_of order a < order_of order b)
    ⊎ ((order_of order a ≡ order_of order b) × (text_lt b a ≡ false))

-- A comparison by a number and then by a test.
by_both_gt :
    (m n : ℕ) (x y : Bool)
    → (if ltb m n
        then Ordering.lt
        else if ltb n m
        then Ordering.gt
        else if x
        then Ordering.lt
        else if y
        then Ordering.gt
        else Ordering.eq)
      ≡ Ordering.gt
    → (n < m) ⊎ ((n ≡ m) × (x ≡ false))
by_both_gt m n x y h = ground arith

by_both_le :
    (m n : ℕ) (x y : Bool)
    → (x ≡ true → y ≡ false)
    → let c =
        if ltb m n
        then Ordering.lt
        else if ltb n m
        then Ordering.gt
        else if x
        then Ordering.lt
        else if y
        then Ordering.gt
        else Ordering.eq in
      (c ≡ Ordering.lt) ⊎ (c ≡ Ordering.eq) → (m < n) ⊎ ((m ≡ n) × (y ≡ false))
by_both_le m n x y asym h = ground arith

compare_keys-IsOrder : (order : List (Text × ℕ)) → IsOrder (compare_keys order) (GoesAbove order)
compare_keys-IsOrder order = record {
  gt = λ a b h. by_both_gt (order_of order a) (order_of order b) (text_lt a b) (text_lt b a) h;
  le = λ a b h.
      by_both_le (order_of order a) (order_of order b) (text_lt a b) (text_lt b a)
        (text_lt_asym a b) h;
  trans = λ a b c h k. elim h [
    | inl l ↦ elim k [ inl l' ↦ inl (omega arith) | inr (e, _) ↦ inl (omega arith) ]
    | inr (e, f) ↦ elim k [
      | inl l' ↦ inl (omega arith)
      | inr (e', f') ↦ inr (e ∙ e', text_lt_trans a b c f f')
    ]
  ];
}

abbrev pub names : List (Text × Option Value) → List Text
names [] = []
names (row ∷ rows) = row.0 ∷ names rows

names-map : (f : Text → Option Value) (ks : List Text) → names (map (λ k. (k, f k)) ks) ≡ ks
names-map f [] = refl
names-map f (k ∷ ks) = ap (λ l. k ∷ l) (names-map f ks)

All-rows :
    (info : List (Text × Value)) (ks : List Text)
    → All (HasValue info) ks
    → All
        (λ (row : Text × Option Value). (v : Value) × (row.1 ≡ some v))
        (map (λ k. (k, get info k)) ks)
All-rows info [] h = tt
All-rows info (k ∷ ks) h = (h.0, All-rows info ks h.1)

-- The details of a span have a row for its duration, for each of its attributes but those that hold
-- other models or its selection, and for each of its annotations, and no other; every row has a
-- value; and the rows are in the order of `explicitOrder`, and by name where that says nothing.
pub show_span_details_lem :
    (m : MomentJs) (span : Span)
    → let rows = show_span_details m span in
      let order = (collect_details m span).explicit_order in
      Perm (names rows) (detail_keys m span)
      × All (λ row. (v : Value) × (row.1 ≡ some v)) rows
      × IsOrdered (compare_keys order) (GoesAbove order) (names rows)
unfolding show_span_details
show_span_details_lem m span =
    let d = collect_details m span in
    let cmp = compare_keys d.explicit_order in
    let o = compare_keys-IsOrder d.explicit_order in
    let (filled, keys) = collect_lem m span in
    let named = names-map (get d.info) (sort cmp d.keys) in
    (
      rw (named, ← keys) (sort-perm cmp d.keys),
      All-rows d.info (sort cmp d.keys)
          (All-sort cmp (GoesAbove d.explicit_order) o (HasValue d.info) d.keys filled),
      rw named (sort-IsOrdered cmp (GoesAbove d.explicit_order) o d.keys),
    )
