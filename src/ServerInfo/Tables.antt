-- ===== src/ServerInfo/Tables.antt =====
-- The tables written by loops, as the rows that they have.
use mathlib.Core.List.{Perm}
use mathlib.Core.List.{append-nil, append_assoc}
use incubator_htrace.Prelude.{
  ℕ, suc, ◌≡◌, refl, sym, ap, ◌∙◌, false, some, List, [], ◌∷◌, ◌++◌, Text, text, text_eq,
  text_eq_refl, text_lt, text_lt_trans, compare_texts, compare_texts_gt, compare_texts_le, All,
  All-imp, Bool-cases, inl, inr,
}
use incubator_htrace.Prelude.Sort.{sort, sort-perm}
use incubator_htrace.Prelude.Order.{IsOrder, IsOrdered, sort-IsOrdered, All-sort}
use incubator_htrace.SpanWidget.Details.{get}
use incubator_htrace.ServerInfo.{
  SpanMetrics, keys_of, stats_head, stats_row, add_stats_rows, get_server_stats_table_html,
  add_rows, color_string,
}

-- Not above another text.
abbrev pub NotAbove : Text → Text → Type 0
NotAbove s t = text_lt t s ≡ false

compare_texts-IsOrder : IsOrder compare_texts NotAbove
compare_texts-IsOrder = record {
  gt = λ s t h. compare_texts_gt s t h;
  le = λ s t h. compare_texts_le s t h;
  trans = λ s t u h k. text_lt_trans s t u h k;
}

-- The HTML of some rows, one behind the other.
abbrev pub rows_html : List (Text × SpanMetrics) → Text
rows_html [] = []
rows_html (row ∷ rows) = stats_row row.0 row.1 ++ rows_html rows

abbrev HasMetrics : List (Text × SpanMetrics) → Text → Type 0
HasMetrics o k = (v : SpanMetrics) × (get o k ≡ some v)

all_found : (o : List (Text × SpanMetrics)) → All (HasMetrics o) (keys_of o)
all_found [] = tt
all_found ((key, value) ∷ o) =
    ((value, rw (text_eq_refl key)), All-imp (keys_of o) (λ k found. more k found) (all_found o))
  where
    more : (k : Text) → HasMetrics o k → HasMetrics ((key, value) ∷ o) k
    more k (v, e) = elim (Bool-cases (text_eq key k)) [
      | inl same ↦ (value, rw same)
      | inr other ↦ (v, rw other e)
    ]

add_stats_rows_lem :
    (o : List (Text × SpanMetrics)) (ks : List Text) (out : Text)
    → All (HasMetrics o) ks
    → (rows : List (Text × SpanMetrics)) × (keys_of rows ≡ ks)
      × All (λ row. get o row.0 ≡ some row.1) rows
      × (add_stats_rows o ks out ≡ some (out ++ rows_html rows))
unfolding add_stats_rows
add_stats_rows_lem o [] out h = ([], refl, tt, ap some (sym (append-nil out)))
add_stats_rows_lem o (k ∷ ks) out ((v, e), h) =
    let (rows, named, own, q) = add_stats_rows_lem o ks (out ++ stats_row k v) h in
    (
      (k, v) ∷ rows,
      ap (λ l. k ∷ l) named,
      (e, own),
      rw (add_stats_rows, e) (q ∙ ap some (append_assoc out (stats_row k v) (rows_html rows))),
    )

-- The table of the span metrics is written without an exception: a row for each remote, with its own
-- metrics, and no other, in the order of the names.
pub get_server_stats_table_html_lem :
    (span_metrics : List (Text × SpanMetrics))
    → (rows : List (Text × SpanMetrics)) × (get_server_stats_table_html span_metrics
        ≡ some ((stats_head ++ rows_html rows) ++ text "</table>"))
      × Perm (keys_of rows) (keys_of span_metrics)
      × IsOrdered compare_texts NotAbove (keys_of rows)
      × All (λ row. get span_metrics row.0 ≡ some row.1) rows
unfolding get_server_stats_table_html
get_server_stats_table_html_lem o =
    let ks = sort compare_texts (keys_of o) in
    let found =
      All-sort compare_texts NotAbove compare_texts-IsOrder (HasMetrics o) (keys_of o)
        (all_found o) in
    let (rows, named, own, q) = add_stats_rows_lem o ks stats_head found in
    (
      rows,
      rw q,
      rw named (sort-perm compare_texts (keys_of o)),
      rw named (sort-IsOrdered compare_texts NotAbove compare_texts-IsOrder (keys_of o)),
      own,
    )

-- The rows of a table with every other row grey.
module _ {A : Type 0} (template : (bgcolor key : Text) → A → Text) where
  abbrev pub striped : ℕ → List (Text × A) → Text
  striped i [] = []
  striped i (row ∷ rows) = template (color_string template i) row.0 row.1 ++ striped (suc i) rows

  -- The loop that writes a table is the same as writing its rows one behind the other.
  pub add_rows_lem :
      (i : ℕ) (rows : List (Text × A)) (out : Text)
      → add_rows template i rows out ≡ out ++ striped i rows
  unfolding add_rows
  add_rows_lem i [] out = sym (append-nil out)
  add_rows_lem i ((key, val) ∷ rows) out =
      let row = template (color_string template i) key val in
      add_rows_lem (suc i) rows (out ++ row) ∙ append_assoc out row (striped (suc i) rows)
