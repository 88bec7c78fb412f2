-- ===== src/Examples/Trace.antt =====
-- A trace of three spans: one below the root, and two below it.
use incubator_htrace.Prelude.{
  ℕ, ◌≡◌, refl, Option, some, List, [], ◌∷◌, Text, text, arith, ◌==◌, if◌then◌else◌,
}
use incubator_htrace.Prelude.Int.{ℤ, pos, ◌-ℤ◌}
use incubator_htrace.Prelude.Sort.{compare_by, sort, insert_sorted}
use incubator_htrace.Tree.Rose.{Rose, node, nil, cons}
use incubator_htrace.TracePage.{TraceSpan, with_parent, if_any, IsNest, sorted_rows}
use incubator_htrace.TracePage.Drawing.{Fraction, width_span, times}
use incubator_htrace.TracePage.Rows.{sorted_rows_lem}

abbrev cell : ℕ → TraceSpan
cell k =
    if k == 1
    then record { span_id = text "1"; parent_id = text "0"; start = pos 10; stop = pos 90 }
    else if k == 2
    then record { span_id = text "2"; parent_id = text "1"; start = pos 50; stop = pos 60 }
    else record { span_id = text "3"; parent_id = text "1"; start = pos 20; stop = pos 40 }

abbrev nest : List ℕ → Text → Option (List ℕ)
nest spans k = if_any cell (sort (compare_by (λ e. (cell e).start)) (with_parent cell k spans))

nest-IsNest : IsNest cell nest
nest-IsNest = record { get = λ spans k. refl }

abbrev tree : Rose ℕ
tree = node 1 (cons (node 3 nil) (cons (node 2 nil) nil))

sorted_rows_lem_example :
    sorted_rows cell nest 3 (1 ∷ 2 ∷ 3 ∷ []) ≡ some ((1, 0) ∷ (3, 1) ∷ (2, 1) ∷ [])
unfolding sort insert_sorted
sorted_rows_lem_example =
    sorted_rows_lem cell nest nest-IsNest (1 ∷ 2 ∷ 3 ∷ []) tree nil 3 refl
      ((refl, ((refl, tt), ((refl, tt), tt))), tt) (omega arith)

-- The scale of d3 from the begin of the first span on.
abbrev xscale : ℤ → Option Fraction
xscale t = some (record { over = times width_span (t -ℤ pos 10); under = pos 90 -ℤ pos 10 })
