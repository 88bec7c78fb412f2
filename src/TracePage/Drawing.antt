-- ===== src/TracePage/Drawing.antt =====
-- Where the bars of a trace stand, as spans.js of the HBase receiver tells d3.
--
-- A horizontal place or width is a fraction. Where the program divides by 0 it has no number to draw
-- with, here `none`. `d3.min`, `d3.max` and the scale of d3 are parameters.
use incubator_htrace.Prelude.{ℕ, zero, suc, Option, none, some, ◌+◌, ◌*◌, ◌≡◌, List, [], ◌∷◌, All}
use incubator_htrace.Prelude.Int.{ℤ, pos, pos_part, neg_part, sub_ℕ, ◌+ℤ◌, ◌-ℤ◌, ◌≤ℤ◌, ◌<ℤ◌, negsuc}
use incubator_htrace.TracePage.{TraceSpan}

abbrev pub width_span : ℕ
width_span = 700

abbrev pub height_span : ℕ
height_span = 20

abbrev process_margin : ℕ
process_margin = 250

abbrev pub times : ℕ → ℤ → ℤ
times k x = sub_ℕ (pos_part x * k) (neg_part x * k)

pub record Fraction : Type 0 where
  pub over : ℤ
  pub under : ℤ

-- `a / b`; by 0 it is NaN or infinite.
abbrev pub divide : ℤ → ℤ → Option Fraction
divide a (pos zero) = none
divide a (pos (suc n)) = some (record { over = a; under = pos (suc n) })
divide a (negsuc n) = some (record { over = a; under = negsuc n })

abbrev pub plus_one : Option Fraction → Option Fraction
plus_one none = none
plus_one (some f) = some (record f { over = f.over +ℤ f.under })

-- The group of a span: its row, the place of the text beside it, and its bar.
pub record TraceBar : Type 0 where
  pub y : ℕ
  pub label_x : ℤ
  pub x : Option Fraction
  pub width : Option Fraction

module _ (cell : ℕ → TraceSpan) (tmin tmax : ℤ) (xscale : ℤ → Option Fraction) where
  unfoldable pub trace_bar : (i : ℕ) → ℕ × ℕ → TraceBar
  trace_bar i (e, depth) = record {
    y = i * height_span + 5;
    label_x = pos (depth * 10) -ℤ pos process_margin;
    x = xscale (cell e).start;
    width = plus_one (divide (times width_span ((cell e).stop -ℤ (cell e).start)) (tmax -ℤ tmin));
  }

  -- The bars of the rows from `i` on.
  unfoldable pub trace_bars : (i : ℕ) → List (ℕ × ℕ) → List TraceBar
  unfolding trace_bar
  trace_bars i [] = []
  trace_bars i (row ∷ rows) = trace_bar i row ∷ trace_bars (suc i) rows

  -- What d3 documents of the least and the greatest value, and of a scale, which is linear from the
  -- ends of its domain to those of its range; the domain must not be a single time.
  pub record IsRange (spans : List ℕ) : Type 0 where
    pub earliest : All (λ e. tmin ≤ℤ (cell e).start) spans
    pub latest : All (λ e. (cell e).stop ≤ℤ tmax) spans
    pub linear :
        tmin <ℤ tmax
        → (t : ℤ)
        → xscale t ≡ some (record { over = times width_span (t -ℤ tmin); under = tmax -ℤ tmin })

  -- The bar has a place and a width, fractions with `tmax - tmin` below the line; and it lies on the
  -- page, which is one pixel wider than the scale.
  abbrev pub IsOnPage : TraceBar → Type 0
  IsOnPage b =
      (x : Fraction) × (width : Fraction) × (b.x ≡ some x)
      × (b.width ≡ some width)
      × (x.under ≡ tmax -ℤ tmin)
      × (width.under ≡ tmax -ℤ tmin)
      × (pos 0 ≤ℤ x.over)
      × (x.over +ℤ width.over ≤ℤ times (width_span + 1) (tmax -ℤ tmin))

  -- Each row is directly below the one before.
  abbrev pub IsStacked : List TraceBar → Type 0
  IsStacked [] = Unit
  IsStacked (b ∷ []) = Unit
  IsStacked (b ∷ c ∷ bs) = (c.y ≡ b.y + height_span) × IsStacked (c ∷ bs)
