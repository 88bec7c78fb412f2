-- ===== src/Results/Timeline/Zoom.antt =====
-- What `zoomHandler` shows.
use incubator_htrace.Prelude.{
  ℕ, ◌+◌, ◌*◌, ◌^◌, ◌≤◌, ◌≡◌, ◌≢◌, refl, some, List, [], ◌∷◌, arith, inl, inr,
}
use native.Mathlib.Nat.{mul-le-mul_right, add-mul}
use incubator_htrace.Prelude.Int.{
  ℤ, pos, pos_part, neg_part, sub_ℕ_parts, ◌≤ℤ◌, ltb_ℤ-cases, ≤ℤ_trans,
}
use incubator_htrace.Tree.{for_each}
use incubator_htrace.Span.Store.{Store}
use incubator_htrace.Span.Extent.{get_earliest_begin, get_latest_end}
use incubator_htrace.Results.{View, render}
use incubator_htrace.Results.Spans.{Families, all_spans}
use incubator_htrace.Results.Select.{selected_or_all, get_selected_spans_or_all_spans_lem}
use incubator_htrace.Results.Timeline.{in_units, set_times, extend, zoom_to, zoom_handler}
use incubator_htrace.Results.Timeline.Bounds.{Shows, set_times-Shows}

scale_mono : (a b c d k : ℕ) → a + d ≤ c + b → a * k + d * k ≤ c * k + b * k
scale_mono a b c d k h = omega (arith, mul-le-mul_right k h, add-mul a d k, add-mul c b k)

in_units_mono : (scale : ℕ) (a b : ℤ) → a ≤ℤ b → in_units scale a ≤ℤ in_units scale b
in_units_mono scale a b h = omega (
  arith,
  scale_mono (pos_part a) (neg_part a) (pos_part b) (neg_part b) (2 ^ scale) h,
  sub_ℕ_parts (pos_part a * 2 ^ scale) (neg_part a * 2 ^ scale),
  sub_ℕ_parts (pos_part b * 2 ^ scale) (neg_part b * 2 ^ scale),
)

in_units-Shows :
    (v : View) (lo hi x : ℤ)
    → Shows v.window lo
    → Shows v.window hi
    → lo ≤ℤ x
    → x ≤ℤ hi
    → Shows v.window x
in_units-Shows v lo hi x (a, b) (c, d) l r =
    let left = in_units_mono v.window.scale lo x l in
    let right = in_units_mono v.window.scale x hi r in
    (
      ≤ℤ_trans v.window.begin (in_units v.window.scale lo) (in_units v.window.scale x) a left,
      ≤ℤ_trans (in_units v.window.scale x) (in_units v.window.scale hi) v.window.end right d,
    )

module _ (st : Store) (fuel : ℕ) where
  -- The earliest begin and the latest end of a span are found, and lie after the epoch, in order.
  pub record Extent (span : ℕ) : Type 0 where
    pub begin : ℤ
    pub end : ℤ
    pub begin_found : get_earliest_begin st fuel span ≡ some begin
    pub end_found : get_latest_end st fuel span ≡ some end
    pub begin_late : pos 1 ≤ℤ begin
    pub in_order : begin ≤ℤ end

  -- An extent for each of the spans.
  abbrev pub Extents : List ℕ → Type 0
  Extents [] = Unit
  Extents (a ∷ xs) = Extent a × Extents xs

  -- Each extent lies between the two times.
  abbrev pub Within : ℤ → ℤ → (xs : List ℕ) → Extents xs → Type 0
  Within lo hi [] es = Unit
  Within lo hi (a ∷ xs) (x, es) = ((lo ≤ℤ x.begin) × (x.end ≤ℤ hi)) × Within lo hi xs es

  extend_lem :
      (xs : List ℕ) (es : Extents xs) (lo hi : ℤ)
      → pos 1 ≤ℤ lo
      → (lo' : ℤ) × (hi' : ℤ) × (extend st fuel xs (lo, hi) ≡ some (lo', hi'))
        × (pos 1 ≤ℤ lo')
        × (lo' ≤ℤ lo)
        × (hi ≤ℤ hi')
        × Within lo' hi' xs es
  unfolding extend for_each
  extend_lem [] es lo hi h = (lo, hi, refl, h, omega arith, omega arith, tt)
  extend_lem (a ∷ xs) (x, es) lo hi h = elim (ltb_ℤ-cases x.begin lo) [
    | inl (b, lt) ↦ elim (ltb_ℤ-cases hi x.end) [
      | inl (e, lt') ↦
          let (lo', hi', q, l, m, n, w) = extend_lem xs es x.begin x.end x.begin_late in
          (
            lo',
            hi',
            rw (for_each, x.begin_found, x.end_found, b, e) q,
            l,
            omega arith,
            omega arith,
            ((omega arith, omega arith), w),
          )
      | inr (e, le) ↦
          let (lo', hi', q, l, m, n, w) = extend_lem xs es x.begin hi x.begin_late in
          (
            lo',
            hi',
            rw (for_each, x.begin_found, x.end_found, b, e) q,
            l,
            omega arith,
            omega arith,
            ((omega arith, omega arith), w),
          )
    ]
    | inr (b, le) ↦ elim (ltb_ℤ-cases hi x.end) [
      | inl (e, lt') ↦
          let (lo', hi', q, l, m, n, w) = extend_lem xs es lo x.end h in
          (
            lo',
            hi',
            rw (for_each, x.begin_found, x.end_found, b, e) q,
            l,
            omega arith,
            omega arith,
            ((omega arith, omega arith), w),
          )
      | inr (e, le') ↦
          let (lo', hi', q, l, m, n, w) = extend_lem xs es lo hi h in
          (
            lo',
            hi',
            rw (for_each, x.begin_found, x.end_found, b, e) q,
            l,
            omega arith,
            omega arith,
            ((omega arith, omega arith), w),
          )
    ]
  ]

  -- The window shows the extent of each of the spans.
  abbrev pub ShowsAll : View → (xs : List ℕ) → Extents xs → Type 0
  ShowsAll v [] es = Unit
  ShowsAll v (a ∷ xs) (x, es) = (Shows v.window x.begin × Shows v.window x.end) × ShowsAll v xs es

  Shows-Within :
      (v : View) (lo hi : ℤ) (xs : List ℕ) (es : Extents xs)
      → Within lo hi xs es
      → Shows v.window lo
      → Shows v.window hi
      → ShowsAll v xs es
  Shows-Within v lo hi [] es w l h = tt
  Shows-Within v lo hi (a ∷ xs) (x, es) ((b, e), w) l h =
      let ordered = x.in_order in
      (
        (
          in_units-Shows v lo hi x.begin l h b (omega arith),
          in_units-Shows v lo hi x.end l h (omega arith) e,
        ),
        Shows-Within v lo hi xs es w l h,
      )

  zoom_to_lem :
      (v : View) (xs : List ℕ) (es : Extents xs)
      → xs ≢ []
      → (v' : View) × (zoom_to st fuel v xs ≡ some v') × ShowsAll v' xs es
  zoom_to_lem v [] es ne = absurd (ne refl)
  zoom_to_lem v (a ∷ xs) es ne =
      let (lo, hi, q, l, _, _, w) =
        extend_lem (a ∷ xs) es (pos 4503599627370496) (pos 0) (omega arith) in
      let first = es.0.begin_late in
      let ordered = es.0.in_order in
      let last = w.0.1 in
      let v' = set_times (some lo) (some hi) v in
      let (sl, sh) = set_times-Shows lo hi v (nonzero lo l) (nonzero hi (omega arith)) in
      (render v', rw q, Shows-Within v' lo hi (a ∷ xs) es w sl sh)
    where
      nonzero : (x : ℤ) → pos 1 ≤ℤ x → x ≢ pos 0
      nonzero x h e = ground arith

  -- Over results with finite trees that are less high than the fuel: if the page has spans, and
  -- each of those that are selected (or each at all, if none is) has an earliest begin and a latest
  -- end, after the epoch and in order, then `zoomHandler` comes to a window that shows all of these
  -- times.
  pub zoom_handler_lem :
      (v : View) (families : Families st fuel v.search_results)
      (es : Extents (selected_or_all st (all_spans st fuel v.search_results families)))
      → selected_or_all st (all_spans st fuel v.search_results families) ≢ []
      → (v' : View) × (zoom_handler st fuel v ≡ some v')
        × ShowsAll v' (selected_or_all st (all_spans st fuel v.search_results families)) es
  unfolding zoom_handler
  zoom_handler_lem v families es ne =
      rw (get_selected_spans_or_all_spans_lem st fuel v.search_results families)
        (zoom_to_lem v (selected_or_all st (all_spans st fuel v.search_results families)) es ne)
