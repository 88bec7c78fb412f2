-- ===== src/Results/Timeline/Bounds.antt =====
-- What `setTimes` makes of the window.
use incubator_htrace.Prelude.{
  ℕ, zero, suc, ◌*◌, ◌^◌, ◌≡◌, ◌≢◌, refl, Option, some, arith, ◌⊎◌, inl, inr,
}
use native.Mathlib.Nat.{pow-suc}
use incubator_htrace.Prelude.Int.{
  ℤ, pos, negsuc, pos_part, neg_part, ◌-ℤ◌, ◌+ℤ◌, ◌≤ℤ◌, +ℤ_parts, sub_ℕ_parts, ltb_ℤ-cases,
  eq_of_parts, int_laws,
}
use incubator_htrace.Results.{Window, View}
use incubator_htrace.Results.Timeline.{
  minimum_time_span, in_units, set_time, in_order, widen, new_window, set_times,
}

-- The window is at least `MINIMUM_TIME_SPAN` wide; so its end is not before its begin.
abbrev pub IsWide : Window → Type 0
IsWide w = w.begin +ℤ pos (minimum_time_span * 2 ^ w.scale) ≤ℤ w.end

-- The time lies in the window.
abbrev pub Shows : Window → ℤ → Type 0
Shows w x = (w.begin ≤ℤ in_units w.scale x) × (in_units w.scale x ≤ℤ w.end)

widen-IsWide : (w : Window) → w.begin ≤ℤ w.end → IsWide (widen w)
unfolding widen
widen-IsWide w h = elim (ltb_ℤ-cases (w.end -ℤ w.begin) (pos (minimum_time_span * 2 ^ w.scale))) [
  | inl (narrow, lt) ↦ rw (narrow, pow-suc) (omega int_laws)
  | inr (wide, le) ↦ rw wide (omega int_laws)
]

in_units-suc : (scale : ℕ) (x : ℤ) → in_units (suc scale) x ≡ in_units scale x +ℤ in_units scale x
in_units-suc scale x = eq_of_parts _ _ (
    rw pow-suc (
      omega (
        arith,
        sub_ℕ_parts (pos_part x * (2 ^ scale * 2)) (neg_part x * (2 ^ scale * 2)),
        sub_ℕ_parts (pos_part x * 2 ^ scale) (neg_part x * 2 ^ scale),
        +ℤ_parts (in_units scale x) (in_units scale x),
      )))

-- What the window showed it shows when it is widened.
widen-Shows : (w : Window) (x : ℤ) → Shows w x → Shows (widen w) x
unfolding widen
widen-Shows w x (l, r) =
    elim (ltb_ℤ-cases (w.end -ℤ w.begin) (pos (minimum_time_span * 2 ^ w.scale))) [
      | inl (narrow, lt) ↦ rw (narrow, in_units-suc) (omega int_laws, omega int_laws)
      | inr (wide, le) ↦ rw wide (l, r)
    ]

in_order_lem : (w : Window) → (in_order w).begin ≤ℤ (in_order w).end
in_order_lem w = elim (ltb_ℤ-cases w.end w.begin) [
  | inl (swapped, lt) ↦ rw swapped (omega int_laws)
  | inr (kept, le) ↦ rw kept (omega int_laws)
]

in_order-Shows :
    (w : Window) (x : ℤ)
    → (in_units w.scale x ≡ w.begin) ⊎ (in_units w.scale x ≡ w.end)
    → Shows (in_order w) x
in_order-Shows w x h = elim (ltb_ℤ-cases w.end w.begin) [
  | inl (swapped, lt) ↦ rw swapped (elim h [
    | inl b ↦ rw b (omega int_laws, omega int_laws)
    | inr e ↦ rw e (omega int_laws, omega int_laws)
  ])
  | inr (kept, le) ↦ rw kept (elim h [
    | inl b ↦ rw b (omega int_laws, omega int_laws)
    | inr e ↦ rw e (omega int_laws, omega int_laws)
  ])
]

-- Whatever times are asked for, and whatever the window was, after `setTimes` the window is at
-- least `MINIMUM_TIME_SPAN` wide, and the input fields hold its two times.
pub set_times-IsWide :
    (begin end : Option ℤ) (v : View)
    → IsWide (set_times begin end v).window
      × ((set_times begin end v).shown ≡ (set_times begin end v).window)
unfolding set_times new_window
set_times-IsWide begin end v =
    let w = record v.window {
      begin = set_time v.window.scale begin v.window.begin;
      end = set_time v.window.scale end v.window.end;
    } in
    (widen-IsWide (in_order w) (in_order_lem w), refl)

set_time_given :
    (scale : ℕ) (x old : ℤ) → x ≢ pos 0 → set_time scale (some x) old ≡ in_units scale x
set_time_given scale (pos zero) old h = absurd (h refl)
set_time_given scale (pos (suc n)) old h = refl
set_time_given scale (negsuc n) old h = refl

-- After `setTimes` with two times, in whatever order, neither of them 0, both lie in the window.
pub set_times-Shows :
    (begin end : ℤ) (v : View)
    → begin ≢ pos 0
    → end ≢ pos 0
    → Shows (set_times (some begin) (some end) v).window begin
      × Shows (set_times (some begin) (some end) v).window end
unfolding set_times new_window
set_times-Shows begin end v hb he =
    let scale = v.window.scale in
    let w = record v.window { begin = in_units scale begin; end = in_units scale end } in
    rw (set_time_given scale begin v.window.begin hb, set_time_given scale end v.window.end he)
      (
        widen-Shows (in_order w) begin (in_order-Shows w begin (inl refl)),
        widen-Shows (in_order w) end (in_order-Shows w end (inr refl)),
      )
