-- ===== src/Results/Timeline/Timely.antt =====
-- The window of time as the handlers of the view leave it: wide enough, and shown in the fields.
use incubator_htrace.Prelude.{ℕ, ◌≡◌, refl, Option, none, some, List, [], ◌∷◌, Text, if◌then◌else◌}
use incubator_htrace.Prelude.Int.{ℤ, pos, ltb_ℤ}
use incubator_htrace.Tree.{for_each}
use incubator_htrace.Format.{Error, Result, ok, throw, MomentJs, parse_date}
use incubator_htrace.Span.Store.{Store}
use incubator_htrace.Span.Extent.{get_earliest_begin_lem, get_latest_end_lem}
use incubator_htrace.Results.{View, render}
use incubator_htrace.Results.Spans.{Families, all_spans}
use incubator_htrace.Results.Select.{selected_or_all, get_selected_spans_or_all_spans_lem}
use incubator_htrace.Results.Timeline.{
  Side, begin_side, end_side, set_times, set_side, minimum_time_span, handle_begin_or_end_change,
  extend, zoom_to, zoom_handler,
}
use incubator_htrace.Results.Timeline.Bounds.{IsWide, set_times-IsWide}

-- The window of time is at least `MINIMUM_TIME_SPAN` wide, and its two times stand in the fields.
abbrev pub IsTimely : View → Type 0
IsTimely v = IsWide v.window × (v.shown ≡ v.window)

-- The trees of each span are finite, and less high than the fuel.
abbrev pub AllFinite : ℕ → Store → Type 0
AllFinite fuel st = (r : ℕ) → Families st fuel (r ∷ [])

-- There is such a view.
abbrev pub Timely : Option View → Type 0
Timely o = (v : View) × (o ≡ some v) × IsTimely v

module _ (st : Store) (fuel : ℕ) (finite : AllFinite fuel st) where
  pub families_of : (rs : List ℕ) → Families st fuel rs
  families_of [] = tt
  families_of (r ∷ rs) = ((finite r).0, families_of rs)

  extend_ends : (spans : List ℕ) (s : ℤ × ℤ) → (s' : ℤ × ℤ) × (extend st fuel spans s ≡ some s')
  unfolding extend for_each
  extend_ends [] s = (s, refl)
  extend_ends (r ∷ rs) s =
      let (f, hu, hd) = (finite r).0 in
      let (b, begins, _, _) = get_earliest_begin_lem st r f fuel hu hd in
      let (e, ends, _, _) = get_latest_end_lem st r f fuel hu hd in
      let (s', rest) =
        extend_ends rs (if ltb_ℤ b s.0 then b else s.0, if ltb_ℤ s.1 e then e else s.1) in
      (s', rw (extend, for_each, begins, ends) rest)

  zoom_to-IsTimely : (v : View) (spans : List ℕ) → Timely (zoom_to st fuel v spans)
  zoom_to-IsTimely v [] =
      (_, refl, set_times-IsWide (some (pos 0)) (some (pos minimum_time_span)) v)
  zoom_to-IsTimely v (r ∷ rs) =
      let (s, e) = extend_ends (r ∷ rs) (pos 4503599627370496, pos 0) in
      (
        render (set_times (some s.0) (some s.1) v),
        rw (zoom_to, e),
        set_times-IsWide (some s.0) (some s.1) v,
      )

  pub zoom_handler-IsTimely : (v : View) → Timely (zoom_handler st fuel v)
  unfolding zoom_handler
  zoom_handler-IsTimely v =
      let fs = families_of v.search_results in
      rw (zoom_handler, get_selected_spans_or_all_spans_lem st fuel v.search_results fs)
        (zoom_to-IsTimely v (selected_or_all st (all_spans st fuel v.search_results fs)))

-- After the user has left a field, whatever is in it.
pub handle_begin_or_end_change-IsTimely :
    (m : MomentJs) (val : Text) (type : Side) (v : View)
    → IsTimely v
    → IsTimely (handle_begin_or_end_change m val type v).0
unfolding handle_begin_or_end_change
handle_begin_or_end_change-IsTimely m val type v h = by_result type (parse_date m val)
  where
    by_result :
        (type : Side) (r : Result m.Moment)
        → IsTimely
            (elim r as (λ x. View × Option Error) [
              | ok d ↦ (render (set_side type (m.value_of d) v), none)
              | throw err ↦ (record v { shown = v.window }, some err)
            ]).0
    by_result begin_side (ok d) = set_times-IsWide (m.value_of d) none v
    by_result end_side (ok d) = set_times-IsWide none (m.value_of d) v
    by_result type (throw err) = (h.0, refl)
