-- ===== src/Examples/Zooming.antt =====
-- A zoom on the selected spans of the small page.
use incubator_htrace.Prelude.{◌≡◌, refl, some, [], ◌∷◌, arith}
use incubator_htrace.Prelude.Int.{pos}
use incubator_htrace.Tree.{for_each, traverse_pre}
use incubator_htrace.Span.Store.{get_reified_parents, get_reified_children}
use incubator_htrace.Span.Extent.{get_earliest_begin, get_latest_end}
use incubator_htrace.Results.{View}
use incubator_htrace.Results.Timeline.{zoom_handler}
use incubator_htrace.Results.Timeline.Zoom.{Extents, ShowsAll, zoom_handler_lem}
use incubator_htrace.Examples.Data.{store, view, families}

times_0 : (get_earliest_begin store 3 0 ≡ some (pos 5)) × (get_latest_end store 3 0 ≡ some (pos 9))
unfolding get_earliest_begin get_latest_end traverse_pre for_each get_reified_parents
    get_reified_children
times_0 = (refl, refl)

times_2 :
    (get_earliest_begin store 3 2 ≡ some (pos 10)) × (get_latest_end store 3 2 ≡ some (pos 50))
unfolding get_earliest_begin get_latest_end traverse_pre for_each get_reified_parents
    get_reified_children
times_2 = (refl, refl)

abbrev extents : Extents store 3 (0 ∷ 2 ∷ [])
extents = (
  record {
    begin = pos 5;
    end = pos 9;
    begin_found = times_0.0;
    end_found = times_0.1;
    begin_late = omega arith;
    in_order = omega arith;
  },
  (
    record {
      begin = pos 10;
      end = pos 50;
      begin_found = times_2.0;
      end_found = times_2.1;
      begin_late = omega arith;
      in_order = omega arith;
    },
    tt,
  ),
)

zoom_handler_lem_example :
    (v' : View) × (zoom_handler store 3 view ≡ some v') × ShowsAll store 3 v' (0 ∷ 2 ∷ []) extents
zoom_handler_lem_example = zoom_handler_lem store 3 view families extents (λ e. cc)
