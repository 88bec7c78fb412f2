-- ===== src/Examples/Pages.antt =====
-- A user who visits the pages.
use incubator_htrace.Prelude.{refl, text}
use incubator_htrace.Router.{
  Router, new_router, visit, success, version_answered, stats_answered, follow, route_of, show,
  switch_view, close_view, activate_nav_bar_entry,
}
use incubator_htrace.Router.Views.{Reaches, start, visits, version, stats, IsTidy, Reaches-IsTidy}

-- The page of the server is asked for, and then the search; the answers come after that.
abbrev asked : Router
asked = visit (text "search") (visit (text "serverInfo") (visit (text "about") new_router))

abbrev answered : Router
answered =
    stats_answered success
      (record (version_answered success (record asked { versions = 0 })) { stats = 0 })

asked-Reaches : Reaches asked
unfolding visit
asked-Reaches = visits (text "search") (visits (text "serverInfo") (visits (text "about") start))

answered-Reaches : Reaches answered
unfolding visit follow route_of show switch_view close_view activate_nav_bar_entry version_answered
    stats_answered
answered-Reaches = stats success 0 refl (version success 0 refl asked-Reaches)

Reaches-IsTidy_example : IsTidy answered
Reaches-IsTidy_example = Reaches-IsTidy answered answered-Reaches
