-- ===== src/Router.antt =====
-- htrace-webapp/src/main/webapp/app/router.js: which view the page shows.
--
-- A view is the page that it shows, with a number that tells it from the views before it. Of its
-- `render` and `close` it is recorded that they were called. Backbone calls the handler of the
-- route that the user visits; the answers to `fetch` come in any order, as steps of their own.
pub mod Views
use incubator_htrace.Prelude.{
  ℕ, suc, Option, none, some, List, [], ◌∷◌, ◌++◌, Text, text, text_eq, if◌then◌else◌,
}

pub data Route : Type 0 where
  empty about server_info search : Route
  unknown : Text → Route

-- The keys of `routes`, in their order; the last one takes every fragment.
unfoldable pub route_of : Text → Route
route_of fragment =
    if text_eq fragment []
    then empty
    else if text_eq fragment (text "about")
    then about
    else if text_eq fragment (text "serverInfo")
    then server_info
    else if text_eq fragment (text "search")
    then search
    else unknown fragment

pub data ViewType : Type 0 where
  about_view server_info_view search_view : ViewType

pub record View : Type 0 where
  pub type : ViewType
  pub number : ℕ

-- `rendered` and `closed` are the views whose `render` and `close` were called, in order; `active` is
-- the active entry of the navigation bar. `versions` and `stats` count the calls of `fetch` that are
-- not answered yet, and `alerts` those of `window.alert`.
pub record Router : Type 0 where
  pub fragment : Text
  pub view : Option View
  pub rendered : List View
  pub closed : List View
  pub active : Option ViewType
  pub versions : ℕ
  pub stats : ℕ
  pub alerts : ℕ
  pub created : ℕ

abbrev pub new_router : Router
new_router = record {
  fragment = [];
  view = none;
  rendered = [];
  closed = [];
  active = none;
  versions = 0;
  stats = 0;
  alerts = 0;
  created = 0;
}

-- `this.view && this.view.close()`
unfoldable pub close_view : Router → Router
close_view r = elim r.view [ none ↦ r | some view ↦ record r { closed = r.closed ++ view ∷ [] } ]

unfoldable pub switch_view : View → Router → Router
unfolding close_view
switch_view view r =
    let r' = close_view r in record r' { view = some view; rendered = r'.rendered ++ view ∷ [] }

unfoldable pub activate_nav_bar_entry : ViewType → Router → Router
activate_nav_bar_entry entry r = record r { active = some entry }

-- A new view, shown, with its entry of the navigation bar.
unfoldable pub show : ViewType → Router → Router
unfolding switch_view activate_nav_bar_entry
show type r =
    let view : View = record { type = type; number = r.created } in
    activate_nav_bar_entry type (switch_view view (record r { created = suc r.created }))

-- The handlers of the routes. `empty` navigates to `about`, with its trigger.
unfoldable pub follow : Route → Router → Router
unfolding show
follow empty r = show about_view (record r { fragment = text "about" })
follow about r = show about_view r
follow server_info r = record r { versions = suc r.versions }
follow search r = show search_view r
follow (unknown fragment) r = r

unfoldable pub visit : Text → Router → Router
unfolding follow route_of
visit fragment r = follow (route_of fragment) (record r { fragment = fragment })

pub data Answer : Type 0 where
  success error : Answer

-- The callbacks of `version.fetch`.
unfoldable pub version_answered : Answer → Router → Router
version_answered error r = record r { alerts = suc r.alerts }
version_answered success r = record r { stats = suc r.stats }

-- The callbacks of `stats.fetch`.
unfoldable pub stats_answered : Answer → Router → Router
unfolding show
stats_answered error r = record r { alerts = suc r.alerts }
stats_answered success r = show server_info_view r
