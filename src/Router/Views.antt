-- ===== src/Router/Views.antt =====
-- Which views are open, and what the navigation bar says.
use incubator_htrace.Prelude.{
  ℕ, text, zero, suc, ◌≡◌, refl, ap, ◌∙◌, Option, none, some, List, [], ◌∷◌, ◌++◌, Text,
}
use mathlib.Core.List.{append-nil}
use incubator_htrace.Router.{
  Route, empty, about, server_info, search, unknown, route_of, ViewType, about_view,
  server_info_view, search_view, View, Router, new_router, close_view, switch_view,
  activate_nav_bar_entry, show, follow, visit, Answer, success, error, version_answered,
  stats_answered,
}

-- What can happen from a new router on: the user visits a fragment, or a fetch is answered.
pub data Reaches : Router → Type 0 where
  start : Reaches new_router
  visits : {r : Router} (fragment : Text) → Reaches r → Reaches (visit fragment r)
  version :
      {r : Router} (answer : Answer) (n : ℕ)
      → r.versions ≡ suc n
      → Reaches r
      → Reaches (version_answered answer (record r { versions = n }))
  stats :
      {r : Router} (answer : Answer) (n : ℕ)
      → r.stats ≡ suc n
      → Reaches r
      → Reaches (stats_answered answer (record r { stats = n }))

abbrev pub to_list : {A : Type 0} → Option A → List A
to_list none = []
to_list (some x) = x ∷ []

abbrev pub type_of : Option View → Option ViewType
type_of none = none
type_of (some view) = some view.type

abbrev pub numbers : List View → List ℕ
numbers [] = []
numbers (view ∷ views) = view.number ∷ numbers views

abbrev pub count_up : ℕ → List ℕ
count_up zero = []
count_up (suc n) = count_up n ++ n ∷ []

numbers-append : (vs ws : List View) → numbers (vs ++ ws) ≡ numbers vs ++ numbers ws
numbers-append [] ws = refl
numbers-append (v ∷ vs) ws = ap (λ ns. v.number ∷ ns) (numbers-append vs ws)

-- The views that were rendered are all that were created, in order; those that were closed are the
-- same but for the one on the page; the navigation bar names that one.
abbrev pub IsTidy : Router → Type 0
IsTidy r =
    (r.rendered ≡ r.closed ++ to_list r.view)
    × (r.active ≡ type_of r.view)
    × (numbers r.rendered ≡ count_up r.created)

show-IsTidy : (type : ViewType) (r : Router) → IsTidy r → IsTidy (show type r)
unfolding show switch_view close_view activate_nav_bar_entry
show-IsTidy type r h = by_view r.view h.0
  where
    new_view : View
    new_view = record { type = type; number = r.created }

    counted : numbers (r.rendered ++ new_view ∷ []) ≡ count_up r.created ++ r.created ∷ []
    counted = numbers-append r.rendered (new_view ∷ []) ∙ ap (λ ns. ns ++ r.created ∷ []) h.2

    by_view :
        (view : Option View)
        → r.rendered ≡ r.closed ++ to_list view
        → IsTidy (show type (record r { view = view }))
    by_view none e = (ap (λ vs. vs ++ new_view ∷ []) (e ∙ append-nil r.closed), refl, counted)
    by_view (some view) e = (ap (λ vs. vs ++ new_view ∷ []) e, refl, counted)

follow-IsTidy : (route : Route) (r : Router) → IsTidy r → IsTidy (follow route r)
unfolding follow
follow-IsTidy empty r h = show-IsTidy about_view (record r { fragment = text "about" }) h
follow-IsTidy about r h = show-IsTidy about_view r h
follow-IsTidy server_info r h = h
follow-IsTidy search r h = show-IsTidy search_view r h
follow-IsTidy (unknown fragment) r h = h

-- From a new router, whatever the user visits, and however and in whatever order htraced answers: the
-- views that were created were rendered, once and in order; those that were closed are the same but
-- for the one on the page; and the navigation bar names the page that is shown.
pub Reaches-IsTidy : (r : Router) → Reaches r → IsTidy r
unfolding visit version_answered stats_answered
Reaches-IsTidy r start = (refl, refl, refl)
Reaches-IsTidy r (visits {r = r'} fragment k) =
    follow-IsTidy (route_of fragment) (record r' { fragment = fragment }) (Reaches-IsTidy r' k)
Reaches-IsTidy r (version {r = r'} success n e k) = Reaches-IsTidy r' k
Reaches-IsTidy r (version {r = r'} error n e k) = Reaches-IsTidy r' k
Reaches-IsTidy r (stats {r = r'} success n e k) =
    show-IsTidy server_info_view (record r' { stats = n }) (Reaches-IsTidy r' k)
Reaches-IsTidy r (stats {r = r'} error n e k) = Reaches-IsTidy r' k
