-- ===== src/SpanWidget/Expand.antt =====
-- The callbacks of the two buttons of a span widget, of span_widget.js: they look up the parents or
-- the children of the span, and then render the page or show the error.
use incubator_htrace.Prelude.{
  ℕ, ◌+◌, ◌≤◌, ◌<◌, ◌≡◌, Bool, Option, none, some, List, [], ◌∷◌, arith, Text, if◌then◌else◌, All,
  ◌==◌,
}
use incubator_htrace.Prelude.Int.{ℤ, pos, negsuc, min_ℤ}
use incubator_htrace.Format.{to_string}
use incubator_htrace.SearchView.{parse_int}
use incubator_htrace.Span.Store.{Store}
use incubator_htrace.Span.Reify.{
  Server, Outcome, Failure, resolved, never, reify_parents_recursive, reify_children_recursive,
}
use incubator_htrace.Span.Reify.Acyclic.{
  IsAcyclic, Keeps, Keeps-trans, reify_parents_recursive-Keeps,
}
use incubator_htrace.Span.Reify.Downward.{reify_children_recursive-Keeps, IsAcyclic-Family}
use incubator_htrace.Span.Reify.Answered.{
  IsAnswering, reify_parents_recursive_resolves, reify_children_recursive_resolves,
}
use incubator_htrace.Widget.Cursor.{TimeCursor}
use incubator_htrace.Widget.{Number}
use incubator_htrace.Widget.Triangle.{Direction, up, down}
use incubator_htrace.Results.Spans.{Families}
use incubator_htrace.Canvas.Page.{Coordinates, Scene, setup_widgets}
use incubator_htrace.Canvas.Setup.{IsUseful, setup_widgets-IsUseful}

-- `… || 50`
abbrev or_fifty : Option ℤ → ℤ
or_fifty none = pos 50
or_fifty (some (pos n)) = if n == 0 then pos 50 else pos n
or_fifty (some (negsuc n)) = negsuc n

-- The limit, from the field `#children-lim`.
unfoldable pub children_lim : Text → ℤ
unfolding parse_int
children_lim field = min_ℤ (or_fifty (parse_int field)) (pos 500)

-- What the user sees when a look-up is over: the spans as they now are, an alert, or still the
-- cursor that says that something is going on.
pub data Reaction : Type 0 where
  rendered : Reaction
  alerted : Failure → Reaction
  in_progress : Reaction

abbrev pub react : Outcome → Reaction
react never = in_progress
react (resolved (some failure)) = alerted failure
react (resolved none) = rendered

-- The field `#children-lim` and the span models.
pub record Browser : Type 0 where
  pub field : Text
  pub models : Store

module _ (server : Server) where
  abbrev pub depth_of : (ctrl_key : Bool) → ℕ
  depth_of ctrl_key = if ctrl_key then 100 else 0

  unfoldable pub click_button :
      Direction → (ctrl_key : Bool) → (span : ℕ) → Browser → Browser × Reaction
  unfolding children_lim
  click_button up ctrl_key span b =
      let (st, o) = reify_parents_recursive server (depth_of ctrl_key) span b.models in
      (record b { models = st }, react o)
  click_button down ctrl_key span b =
      let lim = children_lim b.field in
      let (st, o) = reify_children_recursive server (depth_of ctrl_key) lim span b.models in
      (record { field = to_string lim; models = st }, react o)

  -- The user clicks on buttons of spans in use, and enters limits.
  pub data Expands (b : Browser) : Browser → Type 0 where
    start : Expands b b
    click :
        {b' : Browser} (d : Direction) (ctrl_key : Bool) (span : ℕ)
        → span < b'.models.next
        → Expands b b'
        → Expands b (click_button d ctrl_key span b').0
    enter : {b' : Browser} (field : Text) → Expands b b' → Expands b (record b' { field = field })

  click_button-Keeps :
      (d : Direction) (ctrl_key : Bool) (span : ℕ) (b : Browser)
      → span < b.models.next
      → IsAcyclic b.models
      → Keeps b.models (click_button d ctrl_key span b).0.models
  unfolding click_button
  click_button-Keeps up ctrl_key span b l a =
      reify_parents_recursive-Keeps server (depth_of ctrl_key) span b.models l a
  click_button-Keeps down ctrl_key span b l a =
      reify_children_recursive-Keeps server (depth_of ctrl_key) (children_lim b.field) span b.models
        l a

  pub Expands-Keeps :
      {b b' : Browser} → Expands b b' → IsAcyclic b.models → Keeps b.models b'.models
  Expands-Keeps start a = (a, omega arith)
  Expands-Keeps {b} (click {b' = b'} d ctrl_key span l e) a =
      let k = Expands-Keeps e a in
      Keeps-trans b.models b'.models (click_button d ctrl_key span b').0.models k
        (click_button-Keeps d ctrl_key span b' l k.0)
  Expands-Keeps (enter field e) a = Expands-Keeps e a

  -- If htraced answers every query with what was asked for, then every click on a button ends with
  -- the page rendered, whatever the span, the control key and the limit in the field.
  pub click_button-rendered :
      IsAnswering server
      → (d : Direction) (ctrl_key : Bool) (span : ℕ) (b : Browser)
      → (click_button d ctrl_key span b).1 ≡ rendered
  unfolding click_button
  click_button-rendered good up ctrl_key span b =
      rw (reify_parents_recursive_resolves server good (depth_of ctrl_key) span b.models)
  click_button-rendered good down ctrl_key span b = rw (
      reify_children_recursive_resolves server good (depth_of ctrl_key) (children_lim b.field) span
        b.models)

Families-more :
    (st : Store) (fuel fuel' : ℕ) (results : List ℕ)
    → fuel ≤ fuel'
    → Families st fuel results
    → Families st fuel' results
Families-more st fuel fuel' [] l fs = tt
Families-more st fuel fuel' (r ∷ rs) l ((f, hu, hd), fs) =
    ((f, omega arith, omega arith), Families-more st fuel fuel' rs l fs)

-- One fuel for all results.
pub IsAcyclic-Families :
    (st : Store) (results : List ℕ) → IsAcyclic st → (fuel : ℕ) × Families st fuel results
IsAcyclic-Families st [] a = (0, tt)
IsAcyclic-Families st (r ∷ rs) a =
    let (f, fuel, hu, hd) = IsAcyclic-Family st r a in
    let (others, fs) = IsAcyclic-Families st rs a in
    (
      fuel + others,
      ((f, omega arith, omega arith), Families-more st others (fuel + others) rs (omega arith) fs),
    )

-- If the models on the page have no cycle of parents or of children, then after any clicks on the
-- buttons of spans in use, whatever htraced answers, the widgets of the page can be set up, over
-- any results, and each of its buttons asks for parents or children that are not known yet.
pub Expands-setup_widgets :
    {W : Type 0} ⦃n : Number W⦄
    → (server : Server) (b b' : Browser) → Expands server b b'
    → IsAcyclic b.models
    → (c : Coordinates W) (begin end : W) (before : Option (TimeCursor W)) (results : List ℕ)
    → (fuel : ℕ) × (scene : Scene W) × (setup_widgets b'.models fuel c begin end before results
        ≡ some scene)
      × All (IsUseful b'.models) scene.widgets
Expands-setup_widgets server b b' e a c begin end before results =
    let k = Expands-Keeps server e a in
    let (fuel, families) = IsAcyclic-Families b'.models results k.0 in
    let (scene, done, useful) =
      setup_widgets-IsUseful b'.models c begin end fuel results families before in
    (fuel, scene, done, useful)
