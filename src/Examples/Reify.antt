-- ===== src/Examples/Reify.antt =====
-- Looking up the family of a span, at a server that answers.
use incubator_htrace.Prelude.{ℕ, ◌≡◌, refl, true, false, none, some, [], ◌∷◌, text, arith}
use incubator_htrace.Prelude.Int.{pos}
use incubator_htrace.Span.{Span, WireSpan}
use incubator_htrace.Span.Store.{Store}
use incubator_htrace.Span.Reify.{Server}
use incubator_htrace.Span.Reify.Acyclic.{IsAcyclic}
use incubator_htrace.Span.Reify.Answered.{IsAnswering}
use incubator_htrace.Widget.Triangle.{up, down}
use incubator_htrace.Canvas.Page.{Coordinates}
use incubator_htrace.SpanWidget.Expand.{
  Browser, click_button, rendered, Expands, start, click, enter, Expands-Keeps,
  click_button-rendered,
}
use incubator_htrace.Examples.Data.{span_id, whole_pixels}

abbrev json : WireSpan
json = record {
  a = some span_id;
  r = none;
  p = some (span_id ∷ []);
  d = some (text "getFileInfo");
  b = some (pos 20);
  e = some (pos 30);
  t = none;
  n = none;
}

-- Each span has this one as its parent and as its child.
abbrev pub server : Server
server = record {
  span = λ id.
      some (record { status = text "200"; status_text = text "OK"; response_json = some json });
  children = λ id lim. some (span_id ∷ []);
}

abbrev pub refusing : Server
refusing = record { span = λ id. none; children = λ id lim. none }

-- A span whose parents and children were not looked up yet.
abbrev cell : Span
cell = record {
  span_id = span_id;
  tracer_id = [];
  parents = span_id ∷ [];
  description = text "getFileInfo";
  begin = pos 20;
  end = pos 30;
  time_annotations = [];
  info_annotations = [];
  selected = false;
  reified_children = none;
  reified_parents = none;
}

abbrev pub one_span : Store
one_span = record { cell = λ k. cell; next = 1 }

pub server-IsAnswering : IsAnswering server
server-IsAnswering = record {
  spans = λ id. (
    record { status = text "200"; status_text = text "OK"; response_json = some json },
    json,
    refl,
    refl,
    refl,
  );
  ids = λ id lim. (span_id ∷ [], refl);
}

pub one_span-IsAcyclic : IsAcyclic one_span
one_span-IsAcyclic = record {
  parents = record { rank = λ x. 0; falls = λ x. tt };
  children = record { rank = λ x. 0; falls = λ x. tt };
  unused = λ x h. (refl, refl);
}

abbrev browser : Browser
browser = record { field = text "7"; models = one_span }

-- The parents are looked up three levels up, then the limit is changed, then the children.
abbrev expanded : Browser
expanded =
    (click_button server down false 0
      (record (click_button server up true 0 browser).0 { field = text "9" })).0

expands : Expands server browser expanded
expands =
    click down false 0
      (Expands-Keeps server (click up true 0 (omega arith) start) one_span-IsAcyclic).1
      (enter (text "9") (click up true 0 (omega arith) start))

click_button-rendered_example : (click_button server down true 0 browser).1 ≡ rendered
click_button-rendered_example = click_button-rendered server server-IsAnswering down true 0 browser

abbrev coordinates : Coordinates ℕ
coordinates = record {
  view_x = 1000;
  view_y = 600;
  x_b = 200;
  x_d = 250;
  x_s = 950;
  canvas_y = 600;
}
