-- ===== src/Examples/Layout.antt =====
-- The rows of the small page.
use incubator_htrace.Prelude.{
  ℕ, ◌+◌, ◌*◌, ◌≡◌, none, some, List, [], ◌∷◌, length, text, arith, All, ◌⊎◌,
}
use incubator_htrace.Tree.Rose.{height}
use incubator_htrace.Span.{WireSpan}
use incubator_htrace.Span.Ajax.{
  AjaxCall, AllAnswer, FirstFailure, parsed, parse_all, parse_multi_span_ajax_query_results,
  parse_multi_lem,
}
use incubator_htrace.SpanGroup.{GroupParams, lay_out}
use incubator_htrace.SpanGroup.Layout.{items, stack, IsLevel, lay_out_lem}
use incubator_htrace.Examples.Data.{span_id, store, family_1, whole_pixels}

abbrev params : GroupParams ℕ
params = record { span = 1; x_d = 200; x_f = 1000; y0 = 24; span_widget_height = 16 }

lay_out_lem_example :
    (lay_out params store 3
      ≡ some (stack params 28 (items family_1), 28 + length (items family_1) * 16 + 4))
    × All (IsLevel (height family_1.up + height family_1.down)) (items family_1)
lay_out_lem_example = lay_out_lem params store 3 family_1 (omega arith) (omega arith)

-- One answer with a span, and one that failed.
abbrev answers : List AjaxCall
answers =
    record {
      status = text "200";
      status_text = text "OK";
      response_json = some (record {
        a = some span_id;
        r = none;
        p = none;
        d = none;
        b = none;
        e = none;
        t = none;
        n = none;
      });
    }
    ∷ record { status = text "404"; status_text = text "Not Found"; response_json = none }
    ∷ []

parse_multi_lem_example :
    ((jsons : List WireSpan) × AllAnswer answers jsons
      × (parse_multi_span_ajax_query_results answers ≡ parsed (parse_all jsons)))
    ⊎ FirstFailure answers (parse_multi_span_ajax_query_results answers)
parse_multi_lem_example = parse_multi_lem answers
