-- ===== src/Span/Ajax.antt =====
-- `parseMultiSpanAjaxQueryResults` of span.js: the span models in the answers to several ajax calls.
use incubator_htrace.Prelude.{
  ◌≡◌, refl, sym, ap, ◌∙◌, true, false, not, Option, none, some, List, [], ◌∷◌, ◌++◌, Text, text,
  text_eq, if◌then◌else◌, Bool-cases, ◌⊎◌, inl, inr,
}
use mathlib.Core.List.{append-nil, append_assoc}
use incubator_htrace.Span.{WireSpan, Span, parse}

-- An answer, as jQuery gives it; `response_json` is `none` if the text was not JSON, and then `parse`
-- throws at its first property.
pub record AjaxCall : Type 0 where
  pub status : Text
  pub status_text : Text
  pub response_json : Option WireSpan

pub data Parsed : Type 0 where
  parsed : List Span → Parsed
  ajax_error : Text → Parsed
  span_parse_error : Parsed

-- The loop over the answers, over `parsedSpans`.
unfoldable pub parse_each : List AjaxCall → List Span → Parsed
parse_each [] parsed_spans = parsed parsed_spans
parse_each (c ∷ cs) parsed_spans =
    let rest : Parsed = elim c.response_json [
      | none ↦ span_parse_error
      | some json ↦ parse_each cs (parsed_spans ++ parse json ∷ [])
    ] in
    if not (text_eq c.status (text "200")) then ajax_error c.status_text else rest

unfoldable pub parse_multi_span_ajax_query_results : List AjaxCall → Parsed
parse_multi_span_ajax_query_results ajax_calls = parse_each ajax_calls []

-- The answer holds a span.
abbrev pub Answers : AjaxCall → WireSpan → Type 0
Answers c json = (text_eq c.status (text "200") ≡ true) × (c.response_json ≡ some json)

-- Each answer holds the span of the same place.
abbrev pub AllAnswer : List AjaxCall → List WireSpan → Type 0
AllAnswer [] [] = Unit
AllAnswer (c ∷ cs) (json ∷ jsons) = Answers c json × AllAnswer cs jsons
AllAnswer _ _ = ⊥

abbrev pub parse_all : List WireSpan → List Span
parse_all [] = []
parse_all (json ∷ jsons) = parse json ∷ parse_all jsons

-- The first answer that holds no span, and what is made of it.
abbrev pub FirstFailure : List AjaxCall → Parsed → Type 0
FirstFailure [] r = ⊥
FirstFailure (c ∷ cs) r =
    ((text_eq c.status (text "200") ≡ false) × (r ≡ ajax_error c.status_text))
    ⊎ ((text_eq c.status (text "200") ≡ true) × (c.response_json ≡ none) × (r ≡ span_parse_error))
    ⊎ (((json : WireSpan) × Answers c json) × FirstFailure cs r)

json-cases : (o : Option WireSpan) → (o ≡ none) ⊎ ((json : WireSpan) × (o ≡ some json))
json-cases none = inl refl
json-cases (some json) = inr (json, refl)

parse_each_lem :
    (cs : List AjaxCall) (done : List Span)
    → ((jsons : List WireSpan) × AllAnswer cs jsons
        × (parse_each cs done ≡ parsed (done ++ parse_all jsons)))
      ⊎ FirstFailure cs (parse_each cs done)
unfolding parse_each
parse_each_lem [] done = inl ([], tt, ap parsed (sym (append-nil done)))
parse_each_lem (c ∷ cs) done = elim (Bool-cases (text_eq c.status (text "200"))) [
  | inr bad ↦ inr (inl (bad, rw (parse_each, bad)))
  | inl good ↦ elim (json-cases c.response_json) [
    | inl missing ↦ inr (inr (inl (good, missing, rw (parse_each, good, missing))))
    | inr (json, e) ↦ elim (parse_each_lem cs (done ++ parse json ∷ [])) [
      | inl (jsons, h, q) ↦ inl (
        json ∷ jsons,
        ((good, e), h),
        rw (parse_each, good, e)
            (q ∙ ap parsed (append_assoc done (parse json ∷ []) (parse_all jsons))),
      )
      | inr f ↦ inr (inr (inr ((json, (good, e)), rw (parse_each, good, e) f)))
    ]
  ]
]

-- Either every answer holds a span, and then the result is what `parse` makes of them, in order; or
-- some answer does not, and then the result is the error of the first such answer.
pub parse_multi_lem :
    (cs : List AjaxCall)
    → ((jsons : List WireSpan) × AllAnswer cs jsons
        × (parse_multi_span_ajax_query_results cs ≡ parsed (parse_all jsons)))
      ⊎ FirstFailure cs (parse_multi_span_ajax_query_results cs)
unfolding parse_multi_span_ajax_query_results
parse_multi_lem cs = parse_each_lem cs []
