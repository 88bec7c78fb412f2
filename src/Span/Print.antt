-- ===== src/Span/Print.antt =====
-- `htrace.spanModelsToString` of span.js. `JSON.stringify` is a parameter.
use incubator_htrace.Prelude.{◌≡◌, refl, sym, ◌∙◌, List, [], ◌∷◌, ◌++◌, Text, text}
use mathlib.Core.List.{append-nil, append_assoc}
use incubator_htrace.Span.{WireSpan, Span, unparse}

module _ (stringify : WireSpan → Text) where
  -- The loop, over `ret` and `prefix`.
  unfoldable pub print_each : List Span → (ret prefix : Text) → Text
  print_each [] ret prefix = ret
  print_each (span ∷ spans) ret prefix =
      print_each spans (ret ++ (prefix ++ stringify (unparse span))) (text ", ")

  unfoldable pub span_models_to_string : List Span → Text
  unfolding print_each
  span_models_to_string spans = print_each spans [] []

  -- Each of the spans behind a separator.
  abbrev separated : List Span → Text
  separated [] = []
  separated (span ∷ spans) = (text ", " ++ stringify (unparse span)) ++ separated spans

  -- The texts of the spans with separators between them.
  abbrev pub joined : List Span → Text
  joined [] = []
  joined (span ∷ spans) = stringify (unparse span) ++ separated spans

  print_each_lem :
      (spans : List Span) (ret : Text) → print_each spans ret (text ", ") ≡ ret ++ separated spans
  unfolding print_each
  print_each_lem [] ret = sym (append-nil ret)
  print_each_lem (span ∷ spans) ret =
      let one = text ", " ++ stringify (unparse span) in
      print_each_lem spans (ret ++ one) ∙ append_assoc ret one (separated spans)

  -- The loop is the same as joining the texts of the spans with separators between them.
  pub span_models_to_string_lem : (spans : List Span) → span_models_to_string spans ≡ joined spans
  unfolding span_models_to_string
  span_models_to_string_lem [] = refl
  span_models_to_string_lem (span ∷ spans) = print_each_lem spans (stringify (unparse span))
