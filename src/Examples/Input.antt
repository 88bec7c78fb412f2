-- ===== src/Examples/Input.antt =====
-- What the user types.
use incubator_htrace.Prelude.{◌≡◌, ◌↔◌, refl, text}
use incubator_htrace.Prelude.Int.{pos}
use incubator_htrace.Format.{ok, parse_date, normalize_span_id, date_formats}
use incubator_htrace.Format.Laws.{IsSpanId, normalize_span_id_iff, FirstValid, parse_date_iff}
use incubator_htrace.Predicate.{PType}
use incubator_htrace.Examples.Data.{span_id, moments}

abbrev began_after : PType
began_after = record { name = text "Began at or after"; field = text "begin"; op = text "ge" }

normalize_span_id_iff_example :
    (normalize_span_id span_id ≡ ok span_id) ↔ (IsSpanId span_id × (span_id ≡ span_id))
normalize_span_id_iff_example = normalize_span_id_iff span_id span_id

parse_date_iff_example :
    (parse_date moments (text "2015-09-01") ≡ ok (pos 10))
    ↔ FirstValid moments date_formats (text "2015-09-01") (pos 10)
parse_date_iff_example = parse_date_iff moments (text "2015-09-01") (pos 10) refl
