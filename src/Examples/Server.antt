-- ===== src/Examples/Server.antt =====
-- The tables of a server with two remotes.
use mathlib.Core.List.{Perm}
use incubator_htrace.Prelude.{◌≡◌, some, List, [], ◌∷◌, ◌++◌, Text, text, compare_texts, All}
use incubator_htrace.Prelude.Int.{pos}
use incubator_htrace.Prelude.Order.{IsOrdered}
use incubator_htrace.SpanWidget.Details.{get}
use incubator_htrace.ServerInfo.{SpanMetrics, keys_of, stats_head, get_server_stats_table_html}
use incubator_htrace.ServerInfo.Tables.{NotAbove, rows_html, get_server_stats_table_html_lem}

abbrev span_metrics : List (Text × SpanMetrics)
span_metrics =
    (text "node2", record { written = pos 5; server_dropped = pos 0 })
    ∷ (text "node1", record { written = pos 7; server_dropped = pos 1 })
    ∷ []

get_server_stats_table_html_lem_example :
    (rows : List (Text × SpanMetrics)) × (get_server_stats_table_html span_metrics
      ≡ some ((stats_head ++ rows_html rows) ++ text "</table>"))
    × Perm (keys_of rows) (keys_of span_metrics)
    × IsOrdered compare_texts NotAbove (keys_of rows)
    × All (λ (row : Text × SpanMetrics). get span_metrics row.0 ≡ some row.1) rows
get_server_stats_table_html_lem_example = get_server_stats_table_html_lem span_metrics

abbrev plain : Text → Text → Text → Text
plain bgcolor key val = bgcolor ++ key ++ val

abbrev two_rows : List (Text × Text)
two_rows = (text "web.address", text "localhost") ∷ (text "log.path", text "/tmp") ∷ []
