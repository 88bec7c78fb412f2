-- ===== src/ServerInfo.antt =====
-- htrace-webapp/src/main/webapp/app/server_info_view.js: the tables of the page of the server, as the
-- HTML that they are, and the table of span_widget.js. A template of index.html is a parameter, a
-- function to HTML. The JSON that was fetched is given as its own properties, in their order.
pub mod Tables
use incubator_htrace.Prelude.{
  ℕ, suc, ◌%◌, Option, none, some, List, [], ◌∷◌, ◌++◌, Text, text, text_eq, compare_texts, ◌==◌,
  if◌then◌else◌, ◌>>=◌, map,
}
use incubator_htrace.Prelude.Int.{ℤ}
use incubator_htrace.Prelude.Sort.{sort}
use incubator_htrace.Format.{to_string, MomentJs}
use incubator_htrace.Span.{Span}
use incubator_htrace.SpanWidget.Details.{Value, get, show_span_details}

-- An entry of `HostSpanMetrics`
pub record SpanMetrics : Type 0 where
  pub written : ℤ
  pub server_dropped : ℤ

-- An entry of `Dirs`
pub record Directory : Type 0 where
  pub path : Text
  pub approximate_bytes : ℤ
  pub level_db_stats : Text

abbrev pub keys_of {ℓ} : {A : Type ℓ} → List (Text × A) → List Text
keys_of [] = []
keys_of ((key, value) ∷ o) = key ∷ keys_of o

abbrev pub stats_head : Text
stats_head =
    text "<div class=\"panel-heading\">"
    ++ text "<div class=\"panel-title\">Span Metrics</div>"
    ++ text "</div>"
    ++ text "<table class=\"table table-striped\">"
    ++ text "<thead>"
    ++ text "<tr>"
    ++ text "<th>Remote</th>"
    ++ text "<th>Written</th>"
    ++ text "<th>ServerDropped</th>"
    ++ text "</tr>"
    ++ text "</thead>"

unfoldable pub stats_row : Text → SpanMetrics → Text
stats_row remote smtx =
    text "<tr>"
    ++ text "<td>"
    ++ remote
    ++ text "</td>"
    ++ text "<td>"
    ++ to_string smtx.written
    ++ text "</td>"
    ++ text "<td>"
    ++ to_string smtx.server_dropped
    ++ text "</td>"
    ++ text "</tr>"

-- The loop over the remotes; a name that has no metrics would be an exception, `none`.
unfoldable pub add_stats_rows : List (Text × SpanMetrics) → List Text → Text → Option Text
unfolding stats_row
add_stats_rows span_metrics [] out = some out
add_stats_rows span_metrics (remote ∷ remotes) out = elim (get span_metrics remote) [
  | none ↦ none
  | some smtx ↦ add_stats_rows span_metrics remotes (out ++ stats_row remote smtx)
]

unfoldable pub get_server_stats_table_html : List (Text × SpanMetrics) → Option Text
unfolding add_stats_rows
get_server_stats_table_html span_metrics = do
  out ← add_stats_rows span_metrics (sort compare_texts (keys_of span_metrics)) stats_head
  some (out ++ text "</table>")

-- The loop that writes a table with every other row grey, from the row `i` on.
module _ {A : Type 0} (template : (bgcolor key : Text) → A → Text) where
  abbrev pub color_string : ℕ → Text
  color_string i = if i % 2 == 1 then text "#f1f1f1" else text "#ffffff"

  unfoldable pub add_rows : ℕ → List (Text × A) → Text → Text
  add_rows i [] out = out
  add_rows i ((key, val) ∷ rows) out =
      add_rows (suc i) rows (out ++ template (color_string i) key val)

abbrev pub table_tag : Text
table_tag = text "<table style=\"table-layout:fixed;width:100%;word-wrap:break-word\">"

abbrev pub configuration_head : Text
configuration_head =
    table_tag
    ++ text "<thead>"
    ++ text "<tr>"
    ++ text "<th>Key</th>"
    ++ text "<th>Value</th>"
    ++ text "</tr>"
    ++ text "</thead>"

module _ (template : (bgcolor key : Text) → Option Text → Text)
    (modal_table : (title body : Text) → Text) where
  -- The callback of `config.fetch`, on the attributes of the model.
  unfoldable pub show_server_configuration_modal : List (Text × Text) → Text
  unfolding add_rows
  show_server_configuration_modal attributes =
      let conf_keys = sort compare_texts (keys_of attributes) in
      let out =
        add_rows template 0 (map (λ k. (k, get attributes k)) conf_keys) configuration_head in
      modal_table (text "HTraced Server Configuration") (out ++ text "</table>")

module _ (modal_table : (title body : Text) → Text) where
  unfoldable pub add_directories : List Directory → Text → Text
  add_directories [] out = out
  add_directories (dir ∷ dirs) out = add_directories dirs (
      out
      ++ (text "<h3>" ++ dir.path ++ text "</h3>")
      ++ (text "Approximate size in bytes: " ++ to_string dir.approximate_bytes ++ text "<br/>")
      ++ (text "<pre>" ++ dir.level_db_stats ++ text "</pre></pre><br/><p/>"))

  unfoldable pub show_storage_directory_stats_modal : List Directory → Text
  unfolding add_directories
  show_storage_directory_stats_modal dirs =
      modal_table (text "HTraced Storage Directory Statistics") (add_directories dirs [])

  unfoldable pub show_debug_info_modal : (stack_traces gc_stats : Text) → Text
  show_debug_info_modal stack_traces gc_stats = modal_table (text "HTraced Debug Info") (
      text "<h2>Stack Traces</h2>"
      ++ (text "<pre>" ++ stack_traces ++ text "</pre>")
      ++ text "<h2>GC Stats</h2>"
      ++ (text "<pre>" ++ gc_stats ++ text "</pre>"))

-- What `showSpanDetails` shows of its rows.
unfoldable pub span_details_html :
    MomentJs
    → (template : (bgcolor key : Text) → Option Value → Text)
    → (modal_table : (title body : Text) → Text) → Span
    → Text
unfolding add_rows
span_details_html m template modal_table span =
    modal_table (text "Span Details")
      (add_rows template 0 (show_span_details m span) table_tag ++ text "</table>")
