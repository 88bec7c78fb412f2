-- ===== src/Lib.antt =====
-- A model of the htrace web application: the JavaScript program under
-- htrace-webapp/src/main/webapp/app, with which a user searches spans in htraced, looks at them on
-- a canvas, follows their parents and children, and zooms in on them.
--
-- The parts, and how they interact (file names are below htrace-webapp/src/main/webapp/app):
--
--   Tree (tree.js) walks over anything that has descendants. Tree/Rose has the finite trees that a
--   walk is measured by, Tree/Traversal and Tree/Growth the proofs.
--
--   Span (span.js) is a span model: `parse` and `unparse`, from and to the JSON of htraced. Models
--   are shared between results, parents and children, so they stand in a store (Span/Store), where
--   `get_reified_parents` and `get_reified_children` follow the links. Span/Extent is
--   `getEarliestBegin` and `getLatestEnd`, two walks over these links.
--
--   Format (string.js) and Predicate (predicate.js) are what the user types: dates, span ids, and
--   the values of search predicates, `normalize` and `parsePType`.
--
--   Widget (widget_manager.js) has the listeners of the canvas: `register`, `unregister`, the box
--   test, and the loop of `handle`. Widget/Triangle (triangle_button.js) is the handler of a
--   button; Widget/Triangle/Session runs it under the manager, event by event, among other widgets,
--   whose states and handlers are parameters, and Widget/Triangle/Loop has the proofs on its loop.
--
--   Widget/Partition (partition_widget.js) is the partition between the labels and the bars,
--   Widget/Cursor (time_cursor.js) the bar that shows a time.
--
--   Results (search_results_view.js) is the view: `applyToAllSpans` and
--   `getSelectedSpansOrAllSpans` in Results, `clearHandler` in Results/Clear, `setTimes`,
--   `handleBeginOrEndChange` and `zoomHandler` in Results/Timeline, the handlers of the mouse and
--   the keys in Results/Events. SpanWidget (span_widget.js) is the click on a span, which selects
--   through `applyToAllSpans`.
--
--   Span/Reify is the look-up of the parents and the children of a span: `reifyParents`,
--   `reifyChildren` and their recursive forms, over the answers of htraced, which are a parameter.
--   Span/Reify/Acyclic and Span/Reify/Downward follow what they do to the links of the store, and
--   Span/Reify/Answered when their promises are resolved. Span/Reify/Schedule has the look-ups of
--   several clicks at once, with the answers in any order, as a step relation; its children have
--   what all orders have in common, what becomes of a look-up when a query is refused
--   (Span/Reify/Schedule/Hanging), and the look-ups of Span/Reify as one of these orders.
--
--   SpanWidget/Expand has the callbacks of the two buttons of a row, which start these look-ups and
--   render the page; SpanWidget/Row is its `handle`; SpanWidget/Details is `showSpanDetails`, the
--   table that a double click shows.
--
--   Canvas has the calls on the context of the canvas as commands. Canvas/Widgets and Canvas/Bars
--   are the `draw` functions of the widgets, Canvas/Page is `setupCoordinates` and `setupWidgets`
--   of search_results_view.js with the constructor of span_widget.js, Canvas/Drawing its `draw`,
--   and Canvas/Setup the proofs.
--
--   Stage is the page at work: all widgets of `setupWidgets` under one manager, with the
--   registrations of their constructors and the events that the manager hands on to their
--   handlers. Stage/Start is the page when it is new, Stage/Step one call of a handler,
--   Stage/Working and Stage/Session are about what an event leaves of the page until it is
--   rendered anew, Stage/Paint the drawing by the manager. The calls of the callbacks of the
--   buttons and of `releaseHandler` are recorded.
--   Stage/Screen has `render` as a whole, the handlers of the mouse, which draw the page after
--   each event, and what `releaseHandler` does, which renders the page; Stage/Shown is what is
--   then on the screen, and Stage/Expanding the page when it is rendered between the answers to
--   look-ups.
--
--   Router (router.js) switches between the views of the pages; Router/Views has the visits of the
--   user and the answers to `fetch` as a step relation. ServerInfo (server_info_view.js) writes the
--   tables of the page of the server.
--
--   TracePage (htrace-hbase/src/main/webapps/htrace/spans.js, of the HBase receiver) puts the spans
--   of a trace in the order of their rows, and TracePage/Drawing gives the places of their bars;
--   TraceList (traces.js beside it) is the list of traces.
--   Modal (modal.js) is the dialog, with its handler of the enter key. Span/Print is
--   `spanModelsToString`.
--
--   SearchView (search_view.js, predicate_view.js) is the form above the results: the predicates
--   that the user adds and removes, the search that sends them, and what an answer does to the view
--   of the results. SearchView/Requests has its actions and the answers as a step relation,
--   SearchView/Handlers the handlers that change the view of the results, in any order.
--
--   SpanGroup (span_group_widget.js) lays out the rows of a result; SpanGroup/Groups is the loop of
--   `setupWidgets` over all of them. Span/Ajax is `parseMultiSpanAjaxQueryResults`.
--
--   Prelude has what all parts share: tests, lists, texts, integers, sorting. Examples has concrete
--   data and the theorems at it.
--
-- State is passed on explicitly: the store of spans, the listeners, the button, the view. An
-- exception is a value of `Error`. A callback is a function on the state of its caller.
--
-- Fuel and bounds. The recursion of tree.js is on fuel, which bounds its depth: enough is more than
-- the height of the tree of a node, and such a tree there is wherever descendants have a smaller
-- rank. Times are integers (milliseconds). In a window of time they are fractions with a power of
-- two below the line, since `setTimes` halves; a JavaScript number holds those exactly as long as
-- it has the bits, and rounding beyond this is not modelled. Coordinates are of any type with the
-- operations of `Number`.
--
-- In Span/Reify the look-ups run one after another: a callback is called at once, and the look-ups
-- that the program starts together are answered in the order in which they were started. In
-- Span/Reify/Schedule they are answered in any order, by a server that need not say the same twice;
-- the last answer to the calls of one look-up is one step there, since what comes before it changes
-- no model. A promise that is never resolved is an outcome of its own.
--
-- What is not part of the program is a parameter: moment.js (`MomentJs`; a date that is not valid has no value there), `_.without` of
-- underscore.js, `remove` and `add` of a Backbone collection, the answers of htraced (`Server`),
-- what the browser does on a command of the canvas, `nest` of d3, and templates; what they are
-- documented to do is a hypothesis where a theorem needs it.
--
-- Not modelled: the bindings of events by jQuery in search_results_view.js; templates; what d3
-- does in the pages of the HBase receiver; search_result.js and span_details_view.js, which
-- nothing uses; search_results.js, query_results.js and the models of the server, which are
-- collections and models without operations of their own, URLs and default values. The Java, C and
-- Go parts of the repository are other programs.
pub mod Prelude
pub mod Tree
pub mod Format
pub mod Predicate
pub mod Span
pub mod Widget
pub mod Results
pub mod SpanWidget
pub mod Canvas
pub mod Router
pub mod Modal
pub mod Stage
pub mod ServerInfo
pub mod TracePage
pub mod TraceList
pub mod Examples
pub mod SearchView
pub mod SpanGroup
