-- ===== src/Examples/Schedule.antt =====
-- Look-ups at once.
use incubator_htrace.Prelude.{refl, arith, ◌≢◌, none}
use incubator_htrace.Prelude.Int.{pos}
use mathlib.Core.WellFounded.{Acc}
use incubator_htrace.Span.Store.{Store}
use incubator_htrace.Span.Reify.Acyclic.{Keeps}
use incubator_htrace.Span.Reify.Answered.{IsAnswering}
use incubator_htrace.Span.Reify.Schedule.{
  Request, for_parents, for_children, asked, waiting, over, inside, Tasks, nil, cons, answer,
  answered, here, there, Runs, start, click, step,
}
use incubator_htrace.Span.Reify.Schedule.Invariant.{AllConcern, Runs-Keeps}
use incubator_htrace.Span.Reify.Schedule.Ending.{NextOf, look_ups_end}
use incubator_htrace.Span.Reify.Schedule.Settling.{Settles, Runs-Settles}
use incubator_htrace.Span.Reify.Schedule.Sequential.{stay, onward}
use incubator_htrace.Span.Reify.Schedule.Hanging.{
  refused_here, refused_inside, refused_first, refused_hangs,
}
use incubator_htrace.Span.Reify.{resolved}
use incubator_htrace.Examples.Reify.{
  refusing, server, server-IsAnswering, one_span, one_span-IsAcyclic,
}

abbrev parents : Request
parents = for_parents 2 0

abbrev children : Request
children = for_children 100 (pos 50) 0

-- The user clicks on both buttons of a span; the look-up of its parents, which was started first, is
-- answered first.
abbrev pub models : Store
models = (answer server parents one_span).0

abbrev pub tasks : Tasks
tasks = cons (asked children) (cons (answer server parents one_span).1 nil)

pub runs : Runs IsAnswering one_span models tasks
runs =
    step one_span models (cons (asked children) (cons (asked parents) nil)) tasks
      (click one_span (cons (asked parents) nil) children (omega arith)
        (click one_span nil parents (omega arith) start))
      (there one_span models (asked children) (cons (asked parents) nil) _ (
        here one_span models (asked parents) _ nil
          (answered server parents one_span models _ server-IsAnswering refl)))

Runs-Keeps_example : Keeps one_span models × AllConcern models.next tasks
Runs-Keeps_example = Runs-Keeps IsAnswering one_span models tasks runs one_span-IsAcyclic

Runs-Settles_example : Settles models tasks
Runs-Settles_example = Runs-Settles server server-IsAnswering one_span models tasks runs

look_ups_end_example : Acc (NextOf IsAnswering) tasks
look_ups_end_example = look_ups_end IsAnswering tasks

-- The children of a span are looked up twice at once, on behalf of one request.
abbrev pair : Tasks
pair = cons (asked (for_children 1 (pos 50) 0)) (cons (asked (for_children 1 (pos 50) 0)) nil)

-- The query for the first is refused, and then the other one is answered.
abbrev refused_pair : Tasks
refused_pair =
    cons (answer refusing (for_children 1 (pos 50) 0) one_span).1
      (cons (asked (for_children 1 (pos 50) 0)) nil)

abbrev models_later : Store
models_later = (answer server (for_children 1 (pos 50) 0) one_span).0

abbrev half_answered : Tasks
half_answered =
    cons (answer refusing (for_children 1 (pos 50) 0) one_span).1
      (cons (answer server (for_children 1 (pos 50) 0) one_span).1 nil)

refused_hangs_example : waiting half_answered ≢ over (resolved none)
unfolding answer incubator_htrace.Span.Reify.reify_children
refused_hangs_example =
    refused_hangs IsAnswering one_span one_span models_later (waiting pair) (waiting refused_pair)
      (waiting half_answered)
      (refused_inside one_span one_span pair refused_pair (
        refused_first one_span one_span _ _ _
          (refused_here refusing 1 (pos 50) 0 one_span one_span _ refl refl refl)))
      (onward one_span models_later models_later _ _ _
        (inside one_span models_later refused_pair half_answered (
          there one_span models_later _ _ _ (
            here one_span models_later _ _ nil (
              answered server (for_children 1 (pos 50) 0) one_span models_later _ server-IsAnswering
                refl))))
        (stay models_later (waiting half_answered)))
      none
