-- ===== src/Span/Reify/Schedule/Sequential.antt =====
-- The look-ups one after another, as `reify_parents_recursive` and `reify_children_recursive` have
-- them, are one of the orders in which the answers may come.
use incubator_htrace.Prelude.{
  ℕ, zero, suc, ◌≡◌, refl, Option, none, some, List, [], ◌∷◌, length, Bool-cases, Option-cases, inl,
  inr,
}
use incubator_htrace.Prelude.Int.{ℤ, pos, ltb_ℤ, ◌-ℤ◌}
use incubator_htrace.Span.Store.{Store, get_reified_parents}
use incubator_htrace.Span.Reify.{
  Server, Outcome, never, resolved, reify_parents, reify_children, reify_each, parents_done,
  children_done, reify_parents_recursive, reify_children_recursive,
}
use incubator_htrace.Span.Reify.Schedule.{
  Request, for_parents, for_children, Task, asked, waiting, over, Tasks, nil, cons, ask_each,
  after_parents, after_children, answer, results, Step, answered, inside, joined, StepIn, here,
  there,
}

-- The look-ups one after another, by one server.
abbrev pub in_sequence : Server → Request → Store → Store × Outcome
in_sequence server (for_parents depth span) st = reify_parents_recursive server depth span st
in_sequence server (for_children depth lim span) st =
    reify_children_recursive server depth lim span st

module _ (Allows : Server → Type 0) where
  -- Any number of steps of a look-up, and of several.
  pub data Steps : Store → Task → Store → Task → Type 0 where
    stay : (st : Store) (t : Task) → Steps st t st t
    onward :
        (st1 st2 st3 : Store) (t1 t2 t3 : Task)
        → Step Allows st1 t1 st2 t2
        → Steps st2 t2 st3 t3
        → Steps st1 t1 st3 t3

  data StepsIn : Store → Tasks → Store → Tasks → Type 0 where
    stay_in : (st : Store) (ts : Tasks) → StepsIn st ts st ts
    onward_in :
        (st1 st2 st3 : Store) (ts1 ts2 ts3 : Tasks)
        → StepIn Allows st1 ts1 st2 ts2
        → StepsIn st2 ts2 st3 ts3
        → StepsIn st1 ts1 st3 ts3

  Steps-here :
      (st st' : Store) (t t' : Task) (ts : Tasks)
      → Steps st t st' t'
      → (st'' : Store) (us : Tasks) → StepsIn st' (cons t' ts) st'' us
      → StepsIn st (cons t ts) st'' us
  Steps-here _ _ _ _ ts (stay st t) st'' us h = h
  Steps-here _ _ _ _ ts (onward st1 st2 st3 t1 t2 t3 s r) st'' us h =
      onward_in st1 st2 st'' (cons t1 ts) (cons t2 ts) us (here st1 st2 t1 t2 ts s)
        (Steps-here st2 st3 t2 t3 ts r st'' us h)

  StepsIn-there :
      (t : Task) (st st' : Store) (ts ts' : Tasks)
      → StepsIn st ts st' ts'
      → StepsIn st (cons t ts) st' (cons t ts')
  StepsIn-there t _ _ _ _ (stay_in st ts) = stay_in st (cons t ts)
  StepsIn-there t _ _ _ _ (onward_in st1 st2 st3 ts1 ts2 ts3 s r) =
      onward_in st1 st2 st3 (cons t ts1) (cons t ts2) (cons t ts3) (there st1 st2 t ts1 ts2 s)
        (StepsIn-there t st2 st3 ts2 ts3 r)

  StepsIn-joined :
      (st st' : Store) (ts ts' : Tasks) (o : Outcome)
      → StepsIn st ts st' ts'
      → results ts' ≡ some o
      → Steps st (waiting ts) st' (over o)
  StepsIn-joined _ _ _ _ o (stay_in st ts) e =
      onward st st st (waiting ts) (over o) (over o) (joined st ts o e) (stay st (over o))
  StepsIn-joined _ _ _ _ o (onward_in st1 st2 st3 ts1 ts2 ts3 s r) e =
      onward st1 st2 st3 (waiting ts1) (waiting ts2) (over o) (inside st1 st2 ts1 ts2 s)
        (StepsIn-joined st2 st3 ts2 ts3 o r e)

  -- A look-up and its model in sequence: some steps lead from the one to the outcome of the other.
  abbrev RunsTo : Store → Task → Store × Outcome → Type 0
  RunsTo st t (st', o) = Steps st t st' (over o)

  -- All of several tasks one after another.
  each_runs :
      (request : ℕ → Request) (reify : ℕ → Store → Store × Outcome)
      → ((k : ℕ) (st : Store) → RunsTo st (asked (request k)) (reify k st))
      → (ks : List ℕ) (st : Store)
      → (ts : Tasks) × StepsIn st (ask_each request ks) (reify_each reify ks st).0 ts
        × (results ts ≡ some (reify_each reify ks st).1)
  unfolding reify_each results
  each_runs request reify h [] st = (nil, stay_in st nil, refl)
  each_runs request reify h (k ∷ ks) st =
      let (ts, later, e) = each_runs request reify h ks (reify k st).0 in
      let t = over (reify k st).1 in
      (
        cons t ts,
        Steps-here st (reify k st).0 (asked (request k)) t (ask_each request ks) (h k st) _
            (cons t ts) (StepsIn-there t (reify k st).0 _ (ask_each request ks) ts later),
        rw (results, e),
      )

  waiting_runs :
      (request : ℕ → Request) (reify : ℕ → Store → Store × Outcome)
      → ((k : ℕ) (st : Store) → RunsTo st (asked (request k)) (reify k st))
      → (ks : List ℕ) (st : Store)
      → RunsTo st (waiting (ask_each request ks)) (reify_each reify ks st)
  waiting_runs request reify h ks st =
      let (ts, all, e) = each_runs request reify h ks st in
      StepsIn-joined st (reify_each reify ks st).0 (ask_each request ks) ts
        (reify_each reify ks st).1 all e

  module _ (server : Server) (allowed : Allows server) where
    asked_runs :
        (r : Request) (st : Store) (out : Store × Outcome)
        → RunsTo (answer server r st).0 (answer server r st).1 out
        → RunsTo st (asked r) out
    asked_runs r st (st', o) h =
        onward st (answer server r st).0 st' (asked r) (answer server r st).1 (over o)
          (answered server r st _ _ allowed refl) h

    parents_run_stop :
        (span : ℕ) (r : Store × Outcome)
        → RunsTo
            (after_parents zero span r).0
            (after_parents zero span r).1
            (parents_done server none span r)
    parents_run_stop span (st, never) = stay _ _
    parents_run_stop span (st, resolved (some err)) = stay _ _
    parents_run_stop span (st, resolved none) = stay _ _

    parents_run_deeper :
        (depth span : ℕ) (r : Store × Outcome)
        → ((k : ℕ) (st : Store)
            → RunsTo st (asked (for_parents depth k)) (reify_parents_recursive server depth k st))
        → RunsTo
            (after_parents (suc depth) span r).0
            (after_parents (suc depth) span r).1
            (parents_done server (some (reify_parents_recursive server depth)) span r)
    parents_run_deeper depth span (st, never) h = stay _ _
    parents_run_deeper depth span (st, resolved (some err)) h = stay _ _
    parents_run_deeper depth span (st, resolved none) h =
        waiting_runs (for_parents depth) (reify_parents_recursive server depth) h
          (get_reified_parents st span) st

    parents_run :
        (depth span : ℕ) (st : Store)
        → RunsTo st (asked (for_parents depth span)) (reify_parents_recursive server depth span st)
    unfolding answer reify_parents_recursive
    parents_run zero span st =
        asked_runs (for_parents zero span) st _
          (parents_run_stop span (reify_parents server span st))
    parents_run (suc depth) span st =
        asked_runs (for_parents (suc depth) span) st _
          (parents_run_deeper depth span (reify_parents server span st) (parents_run depth))

    abbrev Deeper : ℕ → Option (ℤ → ℕ → Store → Store × Outcome) → Type 0
    Deeper zero none = Unit
    Deeper (suc depth) (some reify) =
        (lim : ℤ) (k : ℕ) (st : Store)
        → RunsTo st (asked (for_children depth lim k)) (reify lim k st)
    Deeper zero (some reify) = ⊥
    Deeper (suc depth) none = ⊥

    children_run_after :
        (depth : ℕ) (lim : ℤ) (span : ℕ) (deeper : Option (ℤ → ℕ → Store → Store × Outcome))
        (r : Store × Outcome)
        → Deeper depth deeper
        → RunsTo
            (after_children depth lim span r).0
            (after_children depth lim span r).1
            (children_done server deeper lim span r)
    children_run_after depth lim span deeper (st, never) h = stay _ _
    children_run_after depth lim span deeper (st, resolved (some f)) h =
        elim (Option-cases (st.cell span).reified_children) [
          | inl null ↦ rw (after_children, children_done, null) (stay _ _)
          | inr (kids, e) ↦ rw (after_children, children_done, e) (stay _ _)
        ]
    children_run_after zero lim span none (st, resolved none) h =
        elim (Option-cases (st.cell span).reified_children) [
          | inl null ↦ rw (after_children, children_done, null) (stay _ _)
          | inr (kids, e) ↦ rw (after_children, children_done, e) (stay _ _)
        ]
    children_run_after (suc depth) lim span (some reify) (st, resolved none) h =
        elim (Option-cases (st.cell span).reified_children) [
          | inl null ↦ rw (after_children, children_done, null) (stay _ _)
          | inr (kids, e) ↦
              let left = lim -ℤ pos (length kids) in
              elim (Bool-cases (ltb_ℤ (pos 0) left)) [
                | inr stop ↦ rw (after_children, children_done, e, stop) (stay _ _)
                | inl more ↦
                    rw (after_children, children_done, e, more)
                      (waiting_runs (for_children depth left) (reify left) (h left) kids st)
              ]
        ]
    children_run_after zero lim span (some reify) (st, resolved none) h = absurd h
    children_run_after (suc depth) lim span none (st, resolved none) h = absurd h

    children_run :
        (depth : ℕ) (lim : ℤ) (span : ℕ) (st : Store)
        → RunsTo st
            (asked (for_children depth lim span))
            (reify_children_recursive server depth lim span st)
    unfolding answer reify_children_recursive
    children_run zero lim span st =
        asked_runs (for_children zero lim span) st _
          (children_run_after zero lim span none (reify_children server lim span st) tt)
    children_run (suc depth) lim span st = asked_runs (for_children (suc depth) lim span) st _ (
        children_run_after (suc depth) lim span (some (reify_children_recursive server depth))
          (reify_children server lim span st) (children_run depth))

    -- The look-ups one after another, by one of the servers that there may be, are one of the orders
    -- in which htraced may answer: some steps lead to the same models, and to the same outcome.
    pub in_sequence-Steps :
        (r : Request) (st : Store)
        → Steps st (asked r) (in_sequence server r st).0 (over (in_sequence server r st).1)
    in_sequence-Steps (for_parents depth span) st = parents_run depth span st
    in_sequence-Steps (for_children depth lim span) st = children_run depth lim span st
