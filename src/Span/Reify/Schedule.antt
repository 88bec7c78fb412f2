-- ===== src/Span/Reify/Schedule.antt =====
-- The look-ups of span.js when the answers of htraced come in any order, and those of several clicks
-- at once.
--
-- A look-up is a task: htraced has been asked for the parents or the children of a span; or the
-- look-ups that were started one level deeper are waited for, by `$.when`; or its promise is
-- resolved, or will never be. An answer is that of the whole look-up of one span: what comes before
-- the last of its calls changes no model. Each answer is by a server of its own, so that htraced may
-- change its mind.
pub mod Invariant
pub mod Ending
pub mod Settling
pub mod Sequential
pub mod Hanging
use incubator_htrace.Prelude.{
  ℕ, zero, suc, ◌≡◌, ◌<◌, Bool, Option, none, some, List, [], ◌∷◌, length, if◌then◌else◌,
}
use incubator_htrace.Prelude.Int.{ℤ, pos, ltb_ℤ, ◌-ℤ◌}
use incubator_htrace.Span.Store.{Store, get_reified_parents}
use incubator_htrace.Span.Reify.{
  Server, Failure, Outcome, never, resolved, reify_parents, reify_children, both,
}

-- A call of `reifyParentsRecursive` or of `reifyChildrenRecursive`.
pub data Request : Type 0 where
  for_parents : (depth span : ℕ) → Request
  for_children : (depth : ℕ) (lim : ℤ) (span : ℕ) → Request

mutual
  pub data Task : Type 0 where
    asked : Request → Task
    waiting : Tasks → Task
    over : Outcome → Task

  pub data Tasks : Type 0 where
    nil : Tasks
    cons : Task → Tasks → Tasks

abbrev pub span_of : Request → ℕ
span_of (for_parents depth span) = span
span_of (for_children depth lim span) = span

-- `recursivePromises`
abbrev pub ask_each : (ℕ → Request) → List ℕ → Tasks
ask_each request [] = nil
ask_each request (k ∷ ks) = cons (asked (request k)) (ask_each request ks)

-- The callback of `reifyParents().done`.
abbrev pub after_parents : (depth span : ℕ) → Store × Outcome → Store × Task
after_parents depth span (st, never) = (st, over never)
after_parents depth span (st, resolved (some err)) = (st, over (resolved (some err)))
after_parents zero span (st, resolved none) = (st, over (resolved none))
after_parents (suc depth) span (st, resolved none) =
    (st, waiting (ask_each (for_parents depth) (get_reified_parents st span)))

-- The callback of `reifyChildren(lim).done`, when the children are known; `lim` is what is left.
abbrev pub deeper_children : (depth : ℕ) (lim : ℤ) → List ℕ → Option Failure → Task
deeper_children depth lim kids (some err) = over (resolved (some err))
deeper_children zero lim kids none = over (resolved none)
deeper_children (suc depth) lim kids none =
    if ltb_ℤ (pos 0) lim
    then waiting (ask_each (for_children depth lim) kids)
    else over (resolved none)

abbrev pub after_children : (depth : ℕ) (lim : ℤ) (span : ℕ) → Store × Outcome → Store × Task
after_children depth lim span (st, never) = (st, over never)
after_children depth lim span (st, resolved err) = elim (st.cell span).reified_children [
  | none ↦ (st, over never)
  | some kids ↦ (st, deeper_children depth (lim -ℤ pos (length kids)) kids err)
]

-- What an answer leaves of the models and of the look-up.
unfoldable pub answer : Server → Request → Store → Store × Task
answer server (for_parents depth span) st = after_parents depth span (reify_parents server span st)
answer server (for_children depth lim span) st =
    after_children depth lim span (reify_children server lim span st)

-- What `$.when` comes to, once all that it waits for is over.
abbrev pub result_of : Task → Option Outcome
result_of (over o) = some o
result_of (asked r) = none
result_of (waiting ts) = none

unfoldable pub results : Tasks → Option Outcome
results nil = some (resolved none)
results (cons t ts) = elim (result_of t) [
  | none ↦ none
  | some o ↦ elim (results ts) [ none ↦ none | some o' ↦ some (both o o') ]
]

-- `Allows` says which servers there are.
module _ (Allows : Server → Type 0) where
  mutual
    -- One answer, or one promise that is resolved because those that it waited for are over.
    pub data Step : Store → Task → Store → Task → Type 0 where
      answered :
          (server : Server) (r : Request) (st st' : Store) (t : Task)
          → Allows server
          → answer server r st ≡ (st', t)
          → Step st (asked r) st' t
      inside :
          (st st' : Store) (ts ts' : Tasks)
          → StepIn st ts st' ts'
          → Step st (waiting ts) st' (waiting ts')
      joined :
          (st : Store) (ts : Tasks) (o : Outcome)
          → results ts ≡ some o
          → Step st (waiting ts) st (over o)

    -- One step of one of several look-ups.
    pub data StepIn : Store → Tasks → Store → Tasks → Type 0 where
      here :
          (st st' : Store) (t t' : Task) (ts : Tasks)
          → Step st t st' t'
          → StepIn st (cons t ts) st' (cons t' ts)
      there :
          (st st' : Store) (t : Task) (ts ts' : Tasks)
          → StepIn st ts st' ts'
          → StepIn st (cons t ts) st' (cons t ts')

  -- The user clicks on buttons of spans in use, whether or not the look-ups of the clicks before are
  -- over, and htraced answers.
  pub data Runs (first : Store) : Store → Tasks → Type 0 where
    start : Runs first first nil
    click :
        (st : Store) (ts : Tasks) (r : Request)
        → span_of r < st.next
        → Runs first st ts
        → Runs first st (cons (asked r) ts)
    step :
        (st st' : Store) (ts ts' : Tasks)
        → Runs first st ts
        → StepIn st ts st' ts'
        → Runs first st' ts'
