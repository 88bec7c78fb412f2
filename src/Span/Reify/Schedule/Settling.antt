-- ===== src/Span/Reify/Schedule/Settling.antt =====
-- If htraced answers what it is asked, all look-ups are resolved with success in the end, in whatever
-- order the answers come.
use incubator_htrace.Prelude.{
  ℕ, zero, suc, ◌≡◌, refl, sym, ap, subst, ◌∙◌, none, some, List, [], ◌∷◌, length, arith, ◌⊎◌,
  some_inj, Bool-cases, Option-cases, inl, inr,
}
use incubator_htrace.Prelude.Int.{ℤ, pos, ltb_ℤ, ◌-ℤ◌}
use mathlib.Core.WellFounded.{Acc}
use incubator_htrace.Span.Store.{Store, get_reified_parents}
use incubator_htrace.Span.Reify.{
  Server, Outcome, never, resolved, both, reify_parents, reify_children,
}
use incubator_htrace.Span.Reify.Answered.{IsAnswering, parents_resolves, children_resolves}
use incubator_htrace.Span.Reify.Schedule.{
  Request, for_parents, for_children, Task, asked, waiting, over, Tasks, nil, cons, ask_each,
  after_parents, deeper_children, after_children, answer, results, Step, answered, inside, joined,
  StepIn, here, there, Runs, start, click, step,
}
use incubator_htrace.Span.Reify.Schedule.Ending.{NextOf, look_ups_end}

-- No promise was left or resolved with an error.
abbrev mutual
  IsFine : Task → Type 0
  IsFine (asked r) = Unit
  IsFine (waiting ts) = AreFine ts
  IsFine (over o) = o ≡ resolved none

  AreFine : Tasks → Type 0
  AreFine nil = Unit
  AreFine (cons t ts) = IsFine t × AreFine ts

-- All promises are resolved with success.
abbrev pub AllResolved : Tasks → Type 0
AllResolved nil = Unit
AllResolved (cons t ts) = (t ≡ over (resolved none)) × AllResolved ts

-- However it goes on from here, all promises are resolved with success in the end.
pub data Settles : Store → Tasks → Type 0 where
  settled : (st : Store) (ts : Tasks) → AllResolved ts → Settles st ts
  going_on :
      (st : Store) (ts : Tasks)
      → (st' : Store) × (ts' : Tasks) × StepIn IsAnswering st ts st' ts'
      → ((st' : Store) (ts' : Tasks) → StepIn IsAnswering st ts st' ts' → Settles st' ts')
      → Settles st ts

ask_each-AreFine : (request : ℕ → Request) (ks : List ℕ) → AreFine (ask_each request ks)
ask_each-AreFine request [] = tt
ask_each-AreFine request (k ∷ ks) = (tt, ask_each-AreFine request ks)

after_parents-IsFine :
    (depth span : ℕ) (r : Store × Outcome)
    → r.1 ≡ resolved none
    → IsFine (after_parents depth span r).1
after_parents-IsFine depth span (st, never) h = cc
after_parents-IsFine depth span (st, resolved (some err)) h = cc
after_parents-IsFine zero span (st, resolved none) h = refl
after_parents-IsFine (suc depth) span (st, resolved none) h =
    ask_each-AreFine (for_parents depth) (get_reified_parents st span)

deeper_children-IsFine :
    (depth : ℕ) (lim : ℤ) (kids : List ℕ) → IsFine (deeper_children depth lim kids none)
deeper_children-IsFine zero lim kids = refl
deeper_children-IsFine (suc depth) lim kids = elim (Bool-cases (ltb_ℤ (pos 0) lim)) [
  | inl more ↦ rw more (ask_each-AreFine (for_children depth lim) kids)
  | inr stop ↦ rw stop refl
]

after_children-IsFine :
    (depth : ℕ) (lim : ℤ) (span : ℕ) (r : Store × Outcome) (kids : List ℕ)
    → r.1 ≡ resolved none
    → (r.0.cell span).reified_children ≡ some kids
    → IsFine (after_children depth lim span r).1
after_children-IsFine depth lim span (st, never) kids h k = cc
after_children-IsFine depth lim span (st, resolved (some f)) kids h k = cc
after_children-IsFine depth lim span (st, resolved none) kids h k =
    rw (after_children, k) (deeper_children-IsFine depth (lim -ℤ pos (length kids)) kids)

answer-IsFine :
    (server : Server)
    → IsAnswering server
    → (r : Request) (st : Store) → IsFine (answer server r st).1
unfolding answer
answer-IsFine server good (for_parents depth span) st =
    after_parents-IsFine depth span (reify_parents server span st)
      (parents_resolves server good span st)
answer-IsFine server good (for_children depth lim span) st =
    let (fine, (kids, known)) = children_resolves server good lim span st in
    after_children-IsFine depth lim span (reify_children server lim span st) kids fine known

results-AreFine : (ts : Tasks) (o : Outcome) → AreFine ts → results ts ≡ some o → o ≡ resolved none
unfolding results
results-AreFine nil o h e = cc
results-AreFine (cons (asked r) ts) o h e = cc
results-AreFine (cons (waiting us) ts) o h e = cc
results-AreFine (cons (over o1) ts) o h e = elim (Option-cases (results ts)) [
  | inl pending ↦ absurd (ground arith)
  | inr (o2, q) ↦
      let rest = results-AreFine ts o2 h.1 q in
      let all : some (both o1 o2) ≡ some o = rw q at e in
      let none_failed : both o1 o2 ≡ resolved none = rw (h.0, rest) in
      sym (some_inj all) ∙ none_failed
]

mutual
  Step-IsFine : (st st' : Store) (t t' : Task) → Step IsAnswering st t st' t' → IsFine t → IsFine t'
  Step-IsFine _ _ _ _ (answered server r st st' t good e) h =
      subst (λ (p : Store × Task). IsFine p.1) e (answer-IsFine server good r st)
  Step-IsFine _ _ _ _ (inside st st' ts ts' s) h = StepIn-AreFine st st' ts ts' s h
  Step-IsFine _ _ _ _ (joined st ts o e) h = results-AreFine ts o h e

  StepIn-AreFine :
      (st st' : Store) (ts ts' : Tasks)
      → StepIn IsAnswering st ts st' ts'
      → AreFine ts
      → AreFine ts'
  StepIn-AreFine _ _ _ _ (here st st' t t' ts s) h = (Step-IsFine st st' t t' s h.0, h.1)
  StepIn-AreFine _ _ _ _ (there st st' t ts ts' s) h = (h.0, StepIn-AreFine st st' ts ts' s h.1)

Runs-AreFine : (first st : Store) (ts : Tasks) → Runs IsAnswering first st ts → AreFine ts
Runs-AreFine first _ _ start = tt
Runs-AreFine first _ _ (click st ts r l h) = (tt, Runs-AreFine first st ts h)
Runs-AreFine first _ _ (step st st' ts ts' h s) =
    StepIn-AreFine st st' ts ts' s (Runs-AreFine first st ts h)

-- What can be done next, if anything is not over.
module _ (server : Server) (good : IsAnswering server) (st : Store) where
  abbrev CanGoOn : Tasks → Type 0
  CanGoOn ts = (st' : Store) × (ts' : Tasks) × StepIn IsAnswering st ts st' ts'

  all_results : (ts : Tasks) → AllResolved ts → results ts ≡ some (resolved none)
  unfolding results
  all_results nil h = refl
  all_results (cons t ts) h = rw (h.0, all_results ts h.1)

  abbrev IsOverOrGoesOn : Task → Type 0
  IsOverOrGoesOn t =
      (t ≡ over (resolved none)) ⊎ ((st' : Store) × (t' : Task) × Step IsAnswering st t st' t')

  abbrev AreOverOrGoOn : Tasks → Type 0
  AreOverOrGoOn ts = AllResolved ts ⊎ CanGoOn ts

  mutual
    task_goes_on : (t : Task) → IsFine t → IsOverOrGoesOn t
    task_goes_on (asked r) h =
        inr ((answer server r st).0, (answer server r st).1, answered server r st _ _ good refl)
    task_goes_on (over o) h = inl (ap over h)
    task_goes_on (waiting ts) h = elim (tasks_go_on ts h) [
      | inl all ↦ inr (st, over (resolved none), joined st ts (resolved none) (all_results ts all))
      | inr (st', ts', s) ↦ inr (st', waiting ts', inside st st' ts ts' s)
    ]

    tasks_go_on : (ts : Tasks) → AreFine ts → AreOverOrGoOn ts
    tasks_go_on nil h = inl tt
    tasks_go_on (cons t ts) h = elim (task_goes_on t h.0) [
      | inr (st', t', s) ↦ inr (st', cons t' ts, here st st' t t' ts s)
      | inl done ↦ elim (tasks_go_on ts h.1) [
        | inl all ↦ inl (done, all)
        | inr (st', ts', s) ↦ inr (st', cons t ts', there st st' t ts ts' s)
      ]
    ]

settles :
    (server : Server)
    → IsAnswering server
    → (st : Store) (ts : Tasks) → AreFine ts
    → Acc (NextOf IsAnswering) ts
    → Settles st ts
settles server good st ts fine (Acc.intro _ h) = elim (tasks_go_on server good st ts fine) [
  | inl all ↦ settled st ts all
  | inr on ↦ going_on st ts on (λ st' us s.
      settles server good st' us (StepIn-AreFine st st' ts us s fine) (h us (st, st', s)))
]

-- Let every answer of htraced be what was asked for, and let there be a server that gives such answers.
-- Then after any clicks and answers, in whatever order, all look-ups that are under way are resolved
-- with success in the end, in whatever order the rest of the answers come.
pub Runs-Settles :
    (server : Server)
    → IsAnswering server
    → (first st : Store) (ts : Tasks) → Runs IsAnswering first st ts
    → Settles st ts
Runs-Settles server good first st ts h =
    settles server good st ts (Runs-AreFine first st ts h) (look_ups_end IsAnswering ts)
