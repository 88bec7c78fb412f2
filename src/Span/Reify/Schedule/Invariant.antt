-- ===== src/Span/Reify/Schedule/Invariant.antt =====
-- What no order of the answers breaks: the models have no cycle.
use incubator_htrace.Prelude.{
  ℕ, zero, suc, ◌≤◌, ◌<◌, ◌≡◌, refl, sym, subst, Option, none, some, List, [], ◌∷◌, length, arith,
  All, All-imp, Bool-cases, Option-cases, inl, inr,
}
use incubator_htrace.Prelude.Int.{ℤ, pos, ltb_ℤ, ◌-ℤ◌}
use incubator_htrace.Span.Store.{Store, get_reified_parents}
use incubator_htrace.Span.Reify.{
  Server, Failure, Outcome, never, resolved, reify_parents, reify_children,
}
use incubator_htrace.Span.Reify.Links.{parents_of}
use incubator_htrace.Span.Reify.Acyclic.{
  IsAcyclic, Keeps, Keeps-trans, reify_parents-Keeps, reify_children-Keeps,
}
use incubator_htrace.Span.Reify.Downward.{kids_in_use}
use incubator_htrace.Span.Reify.Schedule.{
  Request, for_parents, for_children, Task, asked, waiting, over, Tasks, nil, cons, span_of,
  ask_each, after_parents, deeper_children, after_children, answer, Step, answered, inside, joined,
  StepIn, here, there, Runs, start, click, step,
}

-- All spans that the look-ups are for are in use.
abbrev mutual
  pub Concerns : ℕ → Task → Type 0
  Concerns next (asked r) = span_of r < next
  Concerns next (waiting ts) = AllConcern next ts
  Concerns next (over o) = Unit

  pub AllConcern : ℕ → Tasks → Type 0
  AllConcern next nil = Unit
  AllConcern next (cons t ts) = Concerns next t × AllConcern next ts

mutual
  Concerns-later : (n m : ℕ) (t : Task) → n ≤ m → Concerns n t → Concerns m t
  Concerns-later n m (asked r) l h = omega arith
  Concerns-later n m (waiting ts) l h = AllConcern-later n m ts l h
  Concerns-later n m (over o) l h = tt

  AllConcern-later : (n m : ℕ) (ts : Tasks) → n ≤ m → AllConcern n ts → AllConcern m ts
  AllConcern-later n m nil l h = tt
  AllConcern-later n m (cons t ts) l h = (Concerns-later n m t l h.0, AllConcern-later n m ts l h.1)

ask_each-AllConcern :
    (next : ℕ) (request : ℕ → Request) (ks : List ℕ)
    → ((k : ℕ) → span_of (request k) ≡ k)
    → All (λ k. k < next) ks
    → AllConcern next (ask_each request ks)
ask_each-AllConcern next request [] own h = tt
ask_each-AllConcern next request (k ∷ ks) own h =
    (subst (λ j. j < next) (sym (own k)) h.0, ask_each-AllConcern next request ks own h.1)

-- What an answer leaves of the models, and a task for spans in use.
abbrev Follows : Store → Store × Task → Type 0
Follows st (st', t) = (st' ≡ st) × Concerns st.next t

after_parents-Follows :
    (depth span : ℕ) (r : Store × Outcome)
    → IsAcyclic r.0
    → Follows r.0 (after_parents depth span r)
after_parents-Follows depth span (st, never) a = (refl, tt)
after_parents-Follows depth span (st, resolved (some err)) a = (refl, tt)
after_parents-Follows zero span (st, resolved none) a = (refl, tt)
after_parents-Follows (suc depth) span (st, resolved none) a = (
  refl,
  ask_each-AllConcern st.next (for_parents depth) (get_reified_parents st span) (λ k. refl)
      (unfold get_reified_parents in
        All-imp (parents_of (st.cell span)) (λ y k. k.1) (a.parents.falls span)),
)

deeper_children-Concerns :
    (next depth : ℕ) (lim : ℤ) (kids : List ℕ) (err : Option Failure)
    → All (λ k. k < next) kids
    → Concerns next (deeper_children depth lim kids err)
deeper_children-Concerns next depth lim kids (some err) h = tt
deeper_children-Concerns next zero lim kids none h = tt
deeper_children-Concerns next (suc depth) lim kids none h = elim (Bool-cases (ltb_ℤ (pos 0) lim)) [
  | inl more ↦ rw more (ask_each-AllConcern next (for_children depth lim) kids (λ k. refl) h)
  | inr stop ↦ rw stop tt
]

after_children-Follows :
    (depth : ℕ) (lim : ℤ) (span : ℕ) (r : Store × Outcome)
    → IsAcyclic r.0
    → Follows r.0 (after_children depth lim span r)
after_children-Follows depth lim span (st, never) a = (refl, tt)
after_children-Follows depth lim span (st, resolved err) a =
    elim (Option-cases (st.cell span).reified_children) [
      | inl null ↦ rw (after_children, null) (refl, tt)
      | inr (kids, e) ↦
          rw (after_children, e)
            (
              refl,
              deeper_children-Concerns st.next depth (lim -ℤ pos (length kids)) kids err
                  (kids_in_use span st kids a e),
            )
    ]

-- The models have no cycle, the spans in use are in use still, and the task is for such.
abbrev Leaves : Store → Store × Task → Type 0
Leaves st (st', t) = Keeps st st' × Concerns st'.next t

Follows-Leaves : (st st1 : Store) (r : Store × Task) → Keeps st st1 → Follows st1 r → Leaves st r
Follows-Leaves st st1 (st2, t) k (same, c) =
    (subst (Keeps st) (sym same) k, subst (λ (s : Store). Concerns s.next t) (sym same) c)

-- An answer makes no cycle, and the look-ups that it starts are for spans in use.
answer-Leaves :
    (server : Server) (r : Request) (st : Store)
    → span_of r < st.next
    → IsAcyclic st
    → Leaves st (answer server r st)
unfolding answer
answer-Leaves server (for_parents depth span) st l a =
    let k = reify_parents-Keeps span st l a server in
    Follows-Leaves st (reify_parents server span st).0 _ k
      (after_parents-Follows depth span (reify_parents server span st) k.0)
answer-Leaves server (for_children depth lim span) st l a =
    let k = reify_children-Keeps span st l a server lim in
    Follows-Leaves st (reify_children server lim span st).0 _ k
      (after_children-Follows depth lim span (reify_children server lim span st) k.0)

module _ (Allows : Server → Type 0) where
  mutual
    Step-Leaves :
        (st st' : Store) (t t' : Task)
        → Step Allows st t st' t'
        → Concerns st.next t
        → IsAcyclic st
        → Leaves st (st', t')
    Step-Leaves _ _ _ _ (answered server r st st' t ok e) l a =
        subst (Leaves st) e (answer-Leaves server r st l a)
    Step-Leaves _ _ _ _ (inside st st' ts ts' h) c a = StepIn-Leaves st st' ts ts' h c a
    Step-Leaves _ _ _ _ (joined st ts o e) c a = ((a, omega arith), tt)

    StepIn-Leaves :
        (st st' : Store) (ts ts' : Tasks)
        → StepIn Allows st ts st' ts'
        → AllConcern st.next ts
        → IsAcyclic st
        → Keeps st st' × AllConcern st'.next ts'
    StepIn-Leaves _ _ _ _ (here st st' t t' ts h) c a =
        let (k, d) = Step-Leaves st st' t t' h c.0 a in
        (k, (d, AllConcern-later st.next st'.next ts k.1 c.1))
    StepIn-Leaves _ _ _ _ (there st st' t ts ts' h) c a =
        let (k, d) = StepIn-Leaves st st' ts ts' h c.1 a in
        (k, (Concerns-later st.next st'.next t k.1 c.0, d))

  -- If the models have no cycle of parents or of children, then whatever the user clicks, however
  -- many look-ups there are at once, and whatever htraced answers to them in whatever order: the
  -- models still have no cycle, the spans in use are still in use, and so are those that anything is
  -- being looked up for.
  pub Runs-Keeps :
      (first st : Store) (ts : Tasks)
      → Runs Allows first st ts
      → IsAcyclic first
      → Keeps first st × AllConcern st.next ts
  Runs-Keeps first _ _ start a = ((a, omega arith), tt)
  Runs-Keeps first _ _ (click st ts r l h) a =
      let (k, c) = Runs-Keeps first st ts h a in (k, (l, c))
  Runs-Keeps first _ _ (step st st' ts ts' h s) a =
      let (k, c) = Runs-Keeps first st ts h a in
      let (k', c') = StepIn-Leaves st st' ts ts' s c k.0 in (Keeps-trans first st st' k k', c')
