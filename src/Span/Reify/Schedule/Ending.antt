-- ===== src/Span/Reify/Schedule/Ending.antt =====
-- The look-ups that are under way come to an end, in whatever order htraced answers.
use incubator_htrace.Prelude.{
  ℕ, zero, suc, ◌≡◌, refl, ap, subst, Option, none, some, List, [], ◌∷◌, length, ◌∙◌, arith,
  Bool-cases, Option-cases, inl, inr,
}
use incubator_htrace.Prelude.Int.{ℤ, pos, ltb_ℤ, ◌-ℤ◌}
use mathlib.Core.WellFounded.{Acc}
use incubator_htrace.Span.Store.{Store, get_reified_parents}
use incubator_htrace.Span.Reify.{
  Server, Failure, Outcome, never, resolved, reify_parents, reify_children,
}
use incubator_htrace.Span.Reify.Schedule.{
  Request, for_parents, for_children, Task, asked, waiting, over, Tasks, nil, cons, ask_each,
  after_parents, deeper_children, after_children, answer, Step, answered, inside, joined, StepIn,
  here, there,
}

module _ (Allows : Server → Type 0) where
  -- What may come next of a look-up, and of several.
  abbrev pub Next : Task → Task → Type 0
  Next u t = (st : Store) × (st' : Store) × Step Allows st t st' u

  abbrev pub NextOf : Tasks → Tasks → Type 0
  NextOf us ts = (st : Store) × (st' : Store) × StepIn Allows st ts st' us

  over_stuck : (st st' : Store) (t u : Task) (o : Outcome) → Step Allows st t st' u → t ≡ over o → ⊥
  over_stuck _ _ _ _ o (answered server r st st' t ok e) h = cc
  over_stuck _ _ _ _ o (inside st st' ts ts' s) h = cc
  over_stuck _ _ _ _ o (joined st ts o' e) h = cc

  over_ends : (o : Outcome) → Acc Next (over o)
  over_ends o =
      Acc.intro (over o) (λ u (st, st', s). absurd (over_stuck st st' (over o) u o s refl))

  waiting_step :
      (ts : Tasks)
      → ((us : Tasks) → NextOf us ts → Acc Next (waiting us))
      → (st st' : Store) (t u : Task) → Step Allows st t st' u
      → t ≡ waiting ts
      → Acc Next u
  waiting_step ts h _ _ _ _ (answered server r st st' t ok e) q = cc
  waiting_step ts h _ _ _ _ (inside st st' ts' us s) q =
      let same : ts' ≡ ts = cc in h us (st, st', subst (λ vs. StepIn Allows st vs st' us) same s)
  waiting_step ts h _ _ _ _ (joined st ts' o e) q = over_ends o

  waiting_ends : (ts : Tasks) → Acc NextOf ts → Acc Next (waiting ts)
  waiting_ends ts (Acc.intro _ h) =
      Acc.intro (waiting ts)
        (λ u (st, st', s). waiting_step ts (λ us n. waiting_ends us (h us n)) st st' _ u s refl)

  nil_stuck : (st st' : Store) (ts us : Tasks) → StepIn Allows st ts st' us → ts ≡ nil → ⊥
  nil_stuck _ _ _ _ (here st st' t t' ts s) h = cc
  nil_stuck _ _ _ _ (there st st' t ts ts' s) h = cc

  nil_ends : Acc NextOf nil
  nil_ends = Acc.intro nil (λ us (st, st', s). absurd (nil_stuck st st' nil us s refl))

  cons_step :
      (t : Task) (ts : Tasks)
      → ((u : Task) → Next u t → Acc NextOf (cons u ts))
      → ((us : Tasks) → NextOf us ts → Acc NextOf (cons t us))
      → (st st' : Store) (vs us : Tasks) → StepIn Allows st vs st' us
      → vs ≡ cons t ts
      → Acc NextOf us
  cons_step t ts first later _ _ _ _ (here st st' t1 u ts1 s) q =
      let same : t1 ≡ t = cc in
      let rest : ts ≡ ts1 = cc in
      subst (λ vs. Acc NextOf (cons u vs)) rest
        (first u (st, st', subst (λ v. Step Allows st v st' u) same s))
  cons_step t ts first later _ _ _ _ (there st st' t1 ts1 us s) q =
      let same : t ≡ t1 = cc in
      let rest : ts1 ≡ ts = cc in
      subst (λ v. Acc NextOf (cons v us)) same
        (later us (st, st', subst (λ vs. StepIn Allows st vs st' us) rest s))

  cons_ends : (t : Task) (ts : Tasks) → Acc Next t → Acc NextOf ts → Acc NextOf (cons t ts)
  cons_ends t ts (Acc.intro _ h) (Acc.intro _ hs) = Acc.intro (cons t ts) (λ us (st, st', s).
      cons_step t ts (λ u n. cons_ends u ts (h u n) (Acc.intro ts hs))
        (λ vs n. cons_ends t vs (Acc.intro t h) (hs vs n)) st st' _ us s refl)

  asked_step :
      (r : Request)
      → ((server : Server) (st : Store) → Acc Next (answer server r st).1)
      → (st st' : Store) (t u : Task) → Step Allows st t st' u
      → t ≡ asked r
      → Acc Next u
  asked_step r h _ _ _ _ (answered server r' st st' u ok e) q =
      let same : r ≡ r' = cc in
      subst (Acc Next) (ap (λ q. (answer server q st).1) same ∙ ap (λ (p : Store × Task). p.1) e)
        (h server st)
  asked_step r h _ _ _ _ (inside st st' ts us s) q = cc
  asked_step r h _ _ _ _ (joined st ts o e) q = cc

  asked_ends :
      (r : Request)
      → ((server : Server) (st : Store) → Acc Next (answer server r st).1)
      → Acc Next (asked r)
  asked_ends r h = Acc.intro (asked r) (λ u (st, st', s). asked_step r h st st' _ u s refl)

  ask_each_ends :
      (request : ℕ → Request) (ks : List ℕ)
      → ((k : ℕ) → Acc Next (asked (request k)))
      → Acc NextOf (ask_each request ks)
  ask_each_ends request [] h = nil_ends
  ask_each_ends request (k ∷ ks) h = cons_ends _ _ (h k) (ask_each_ends request ks h)

  after_parents_ends :
      (depth span : ℕ) (r : Store × Outcome)
      → ((d k : ℕ) → suc d ≡ depth → Acc Next (asked (for_parents d k)))
      → Acc Next (after_parents depth span r).1
  after_parents_ends depth span (st, never) h = over_ends never
  after_parents_ends depth span (st, resolved (some err)) h = over_ends _
  after_parents_ends zero span (st, resolved none) h = over_ends _
  after_parents_ends (suc depth) span (st, resolved none) h =
      waiting_ends _
        (ask_each_ends (for_parents depth) (get_reified_parents st span) (λ k. h depth k refl))

  deeper_children_ends :
      (depth : ℕ) (lim : ℤ) (kids : List ℕ) (err : Option Failure)
      → ((d k : ℕ) → suc d ≡ depth → Acc Next (asked (for_children d lim k)))
      → Acc Next (deeper_children depth lim kids err)
  deeper_children_ends depth lim kids (some err) h = over_ends _
  deeper_children_ends zero lim kids none h = over_ends _
  deeper_children_ends (suc depth) lim kids none h = elim (Bool-cases (ltb_ℤ (pos 0) lim)) [
    | inl more ↦
        rw more (waiting_ends _ (ask_each_ends (for_children depth lim) kids (λ k. h depth k refl)))
    | inr stop ↦ rw stop (over_ends _)
  ]

  after_children_ends :
      (depth : ℕ) (lim : ℤ) (span : ℕ) (r : Store × Outcome)
      → ((d : ℕ) (l : ℤ) (k : ℕ) → suc d ≡ depth → Acc Next (asked (for_children d l k)))
      → Acc Next (after_children depth lim span r).1
  after_children_ends depth lim span (st, never) h = over_ends never
  after_children_ends depth lim span (st, resolved err) h =
      elim (Option-cases (st.cell span).reified_children) [
        | inl null ↦ rw (after_children, null) (over_ends never)
        | inr (kids, e) ↦
            rw (after_children, e)
              (deeper_children_ends depth (lim -ℤ pos (length kids)) kids err
                (λ d k q. h d (lim -ℤ pos (length kids)) k q))
      ]

  parents_end : (depth span : ℕ) → Acc Next (asked (for_parents depth span))
  unfolding answer
  parents_end zero span =
      asked_ends (for_parents zero span)
        (λ server st. after_parents_ends zero span (reify_parents server span st) (λ d k q. cc))
  parents_end (suc depth) span = asked_ends (for_parents (suc depth) span) (λ server st.
      after_parents_ends (suc depth) span (reify_parents server span st) (λ d k q.
        let same : depth ≡ d = ground arith in
        subst (λ e. Acc Next (asked (for_parents e k))) same (parents_end depth k)))

  children_end : (depth : ℕ) (lim : ℤ) (span : ℕ) → Acc Next (asked (for_children depth lim span))
  unfolding answer
  children_end zero lim span = asked_ends (for_children zero lim span) (λ server st.
      after_children_ends zero lim span (reify_children server lim span st) (λ d l k q. cc))
  children_end (suc depth) lim span = asked_ends (for_children (suc depth) lim span) (λ server st.
      after_children_ends (suc depth) lim span (reify_children server lim span st) (λ d l k q.
        let same : depth ≡ d = ground arith in
        subst (λ e. Acc Next (asked (for_children e l k))) same (children_end depth l k)))

  mutual
    task_ends : (t : Task) → Acc Next t
    task_ends (asked (for_parents depth span)) = parents_end depth span
    task_ends (asked (for_children depth lim span)) = children_end depth lim span
    task_ends (waiting ts) = waiting_ends ts (tasks_end ts)
    task_ends (over o) = over_ends o

    tasks_end : (ts : Tasks) → Acc NextOf ts
    tasks_end nil = nil_ends
    tasks_end (cons t ts) = cons_ends t ts (task_ends t) (tasks_end ts)

  -- The look-ups of any number of clicks do not go on for ever, if there are no more clicks, whatever
  -- htraced answers and in whatever order: there is no infinite sequence of steps.
  pub look_ups_end : (ts : Tasks) → Acc NextOf ts
  look_ups_end ts = tasks_end ts
