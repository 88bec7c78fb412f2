-- ===== src/Span/Reify/Schedule/Hanging.antt =====
-- One refused query leaves the whole look-up without an answer.
use incubator_htrace.Prelude.{
  ℕ, ◌≡◌, refl, sym, subst, ◌≢◌, ◌∙◌, Option, none, some, arith, some_inj, Option-cases, inl, inr,
  ◌⊎◌,
}
use incubator_htrace.Prelude.Int.{ℤ}
use incubator_htrace.Span.Store.{Store}
use incubator_htrace.Span.Reify.{Server, Failure, Outcome, never, resolved, both}
use incubator_htrace.Span.Reify.Answered.{refused}
use incubator_htrace.Span.Reify.Schedule.{
  for_children, Task, asked, waiting, over, Tasks, nil, cons, after_children, answer, results, Step,
  answered, inside, joined, StepIn, here, there,
}
use incubator_htrace.Span.Reify.Schedule.Sequential.{Steps, stay, onward}

-- Somewhere in a look-up, the query for the children of a span is answered, by a server that refuses
-- it, while these children are not known.
mutual
  pub data RefusedStep : Store → Task → Store → Task → Type 0 where
    refused_here :
        (server : Server) (depth : ℕ) (lim : ℤ) (span : ℕ) (st st' : Store) (t : Task)
        → server.children (st.cell span).span_id lim ≡ none
        → (st.cell span).reified_children ≡ none
        → answer server (for_children depth lim span) st ≡ (st', t)
        → RefusedStep st (asked (for_children depth lim span)) st' t
    refused_inside :
        (st st' : Store) (ts ts' : Tasks)
        → RefusedIn st ts st' ts'
        → RefusedStep st (waiting ts) st' (waiting ts')

  pub data RefusedIn : Store → Tasks → Store → Tasks → Type 0 where
    refused_first :
        (st st' : Store) (t t' : Task) (ts : Tasks)
        → RefusedStep st t st' t'
        → RefusedIn st (cons t ts) st' (cons t' ts)
    refused_later :
        (st st' : Store) (t : Task) (ts ts' : Tasks)
        → RefusedIn st ts st' ts'
        → RefusedIn st (cons t ts) st' (cons t ts')

-- A promise in it is lost.
abbrev mutual
  IsLost : Task → Type 0
  IsLost (asked r) = ⊥
  IsLost (waiting ts) = AnyLost ts
  IsLost (over o) = o ≡ never

  AnyLost : Tasks → Type 0
  AnyLost nil = ⊥
  AnyLost (cons t ts) = IsLost t ⊎ AnyLost ts

refused-IsLost :
    (server : Server) (depth : ℕ) (lim : ℤ) (span : ℕ) (st : Store)
    → server.children (st.cell span).span_id lim ≡ none
    → (st.cell span).reified_children ≡ none
    → IsLost (answer server (for_children depth lim span) st).1
unfolding answer
refused-IsLost server depth lim span st h k =
    subst (λ (r : Store × Outcome). IsLost (after_children depth lim span r).1)
      (sym (refused server lim span st h)) (rw (after_children, k) refl)

mutual
  RefusedStep-IsLost : (st st' : Store) (t t' : Task) → RefusedStep st t st' t' → IsLost t'
  RefusedStep-IsLost _ _ _ _ (refused_here server depth lim span st st' t h k e) =
      subst (λ (p : Store × Task). IsLost p.1) e (refused-IsLost server depth lim span st h k)
  RefusedStep-IsLost _ _ _ _ (refused_inside st st' ts ts' h) = RefusedIn-AnyLost st st' ts ts' h

  RefusedIn-AnyLost : (st st' : Store) (ts ts' : Tasks) → RefusedIn st ts st' ts' → AnyLost ts'
  RefusedIn-AnyLost _ _ _ _ (refused_first st st' t t' ts h) =
      inl (RefusedStep-IsLost st st' t t' h)
  RefusedIn-AnyLost _ _ _ _ (refused_later st st' t ts ts' h) =
      inr (RefusedIn-AnyLost st st' ts ts' h)

both_never : (o : Outcome) → both o never ≡ never
both_never never = refl
both_never (resolved none) = refl
both_never (resolved (some f)) = refl

results-AnyLost : (ts : Tasks) (o : Outcome) → AnyLost ts → results ts ≡ some o → o ≡ never
unfolding results
results-AnyLost nil o h e = absurd h
results-AnyLost (cons (asked r) ts) o h e = cc
results-AnyLost (cons (waiting us) ts) o h e = cc
results-AnyLost (cons (over o1) ts) o h e = elim (Option-cases (results ts)) [
  | inl pending ↦ absurd (ground arith)
  | inr (o2, q) ↦
      let all : some (both o1 o2) ≡ some o = rw q at e in
      sym (some_inj all) ∙ (elim h [
        | inl first ↦ rw first
        | inr later ↦ rw (results-AnyLost ts o2 later q) (both_never o1)
      ])
]

module _ (Allows : Server → Type 0) where
  mutual
    Step-IsLost : (st st' : Store) (t t' : Task) → Step Allows st t st' t' → IsLost t → IsLost t'
    Step-IsLost _ _ _ _ (answered server r st st' t ok e) h = absurd h
    Step-IsLost _ _ _ _ (inside st st' ts ts' s) h = StepIn-AnyLost st st' ts ts' s h
    Step-IsLost _ _ _ _ (joined st ts o e) h = results-AnyLost ts o h e

    StepIn-AnyLost :
        (st st' : Store) (ts ts' : Tasks) → StepIn Allows st ts st' ts' → AnyLost ts → AnyLost ts'
    StepIn-AnyLost _ _ _ _ (here st st' t t' ts s) (inl h) = inl (Step-IsLost st st' t t' s h)
    StepIn-AnyLost _ _ _ _ (here st st' t t' ts s) (inr h) = inr h
    StepIn-AnyLost _ _ _ _ (there st st' t ts ts' s) (inl h) = inl h
    StepIn-AnyLost _ _ _ _ (there st st' t ts ts' s) (inr h) =
        inr (StepIn-AnyLost st st' ts ts' s h)

  Steps-IsLost : (st st' : Store) (t t' : Task) → Steps Allows st t st' t' → IsLost t → IsLost t'
  Steps-IsLost _ _ _ _ (stay st t) h = h
  Steps-IsLost _ _ _ _ (onward st1 st2 st3 t1 t2 t3 s r) h =
      Steps-IsLost st2 st3 t2 t3 r (Step-IsLost st1 st2 t1 t2 s h)

  -- If, at any depth of a look-up, the query for the children of one span is refused while its
  -- children are not known, then the promise of the whole look-up is never resolved, neither with
  -- success nor with an error, whatever else is answered, and in whatever order.
  pub refused_hangs :
      (st st1 st2 : Store) (t t1 t2 : Task)
      → RefusedStep st t st1 t1
      → Steps Allows st1 t1 st2 t2
      → (e : Option Failure) → t2 ≢ over (resolved e)
  refused_hangs st st1 st2 t t1 t2 r s e q =
      let lost = Steps-IsLost st1 st2 t1 t2 s (RefusedStep-IsLost st st1 t t1 r) in
      let same : resolved e ≡ never = subst IsLost q lost in cc
