-- ===== src/Stage/Session.antt =====
-- The page from its set-up on: one event that the manager is handed.
use incubator_htrace.Prelude.{ℕ, ◌≡◌, refl, sym, subst, true, some, List, All}
use incubator_htrace.Span.Store.{Store}
use incubator_htrace.Widget.{Number, Event, mouse_move, IsWithout}
use incubator_htrace.Widget.Manager.{contains}
use incubator_htrace.Results.Spans.{Families}
use incubator_htrace.Canvas.Page.{Coordinates, Scene, partition_widget}
use incubator_htrace.Canvas.Setup.{IsCreated}
use incubator_htrace.Stage.{Stage, new_stage, deliver_event}
use incubator_htrace.Stage.Start.{IsFresh, first_listeners-Fits, contains-all}
use incubator_htrace.Stage.Working.{IsWorking, handle_each-IsWorking}

module _ {W : Type 0} ⦃n : Number W⦄ (st : Store) (fuel : ℕ) (search_results : List ℕ)
    (families : Families st fuel search_results) where
  pub new_stage-IsWorking :
      (scene : Scene W)
      → All IsFresh scene.widgets
      → IsWorking fuel search_results (new_stage scene st) (new_stage scene st)
  unfolding new_stage
  new_stage-IsWorking scene fresh = record {
    places = refl;
    presses = refl;
    drawings = refl;
    dblclicks = refl;
    fits = first_listeners-Fits scene.widgets fresh;
    families = families;
  }

  module _ (c : Coordinates W) (begin end : W) where
    pub IsFresh-IsCreated : IsCreated st c begin end IsFresh
    unfolding partition_widget
    IsFresh-IsCreated = record {
      groups = λ b. tt;
      rows = λ w span. tt;
      ups = λ r h. refl;
      downs = λ r h. refl;
      partitions = λ y. refl;
      cursors = λ t. tt;
    }

module _ {W : Type 0} ⦃n : Number W⦄ (without : List ℕ → ℕ → List ℕ) (law : IsWithout without)
    (fuel : ℕ) (search_results : List ℕ) (start : Stage W) where
  abbrev Working : Stage W → Type 0
  Working s = IsWorking fuel search_results start s

  pub deliver_event-IsWorking :
      (e : Event W) (s : Stage W)
      → Working s
      → (s' : Stage W) × (deliver_event without fuel search_results e s ≡ some s') × Working s'
  unfolding deliver_event
  deliver_event-IsWorking e s working =
      let ls = s.desk.listeners in
      handle_each-IsWorking without law fuel search_results start e (ls e.type) s working (λ m.
        subst (λ t. All (λ k. contains k (ls mouse_move) ≡ true) (ls t)) (sym m)
          (contains-all (ls mouse_move)))
