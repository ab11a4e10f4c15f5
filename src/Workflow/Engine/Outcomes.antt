-- ===== src/Workflow/Engine/Outcomes.antt =====
-- Where a workflow goes from a result, an approval, a timeout or a lookup: what the engine
-- (core/workflow/engine.go) stores, routes and schedules.
pub mod Transitions
pub mod NextStep
use baran_os.Base.{
  ℕ, ◌+◌, ◌<◌, ◌≡◌, ◌≢◌, refl, sym, ap, ◌∙◌, GoString, codes, List, [], ◌∷◌, ◌++◌, length, Dict,
  lookup, delete, delete_gone, Option, none, some, Bool, true, false, ltb, if◌then◌else◌, Error,
  Result, ok, err, Exec, pure, raise, reads, lift, attempt, ◌>>=◌, ◌>>◌, arith, u32, cas_conflict,
}
use baran_os.Workflow.Types.{
  Status, StepDefinition, WorkflowState, WorkflowError, StepResult, is_failure,
}
use baran_os.Workflow.World.{World, Engine, load, save, cancel, draw_uuid, route, clock}
use baran_os.Workflow.World.Saving.{EngineLaws, save-fits, save-stale}
use baran_os.Workflow.Engine.{
  engine_routes, announce, cleanup, fail_workflow_with_error, complete_workflow, advance_workflow,
  proceed, next_step, stepped, finished, failed_with, failure_of,
}

module _ {B E V : Type 0} (g : Engine B E V) where
  pub load_bucket :
      (id : GoString) (w v : World B E) → v.bucket ≡ w.bucket → load g id v ≡ load g id w
  unfolding load
  load_bucket id w v same = ground (arith, same)

  -- to route an event, or to fail to, leaves the store and the timers alone
  abbrev pub SameStore : World B E → World B E → Type 0
  SameStore w v = (v.bucket ≡ w.bucket) × (v.timers ≡ w.timers)

  pub engine_routes-SameStore :
      (type target id : GoString) (now : ℕ) (payload : GoString) (w : World B E)
      → SameStore w (engine_routes g type target id now payload w).1
  unfolding engine_routes draw_uuid route
  engine_routes-SameStore type target id now payload w = ground arith

  pub announce-SameStore :
      (id : GoString) (r : Result Unit) (bytes : Result GoString) (type : GoString) (now : ℕ)
      (w : World B E)
      → SameStore w (announce g id r bytes type now w).1
  unfolding announce engine_routes draw_uuid route cleanup
  announce-SameStore id (err e) bytes type now w = ground arith
  announce-SameStore id (ok _) (err e) type now w = ground arith
  announce-SameStore id (ok _) (ok b) type now w = ground arith

  -- the state is stored, at a greater revision than the given one
  abbrev pub Stored : GoString → ℕ → World B E → WorkflowState → Type 0
  Stored id rev v next = (n : ℕ) × (rev < n) × (load g id v ≡ ok (next, n))

  module _ (laws : EngineLaws g) (id : GoString) (w : World B E) (st : WorkflowState) (rev : ℕ)
      (found : load g id w ≡ ok (st, rev)) where
    pub fail-Stored :
        (next : WorkflowState) (e : WorkflowError)
        → let after = (fail_workflow_with_error g id next rev e w).1 in
          Stored id rev after (failed_with next e (g.now w.env)) × (lookup id after.timers ≡ none)
    unfolding fail_workflow_with_error cancel
    fail-Stored next e =
        let u : World B E = record w { timers = delete id w.timers } in
        let (b, n, lt, saved, stored) =
          save-fits g laws id u st rev (failed_with next e (g.now w.env))
            (load_bucket id w u refl ∙ found) in
        let moved =
          ap
            (λ s.
              announce g id s.0
                (g.marshal_failed (failed_with next e (g.now w.env)) e (g.now w.env))
                (codes "workflow.failed") (g.now w.env) s.1)
            saved in
        let same =
          announce-SameStore id (ok tt)
            (g.marshal_failed (failed_with next e (g.now w.env)) e (g.now w.env))
            (codes "workflow.failed") (g.now w.env) (record u { bucket = b }) in
        (
          (
            n,
            lt,
            stored (fail_workflow_with_error g id next rev e w).1
                (ap (λ x. x.1.bucket) moved ∙ same.0),
          ),
          ap (λ x. lookup id x.1.timers) moved ∙ ap (lookup id) same.1 ∙ delete_gone id w.timers,
        )

    pub complete-Stored :
        (next : WorkflowState)
        → let after = (complete_workflow g id next rev w).1 in
          Stored id rev after (finished next (g.now w.env)) × (after.timers ≡ w.timers)
    unfolding complete_workflow
    complete-Stored next =
        let (b, n, lt, saved, stored) =
          save-fits g laws id w st rev (finished next (g.now w.env)) found in
        let moved =
          ap
            (λ s.
              announce g id s.0 (g.marshal_complete (finished next (g.now w.env)) (g.now w.env))
                (codes "workflow.complete") (g.now w.env) s.1)
            saved in
        let same =
          announce-SameStore id (ok tt)
            (g.marshal_complete (finished next (g.now w.env)) (g.now w.env))
            (codes "workflow.complete") (g.now w.env) (record w { bucket = b }) in
        (
          (
            n,
            lt,
            stored (complete_workflow g id next rev w).1 (ap (λ x. x.1.bucket) moved ∙ same.0),
          ),
          ap (λ x. x.1.timers) moved ∙ same.1,
        )

    -- at another revision only the timer is cancelled
    pub fail_stale :
        (other : ℕ) (next : WorkflowState) (e : WorkflowError)
        → rev ≢ other
        → fail_workflow_with_error g id next other e w
          ≡ (ok tt, record w { timers = delete id w.timers })
    unfolding fail_workflow_with_error cancel announce
    fail_stale other next e ne =
        let u : World B E = record w { timers = delete id w.timers } in
        rw
          (save-stale g laws id u st rev other (failed_with next e (g.now w.env))
            (load_bucket id w u refl ∙ found) ne)
          refl

    pub complete_stale :
        (other : ℕ) (next : WorkflowState)
        → rev ≢ other
        → complete_workflow g id next other w ≡ (ok tt, w)
    unfolding complete_workflow announce
    complete_stale other next ne =
        rw (save-stale g laws id w st rev other (finished next (g.now w.env)) found ne) refl

    pub proceed_stale :
        (other : ℕ) (next : WorkflowState) → rev ≢ other → proceed g id next other w ≡ (ok tt, w)
    unfolding proceed next_step
    proceed_stale other next ne =
        ground
          (arith, save-stale g laws id w st rev other next found ne, complete_stale other next ne)
