-- ===== src/A2a/Cancelling.antt =====
-- CancelTask of a2a/task_manager.go, and what comes after it.
use baran_os.Base.{ℕ, ◌≡◌, refl, [], GoString, is_empty, true, false, ok, arith}
use baran_os.Eventbus.{Event}
use baran_os.Workflow.Types.{failed, is_terminal, WorkflowState}
use baran_os.Workflow.World.{World, load}
use baran_os.Workflow.World.Saving.{EngineLaws, save-fits}
use baran_os.Workflow.Handler.{StepResultPayload, handle_workflow_step_result}
use baran_os.Workflow.Engine.{time_out_step}
use baran_os.Workflow.Handler.Requests.{terminal_absorbs}
use baran_os.A2a.{
  TaskManager, task_failed, canceled, answered, refused, task_not_cancelable, task_now, get_task,
  canceled_task, cancel_task,
}

module _ {B E V : Type 0} (m : TaskManager B E V) (laws : EngineLaws m.engine) where
  -- A task whose workflow is stored and has not ended is cancelled by one write of its state: the
  -- timers, the pending decisions and what the node has sent are as before. From then on `GetTask`
  -- says that it has failed, with the time of the cancellation and no artifact, a second `CancelTask`
  -- is refused, and a step result that still comes and the timer of a step change nothing.
  pub canceled_task_ends :
      (w : World B E) (id : GoString) (s : WorkflowState) (rev : ℕ)
      → load m.engine id w ≡ ok (s, rev)
      → is_terminal s.status ≡ false
      → is_empty id ≡ false
      → (b : B) × let after = record w { bucket = b } in
          (cancel_task m id w ≡ (answered (task_now m id canceled w), after))
          × (get_task m id after ≡ answered (task_now m id task_failed w))
          × (cancel_task m id after ≡ (refused task_not_cancelable, after))
          × ((event : Event) (payload : StepResultPayload) (step : ℕ) (agent : GoString)
              → event.workflow_id ≡ id
              → (handle_workflow_step_result m.engine event (ok payload) after ≡ (ok tt, after))
                × (time_out_step m.engine id step agent after ≡ after))
  unfolding get_task cancel_task canceled_task
  canceled_task_ends w id s rev found going named =
      let next = record s { status = failed; updated_at = m.engine.now w.env } in
      let (b, n, later, done, stored) = save-fits m.engine laws id w s rev next found in
      let after = record w { bucket = b } in
      let at = stored after refl in
      (
        b,
        (
          ground (arith, found, going, done),
          ground (arith, at),
          ground (arith, at),
          λ event payload step agent same.
              let (result, answer, decision, timer, approval) =
                terminal_absorbs m.engine after id next n event payload [] agent [] true step at
                  refl same named in
              (result, timer),
        ),
      )
