-- ===== src/Sdk/Agent/Draining.antt =====
-- `Stop` of sdk/agent.go: no task starts any more, and the tasks in flight drain.
use mathlib.Core.List.Permᴰ
use mathlib.Core.List.{Permᴰ, append-nil}
use baran_os.Base.{
  ok_value, GoString, is_ok, ℕ, zero, suc, ◌≤◌, ◌≡◌, refl, sym, subst, ◌∙◌, All, ap, ◌++◌, Error,
  err, ok, codes, append_assoc, ◌⊎◌, List, [], ◌∷◌, length, none, some, Result, true, false, Bool,
  inl, inr, arith,
}
use baran_os.Eventbus.{Event}
use baran_os.Sdk.Types.{
  AgentState, created, starting, running, stopping, stopped, safe_invoke, WorkflowStepResultPayload,
  is_stopping,
}
use baran_os.Sdk.Payloads.{step_result_type}
use baran_os.Sdk.Agent.{
  Agent, Task, Outside, publish, agent_event, dispatch_step, decoded_step, accepts, finish,
  finished, take_out, complete, publish_step_result, result_payload, handle, build_step_context,
}
use baran_os.Sdk.Agent.Lifecycle.{
  Step, Reach, here, then_step, handles, start_begins, start_fails, registers, subscribes,
  start_ends, delivers, pinged, finishes, stop_begins, stop_ends, unregister, answer_ping,
  begin_stop, end_stop,
}

-- an order in which a number of tasks can end
abbrev pub IsOrder : List ℕ → ℕ → Type 0
IsOrder [] zero = Unit
IsOrder [] (suc k) = ⊥
IsOrder (n ∷ ns) zero = ⊥
IsOrder (n ∷ ns) (suc k) = (n ≤ k) × IsOrder ns k

stopping_cases : (s : AgentState) → is_stopping s ≡ true → (s ≡ stopping) ⊎ (s ≡ stopped)
stopping_cases created h = cc
stopping_cases starting h = cc
stopping_cases running h = cc
stopping_cases stopping h = inl refl
stopping_cases stopped h = inr refl

abbrev pub HasContext : Task → Type 0
HasContext t = t.context ≡ true

nothing_left : (ts : List Task) → length ts ≡ 0 → Permᴰ [] ts
nothing_left [] h = Permᴰ.nil
nothing_left (t ∷ ts) h = absurd (omega (arith, h))

module _ (o : Outside) where
  -- what a step leaves of the state and of the tasks of an agent that is stopping or stopped
  record Quiet (a b : Agent) : Type 0 where
    stays : is_stopping b.state ≡ true
    fewer : length b.in_flight ≤ length a.in_flight

  publish_quiet :
      (live : Bool) (e : Event) (a : Agent)
      → ((publish o live e a).1.state ≡ a.state) × ((publish o live e a).1.in_flight ≡ a.in_flight)
  unfolding publish
  publish_quiet live e a = ground arith

  dispatch_quiet :
      (e : Event) (a : Agent)
      → is_stopping a.state ≡ true
      → ((dispatch_step o e a).state ≡ a.state) × ((dispatch_step o e a).in_flight ≡ a.in_flight)
  unfolding dispatch_step decoded_step accepts
  dispatch_quiet e a h = ground (arith, h)

  ping_quiet :
      (e : Event) (a : Agent)
      → ((answer_ping o e a).state ≡ a.state) × ((answer_ping o e a).in_flight ≡ a.in_flight)
  unfolding answer_ping publish
  ping_quiet e a = ground arith

  unregister_quiet :
      (a : Agent) → ((unregister o a).state ≡ a.state) × ((unregister o a).in_flight ≡ a.in_flight)
  unfolding unregister publish
  unregister_quiet a = ground arith

  complete_quiet : (t : Task) (a : Agent) → (complete o t a).state ≡ a.state
  unfolding complete publish_step_result publish
  complete_quiet t a = ground arith

  take_out-length :
      (n : ℕ) (ts : List Task)
      → ((take_out n ts).0 ≡ none) × ((take_out n ts).1 ≡ ts)
        ⊎ ((t : Task) × ((take_out n ts).0 ≡ some t) × (suc (length (take_out n ts).1) ≡ length ts))
  unfolding take_out
  take_out-length n [] = inl (refl, refl)
  take_out-length zero (t ∷ ts) = inr (t, refl, refl)
  take_out-length (suc n) (t ∷ ts) = elim (take_out-length n ts) [
    | inl (out, same) ↦ inl (out, ap (◌∷◌ t) same)
    | inr (u, is, l) ↦ inr (u, is, ap suc l)
  ]

  finish_quiet :
      (n : ℕ) (a : Agent)
      → ((finish o n a).state ≡ a.state) × (length (finish o n a).in_flight ≤ length a.in_flight)
  unfolding finish finished
  finish_quiet n a = elim (take_out-length n a.in_flight) [
    | inl (out, same) ↦ (rw out refl, rw out (omega arith))
    | inr (t, is, l) ↦ (rw is (complete_quiet t a), rw is (omega (arith, l)))
  ]

  Step-Quiet : (a b : Agent) → is_stopping a.state ≡ true → Step o a b → Quiet a b
  unfolding handle begin_stop end_stop
  Step-Quiet a b h (handles cap f) = record { stays = h; fewer = omega arith }
  Step-Quiet a b h (start_begins e) = absurd (ground (arith, h, e))
  Step-Quiet a b h (start_fails e) = absurd (ground (arith, h, e))
  Step-Quiet a b h (registers e) = absurd (ground (arith, h, e))
  Step-Quiet a b h (subscribes s r e) = absurd (ground (arith, h, e))
  Step-Quiet a b h (start_ends e) = absurd (ground (arith, h, e))
  Step-Quiet a b h (delivers e) =
      let (s, t) = dispatch_quiet e a h in record { stays = rw s h; fewer = rw t (omega arith) }
  Step-Quiet a b h (pinged e) =
      let (s, t) = ping_quiet e a in record { stays = rw s h; fewer = rw t (omega arith) }
  Step-Quiet a b h (finishes n) =
      let (s, l) = finish_quiet n a in record { stays = rw s h; fewer = l }
  Step-Quiet a b h stop_begins = record { stays = ground (arith, h); fewer = ground (arith, h) }
  Step-Quiet a b h (stop_ends e) =
      let (s, t) = unregister_quiet (record a { bus_open = false }) in
      record { stays = refl; fewer = rw t (omega arith) }

  quiet_since :
      (a b : Agent)
      → is_stopping a.state ≡ true
      → Reach o a b
      → (is_stopping b.state ≡ true) × (length b.in_flight ≤ length a.in_flight)
  quiet_since a _ h here = (h, omega arith)
  quiet_since a b h (then_step {b = c} way step) =
      let (still, few) = quiet_since a c h way in
      let last = Step-Quiet c b still step in (last.stays, omega (arith, few, last.fewer))

  -- From the moment that `Stop` of a running agent begins, whatever calls, deliveries and endings of
  -- tasks follow in whatever order, the agent is stopping or stopped, and the number of tasks in
  -- flight is never greater than when it began.
  pub stop_starts_nothing :
      (a b : Agent)
      → a.state ≡ running
      → Reach o (begin_stop a) b
      → ((b.state ≡ stopping) ⊎ (b.state ≡ stopped)) × (length b.in_flight ≤ length a.in_flight)
  unfolding begin_stop
  stop_starts_nothing a b runs way =
      let begun : is_stopping (begin_stop a).state ≡ true = rw runs refl in
      let kept : (begin_stop a).in_flight ≡ a.in_flight = rw runs refl in
      let (still, few) = quiet_since (begin_stop a) b begun way in
      (stopping_cases b.state still, rw⁻¹ kept few)

  -- the tasks end in some order, each named by its place in the list when it ends
  unfoldable pub finish_all : List ℕ → Agent → Agent
  unfolding finish
  finish_all [] a = a
  finish_all (n ∷ ns) a = finish_all ns (finish o n a)

  -- The event is the report of the task by an agent: of its workflow, with its step, and with what its
  -- handler gave, a success with the bytes or a failure.
  pub record IsReport (agent_id : GoString) (t : Task) (e : Event) : Type 0 where
    pub type_is :
        e.type ≡ codes "workflow." ++ (t.payload.workflow_id ++ codes ".workflow.step.result")
    pub of_workflow : e.workflow_id ≡ t.payload.workflow_id
    pub sender : e.source_agent ≡ agent_id
    pub payload : WorkflowStepResultPayload
    pub encoded : o.marshal_result payload ≡ ok e.payload
    pub of_step : payload.step_index ≡ t.payload.step_index
    pub outcome :
        let given = safe_invoke (t.entry.handler (build_step_context t.payload)) in
        ((bytes : GoString) × (given ≡ ok bytes)
          × (payload.is_success ≡ true)
          × (payload.result ≡ bytes))
        ⊎ ((x : Error) × (given ≡ err x)
            × (payload.is_success ≡ false)
            × (payload.error ≡ some (codes "STEP_FAILED", agent_id)))

  -- one report for each task, in the same order
  abbrev pub Reports : GoString → List Task → List Event → Type 0
  Reports id [] [] = Unit
  Reports id [] (e ∷ es) = ⊥
  Reports id (t ∷ ts) [] = ⊥
  Reports id (t ∷ ts) (e ∷ es) = IsReport id t e × Reports id ts es

  take_out-some :
      (n : ℕ) (ts : List Task)
      → suc n ≤ length ts
      → (t : Task) × ((take_out n ts).0 ≡ some t)
        × (suc (length (take_out n ts).1) ≡ length ts)
        × Permᴰ (t ∷ (take_out n ts).1) ts
        × (All HasContext ts → HasContext t × All HasContext (take_out n ts).1)
  unfolding take_out
  take_out-some n [] le = absurd (omega arith)
  take_out-some zero (t ∷ ts) le = (t, refl, refl, Permᴰ.refl (t ∷ ts), λ h. h)
  take_out-some (suc n) (t ∷ ts) le =
      let (u, is, l, p, h) = take_out-some n ts (omega arith) in
      (
        u,
        is,
        ap suc l,
        Permᴰ.trans (Permᴰ.swap refl refl) (Permᴰ.cons refl p),
        λ c. ((h c.1).0, (c.0, (h c.1).1)),
      )

  module _ (encodes : (p : WorkflowStepResultPayload) → is_ok (o.marshal_result p) ≡ true)
      (takes : (e : Event) → is_ok (o.bus_takes true e) ≡ true) where
    report :
        (t : Task) (a : Agent) (r : Result GoString)
        → r ≡ safe_invoke (t.entry.handler (build_step_context t.payload))
        → (bytes : GoString)
        → o.marshal_result (result_payload a.id t.payload.step_index r) ≡ ok bytes
        → IsReport a.id t
            (agent_event o (step_result_type t.payload.workflow_id) t.payload.workflow_id bytes a)
    unfolding agent_event result_payload
    report t a (ok given) is bytes enc = record {
      type_is = refl;
      of_workflow = refl;
      sender = refl;
      payload = result_payload a.id t.payload.step_index (ok given);
      encoded = enc;
      of_step = refl;
      outcome = inl (given, sym is, refl, refl);
    }
    report t a (err x) is bytes enc = record {
      type_is = refl;
      of_workflow = refl;
      sender = refl;
      payload = result_payload a.id t.payload.step_index (err x);
      encoded = enc;
      of_step = refl;
      outcome = inr (x, sym is, refl, refl);
    }

    complete_reports :
        (t : Task) (a : Agent)
        → a.bus_open ≡ true
        → HasContext t
        → (e : Event) × IsReport a.id t e
          × ((complete o t a).published ≡ a.published ++ e ∷ [])
          × ((complete o t a).bus_open ≡ true)
          × ((complete o t a).id ≡ a.id)
    unfolding complete publish_step_result publish
    complete_reports t a up there =
        let r = safe_invoke (t.entry.handler (build_step_context t.payload)) in
        let (bytes, enc) =
          ok_value (o.marshal_result (result_payload a.id t.payload.step_index r)) (encodes _) in
        let e =
          agent_event o (step_result_type t.payload.workflow_id) t.payload.workflow_id bytes a in
        let (x, taken) = ok_value (o.bus_takes true e) (takes e) in
        (
          e,
          report t a r refl bytes enc,
          ground (arith, enc, up, there, taken),
          ground (arith, enc, up, there, taken),
          ground (arith, enc, up, there, taken),
        )

    drains :
        (order : List ℕ) (k : ℕ) (a : Agent)
        → a.bus_open ≡ true
        → All HasContext a.in_flight
        → length a.in_flight ≡ k
        → IsOrder order k
        → (ended : List Task) × (events : List Event) × Permᴰ ended a.in_flight
          × Reports a.id ended events
          × ((finish_all order a).published ≡ a.published ++ events)
          × (length (finish_all order a).in_flight ≡ 0)
    unfolding finish_all
    drains [] zero a up cs all is =
        ([], [], nothing_left a.in_flight all, tt, sym (append-nil a.published), all)
    drains [] (suc k) a up cs all is = absurd is
    drains (n ∷ ns) zero a up cs all is = absurd is
    drains (n ∷ ns) (suc k) a up cs all (le, is) =
        let (t, found, l, perm, kept) = take_out-some n a.in_flight (omega (arith, le, all)) in
        let (there, rest) = kept cs in
        let (e, reported, out, open_still, same_id) = complete_reports t a up there in
        let next : finish o n a
            ≡ record (complete o t a) { in_flight = (take_out n a.in_flight).1 } =
          unfold finish finished in rw found refl in
        let b = record (complete o t a) { in_flight = (take_out n a.in_flight).1 } in
        let (ended, events, order_of, reports, published, none_left) =
          drains ns k b open_still rest (omega (arith, l, all)) is in
        (
          t ∷ ended,
          e ∷ events,
          Permᴰ.trans (Permᴰ.cons refl order_of) perm,
          (reported, subst (λ i. Reports i ended events) same_id reports),
          ap (λ x. (finish_all ns x).published) next
              ∙ published
              ∙ ap (λ l. l ++ events) out
              ∙ append_assoc a.published (e ∷ []) events,
          ap (λ x. length (finish_all ns x).in_flight) next ∙ none_left,
        )

    -- On a bus that takes every event, in whatever order the tasks in flight end, what is published is
    -- one report for each of them and no other event, and no task is left for `Stop` to wait for. The
    -- tasks were started while the agent had its context.
    pub stop_drains :
        (order : List ℕ) (a : Agent)
        → a.bus_open ≡ true
        → All HasContext a.in_flight
        → IsOrder order (length a.in_flight)
        → (ended : List Task) × (events : List Event) × Permᴰ ended a.in_flight
          × Reports a.id ended events
          × ((finish_all order a).published ≡ a.published ++ events)
          × (length (finish_all order a).in_flight ≡ 0)
    stop_drains order a up cs is = drains order (length a.in_flight) a up cs refl is
