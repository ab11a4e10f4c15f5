-- ===== src/Sdk/Agent/Lifecycle.antt =====
-- `Start` and `Stop` of sdk/agent.go, with sdk/lifecycle.go and sdk/health.go, and the steps that an
-- agent takes in any order: the goroutines of the bus, of the handlers and of the caller interleave.
use baran_os.Base.{
  ℕ, ◌≡◌, [], ◌∷◌, ◌++◌, codes, Result, ok, err, Exec, true, false, failed, ◌>>◌, lift,
}
use baran_os.Eventbus.{Event}
use baran_os.Taxonomy.{Capability}
use baran_os.Sdk.Types.{created, starting, running, stopping, stopped, StepContext, Invocation}
use baran_os.Sdk.Agent.{
  Agent, Outside, Subscription, health, direct, publish, agent_event, dispatch_step, finish, handle,
}

-- subscribeHealth and subscribeDirect, with what bus.Subscribe returns
unfoldable pub subscribe : Subscription → Result Unit → Exec Agent Unit
subscribe s (err e) a = (err e, a)
subscribe s (ok _) a = (ok tt, record a { subs = a.subs ++ s ∷ [] })

-- an error after the state was set to starting puts it back
back_to_created : Exec Agent Unit → Exec Agent Unit
back_to_created m a =
    let (r, b) = m a in elim r [ ok _ ↦ (ok tt, b) | err e ↦ (err e, record b { state = created }) ]

unfoldable pub begin_running : Exec Agent Unit
begin_running b = (ok tt, record b { bus_open = true; state = running })

-- Stop up to the wait for the tasks in flight
unfoldable pub begin_stop : Agent → Agent
begin_stop a = elim a.state [ running ↦ record a { state = stopping; subs = [] } | _ ↦ a ]

module _ (o : Outside) where
  -- the callback of subscribeHealth and publishHealthPong, which always return nil
  unfoldable pub answer_ping : Event → Agent → Agent
  unfolding publish agent_event
  answer_ping event a = elim (o.unmarshal_ping event.payload) [
    | err e ↦ a
    | ok sequence ↦ (elim (o.marshal_pong a.id sequence) [
      | err e ↦ a
      | ok bytes ↦ (publish o true (agent_event o (codes "agent.health.pong") [] bytes a) a).1
    ])
  ]

  -- register
  unfoldable pub register : Exec Agent Unit
  unfolding publish agent_event
  register a = elim (o.marshal_register a) [
    | err e ↦ (err e, a)
    | ok bytes ↦ publish o true (agent_event o (codes "agent.register") [] bytes a) a
  ]

  -- unregister; its error is only logged
  unfoldable pub unregister : Agent → Agent
  unfolding publish agent_event
  unregister a = elim (o.marshal_unregister a.id) [
    | err e ↦ a
    | ok bytes ↦ (publish o true (agent_event o (codes "agent.unregister") [] bytes a) a).1
  ]

  -- Start, with what the connection and the two subscriptions return
  unfoldable pub start : Result Unit → Result Unit → Result Unit → Exec Agent Unit
  unfolding back_to_created register subscribe begin_running
  start connected health_result direct_result a = elim a.state [
    | created ↦
        back_to_created
          (do
            lift connected
            register
            subscribe health health_result
            subscribe direct direct_result
            begin_running)
          (record a { state = starting })
    | _ ↦ (err failed, a)
  ]

  -- Stop behind the wait, which ends when no task is in flight or at the shutdown timeout
  unfoldable pub end_stop : Agent → Agent
  unfolding unregister
  end_stop a = record (unregister (record a { bus_open = false })) { state = stopped }

  -- One step of an agent: a call of `Handle`, the parts of `Start` that others can run between, a
  -- delivery, the end of a task, and the two parts of `Stop`.
  pub data Step : Agent → Agent → Type 0 where
    handles :
        {a : Agent} (cap : Capability) (h : StepContext → Invocation) → Step a (handle cap h a)
    start_begins : {a : Agent} → a.state ≡ created → Step a (record a { state = starting })
    start_fails : {a : Agent} → a.state ≡ starting → Step a (record a { state = created })
    registers : {a : Agent} → a.state ≡ starting → Step a (register a).1
    subscribes :
        {a : Agent} (s : Subscription) (r : Result Unit)
        → a.state ≡ starting
        → Step a (subscribe s r a).1
    start_ends : {a : Agent} → a.state ≡ starting → Step a (begin_running a).1
    delivers : {a : Agent} (e : Event) → Step a (dispatch_step o e a)
    pinged : {a : Agent} (e : Event) → Step a (answer_ping e a)
    finishes : {a : Agent} (n : ℕ) → Step a (finish o n a)
    stop_begins : {a : Agent} → Step a (begin_stop a)
    stop_ends : {a : Agent} → a.state ≡ stopping → Step a (end_stop a)

  pub data Reach (a : Agent) : Agent → Type 0 where
    here : Reach a a
    then_step : {b c : Agent} → Reach a b → Step b c → Reach a c
