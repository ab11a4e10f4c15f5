-- ===== src/Health.antt =====
-- core/health/monitor.go: the pings of a node to its agents, and their pongs.
pub mod Silence
pub mod Pongs
use baran_os.Base.{
  ℕ, zero, suc, ◌+◌, List, [], ◌∷◌, ◌++◌, GoString, codes, length, Bool, true, false, ◌||◌,
  if◌then◌else◌, Result, ok, err, Exec, failed,
}
use baran_os.Eventbus.{Event}
use baran_os.Registry.{AgentRegistration, is_active, is_unhealthy, is_dead}
use baran_os.Registry.Store.{
  Buckets, KvRegistry, get, list, deregister, record_heartbeat, increment_missed_heartbeats,
}

pub record Watch (B C : Type 0) : Type 0 where
  pub stores : Buckets B C
  pub sequence : ℕ
  pub published : List Event

-- Monitor, with what it takes from protobuf, the bus, uuid and the clock.
pub record Monitor (B C V W : Type 0) : Type 0 where
  pub registry : KvRegistry B C V W
  pub node_id : GoString
  pub marshal_ping : GoString → ℕ → Result GoString
  pub marshal_dead : GoString → GoString
  pub unmarshal_pong : GoString → Result GoString
  pub bus_takes : Event → Result Unit
  pub uuid : ℕ → GoString
  pub now : ℕ → ℕ

module _ {B C V W : Type 0} (m : Monitor B C V W) where
  -- `_ = m.bus.Publish(...)`: an error is dropped
  unfoldable pub publish : Event → Watch B C → Watch B C
  publish event w = elim (m.bus_takes event) [
    | ok _ ↦ record w { published = w.published ++ event ∷ [] }
    | err e ↦ w
  ]

  runtime_event : GoString → GoString → GoString → Watch B C → Event
  runtime_event type target payload w = record {
    id = m.uuid (length w.published);
    type = type;
    source_node = m.node_id;
    source_agent = codes "runtime";
    target_agent = target;
    workflow_id = [];
    correlation_id = [];
    timestamp = m.now (length w.published);
    metadata = [];
    payload = payload;
  }

  -- handleDeadAgent, which drops the errors of both calls
  unfoldable pub handle_dead_agent : GoString → Watch B C → Watch B C
  unfolding publish runtime_event
  handle_dead_agent agent_id w =
      let told = publish (runtime_event (codes "agent.error") [] (m.marshal_dead agent_id) w) w in
      record told { stores = (deregister m.registry agent_id told.stores).1 }

  -- one round of the loop of pingRound behind the ping: the counter, and the end of a dead agent
  unfoldable pub count_miss : AgentRegistration → Watch B C → Watch B C
  unfolding handle_dead_agent
  count_miss agent w =
      let (r, s) = increment_missed_heartbeats m.registry agent.agent_id agent.revision w.stores in
      let counted = record w { stores = s } in
      elim r [
        | err e ↦ counted
        | ok (status, rev) ↦
            if is_dead status then handle_dead_agent agent.agent_id counted else counted
      ]

  -- one round of the loop of pingRound
  unfoldable pub ping_agent : AgentRegistration → Watch B C → Watch B C
  unfolding publish runtime_event count_miss
  ping_agent agent w =
      if is_active agent.status || is_unhealthy agent.status
      then (let drawn = record w { sequence = suc w.sequence } in
          elim (m.marshal_ping agent.agent_id drawn.sequence) [
            | err e ↦ drawn
            | ok bytes ↦ count_miss agent (
                publish (runtime_event (codes "agent.health.ping") agent.agent_id bytes drawn)
                  drawn)
          ])
      else w

  ping_agents : List AgentRegistration → Watch B C → Watch B C
  unfolding ping_agent
  ping_agents [] w = w
  ping_agents (agent ∷ agents) w = ping_agents agents (ping_agent agent w)

  -- pingRound
  unfoldable pub ping_round : Watch B C → Watch B C
  unfolding ping_agents
  ping_round w = elim (list m.registry w.stores) [ err e ↦ w | ok agents ↦ ping_agents agents w ]

  unfoldable pub settle : Result ℕ → Exec (Buckets B C) Unit → Exec (Buckets B C) Unit
  settle (ok _) rest t = (ok tt, t)
  settle (err e) rest t = rest t

  -- the retries of handlePong. `others` is what the other goroutines of the node do to the buckets
  -- between the read and the write of the attempt with that many attempts left behind it.
  unfoldable pub attempts :
      (ℕ → Buckets B C → Buckets B C) → ℕ → ℕ → GoString → Exec (Buckets B C) Unit
  unfolding settle
  attempts others zero now agent_id s = (err failed, s)
  attempts others (suc n) now agent_id s =
      let rest = attempts others n now agent_id in
      elim (get m.registry agent_id s) [
        | err e ↦ (err e, s)
        | ok (reg, rev) ↦
            let (written, t) = record_heartbeat m.registry now agent_id rev (others n s) in
            settle written rest t
      ]

  abbrev pub max_retries : ℕ
  max_retries = 5

  -- handlePong
  unfoldable pub handle_pong :
      (ℕ → Buckets B C → Buckets B C) → ℕ → GoString → Exec (Buckets B C) Unit
  unfolding attempts
  handle_pong others now payload s = elim (m.unmarshal_pong payload) [
    | err e ↦ (err e, s)
    | ok agent_id ↦ attempts others max_retries now agent_id s
  ]
