-- ===== src/Health/Silence.antt =====
-- An agent that answers no ping of core/health/monitor.go.
use Prim.Native.Nat.{max}
use baran_os.Base.{
  ok_value, codes, is_ok, ◌||◌, ℕ, zero, suc, ◌+◌, ◌≤◌, ◌<◌, ◌≡◌, refl, ap, ◌∙◌, GoString, Result,
  ok, err, not_found, str_eq_refl, arith, ◌⊎◌, inl, inr, true, false, Bool-cases,
}
use baran_os.Eventbus.{Event}
use baran_os.Registry.{Status, AgentRegistration, active, is_dead, is_active, is_unhealthy}
use baran_os.Registry.Lifecycle.{on_miss}
use baran_os.Registry.Lifecycle.Thresholds.{status_after, step_status}
use baran_os.Registry.Store.{get, deregister, increment_missed_heartbeats}
use baran_os.Registry.Store.Writes.{Laws, get-revision}
use baran_os.Registry.Store.Heartbeats.{increment_fits}
use baran_os.Registry.Store.Registering.{get-deregister}
use baran_os.Health.{
  Monitor, Watch, publish, runtime_event, ping_agent, count_miss, handle_dead_agent,
}

live_before :
    (u d n : ℕ) (status : Status)
    → status ≡ status_after u d n
    → n < max d (u + 1)
    → (is_active status || is_unhealthy status) ≡ true
live_before u d n status is lt = ground (arith, is, lt)

dead_behind :
    (u d n : ℕ) (status : Status)
    → status ≡ status_after u d n
    → is_dead status ≡ true
    → max d (u + 1) ≤ n
dead_behind u d n status is gone = ground (arith, is, gone)

not_dead_before :
    (u d n : ℕ) (status : Status)
    → status ≡ status_after u d n
    → is_dead status ≡ false
    → n < max d (u + 1)
not_dead_before u d n status is alive = ground (arith, is, alive)

module _ {B C V W : Type 0} (m : Monitor B C V W) where
  -- the rounds of pings to one agent, with no pong between them
  again : Result (AgentRegistration × ℕ) → Watch B C → Watch B C
  again (ok (reg, rev)) w = ping_agent m reg w
  again (err e) w = w

  unfoldable pub unanswered : ℕ → GoString → Watch B C → Watch B C
  unfolding again
  unanswered zero id w = w
  unanswered (suc n) id w =
      let before = unanswered n id w in again (get m.registry id before.stores) before

  publish_stores : (e : Event) (w : Watch B C) → (publish m e w).stores ≡ w.stores
  unfolding publish
  publish_stores e w = ground arith

  handle_dead_stores :
      (id : GoString) (w : Watch B C)
      → (handle_dead_agent m id w).stores ≡ (deregister m.registry id w.stores).1
  unfolding handle_dead_agent
  handle_dead_stores id w = ap (λ s. (deregister m.registry id s).1) (publish_stores _ w)

  module _ (laws : Laws m.registry) where
    -- the agent is counted once more; a status that becomes DEAD removes it
    count_miss_lem :
        (id : GoString) (w : Watch B C) (reg : AgentRegistration) (rev : ℕ)
        → get m.registry id w.stores ≡ ok (reg, rev)
        → reg.agent_id ≡ id
        → let next = on_miss m.registry.unhealthy_threshold m.registry.dead_threshold reg in
          ((is_dead next.status ≡ false)
            × ((n : ℕ) × (get m.registry id (count_miss m reg w).stores
                  ≡ ok (record next { revision = n }, n))))
          ⊎ ((is_dead next.status ≡ true)
              × (get m.registry id (count_miss m reg w).stores ≡ err not_found))
    unfolding count_miss
    count_miss_lem id w reg rev found named =
        let next = on_miss m.registry.unhealthy_threshold m.registry.dead_threshold reg in
        let (n, _, done, stored) = increment_fits m.registry laws id w.stores reg rev found in
        let same = get-revision m.registry id w.stores found in
        let call : increment_missed_heartbeats m.registry reg.agent_id reg.revision w.stores
            ≡ increment_missed_heartbeats m.registry id rev w.stores =
          ap (λ k. increment_missed_heartbeats m.registry k reg.revision w.stores) named
          ∙ ap (λ k. increment_missed_heartbeats m.registry id k w.stores) same in
        elim (Bool-cases (is_dead next.status)) [
          | inr alive ↦ inl (alive, (n, ground (arith, call, done, alive, stored)))
          | inl gone ↦
              let after = (increment_missed_heartbeats m.registry id rev w.stores).1 in
              let counted = record w { stores = after } in
              inr (
                gone,
                ground (
                  arith,
                  call,
                  done,
                  gone,
                  named,
                  handle_dead_stores id counted,
                  (get-deregister m.registry laws id id after).1,
                  str_eq_refl id,
                ),
              )
        ]

    module _ (encodes : (id : GoString) (n : ℕ) → is_ok (m.marshal_ping id n) ≡ true)
        (u_pos : 0 < m.registry.unhealthy_threshold)
        (u_int32 : m.registry.unhealthy_threshold < 2147483648)
        (d_int32 : m.registry.dead_threshold < 2147483648) where
      ping_stores :
          (w : Watch B C) (reg : AgentRegistration)
          → (is_active reg.status || is_unhealthy reg.status) ≡ true
          → (v : Watch B C) × (v.stores ≡ w.stores) × (ping_agent m reg w ≡ count_miss m reg v)
      unfolding ping_agent
      ping_stores w reg live =
          let drawn = record w { sequence = suc w.sequence } in
          let (bytes, enc) = ok_value (m.marshal_ping reg.agent_id drawn.sequence) (encodes _ _) in
          let e = runtime_event m (codes "agent.health.ping") reg.agent_id bytes drawn in
          (publish m e drawn, publish_stores e drawn, rw (live, enc) refl)

      abbrev pub limit : ℕ
      limit = max m.registry.dead_threshold (m.registry.unhealthy_threshold + 1)

      -- the agent after some unanswered pings, fewer than the limit
      record Counted (id : GoString) (n : ℕ) (w : Watch B C) : Type 0 where
        reg : AgentRegistration
        rev : ℕ
        found : get m.registry id w.stores ≡ ok (reg, rev)
        named : reg.agent_id ≡ id
        missed : reg.missed_heartbeats ≡ n
        status :
            reg.status ≡ status_after m.registry.unhealthy_threshold m.registry.dead_threshold n

      Counted-once :
          (id : GoString) (n : ℕ) (w : Watch B C)
          → suc n < 2147483648
          → n < limit
          → Counted id n w
          → ((suc n < limit) × Counted id (suc n) (again (get m.registry id w.stores) w))
            ⊎ ((limit ≤ suc n)
                × (get m.registry id (again (get m.registry id w.stores) w).stores ≡ err not_found))
      unfolding again
      Counted-once id n w small early c =
          let u = m.registry.unhealthy_threshold in
          let d = m.registry.dead_threshold in
          let live : (is_active c.reg.status || is_unhealthy c.reg.status) ≡ true =
            live_before u d n c.reg.status c.status early in
          let (v, same, pinged) = ping_stores w c.reg live in
          let (missed, status) =
            step_status u d u_pos u_int32 d_int32 n c.reg small c.missed c.status in
          let seen : again (get m.registry id w.stores) w ≡ count_miss m c.reg v =
            ap (λ r. again r w) c.found ∙ pinged in
          let found = ap (get m.registry id) same ∙ c.found in
          elim (count_miss_lem id v c.reg c.rev found c.named) [
            | inl (alive, (k, stored)) ↦ inl (
              not_dead_before u d (suc n) _ status alive,
              record {
                reg = record (on_miss u d c.reg) { revision = k };
                rev = k;
                found = ap (λ x. get m.registry id x.stores) seen ∙ stored;
                named = unfold on_miss in c.named;
                missed = missed;
                status = status;
              },
            )
            | inr (gone, removed) ↦ inr (
              dead_behind u d (suc n) _ status gone,
              ap (λ x. get m.registry id x.stores) seen ∙ removed,
            )
          ]

      -- after so many rounds the agent is counted, and from the limit on it is gone
      Outcome : GoString → ℕ → Watch B C → Type 0
      Outcome id n w =
          ((n < limit) × Counted id n w)
          ⊎ ((limit ≤ n) × (get m.registry id w.stores ≡ err not_found))

      unanswered-Outcome :
          (id : GoString) (n : ℕ) (w : Watch B C)
          → n < 2147483648
          → Outcome id 0 w
          → Outcome id n (unanswered n id w)
      unfolding unanswered Outcome
      unanswered-Outcome id zero w small h = h
      unanswered-Outcome id (suc n) w small h =
          let v = unanswered n id w in
          elim (unanswered-Outcome id n w (omega (arith, small)) h) [
            | inl (early, c) ↦ Counted-once id n v small early c
            | inr (late, gone) ↦
                inr
                  (omega (arith, late), ap (λ r. get m.registry id (again r v).stores) gone ∙ gone)
          ]

      -- An ACTIVE agent with no missed heartbeat that answers no ping is still registered, with its
      -- misses counted and the status that they lead to, after fewer pings than the dead threshold and
      -- one more than the unhealthy threshold both allow; from that many pings on it is not found.
      pub silent_agent_removed :
          (id : GoString) (n : ℕ) (w : Watch B C) (reg : AgentRegistration) (rev : ℕ)
          → n < 2147483648
          → get m.registry id w.stores ≡ ok (reg, rev)
          → reg.agent_id ≡ id
          → reg.status ≡ active
          → reg.missed_heartbeats ≡ 0
          → ((n < limit)
              × ((now : AgentRegistration) × (k : ℕ) × (get m.registry id (unanswered n id w).stores
                    ≡ ok (now, k))
                  × (now.missed_heartbeats ≡ n)
                  × (now.status
                      ≡ status_after m.registry.unhealthy_threshold m.registry.dead_threshold n)))
            ⊎ ((limit ≤ n) × (get m.registry id (unanswered n id w).stores ≡ err not_found))
      unfolding Outcome
      silent_agent_removed id n w reg rev small found named fresh none_missed =
          let start : Outcome id 0 w = inl (
            omega arith,
            record {
              reg = reg;
              rev = rev;
              found = found;
              named = named;
              missed = none_missed;
              status = ground (arith, fresh, u_pos);
            },
          ) in
          elim (unanswered-Outcome id n w small start) [
            | inl (early, c) ↦ inl (early, (c.reg, c.rev, c.found, c.missed, c.status))
            | inr late ↦ inr late
          ]
