-- ===== src/Health/Pongs.antt =====
-- `handlePong` of core/health/monitor.go while the ping loop writes the same registration.
use baran_os.Base.{
  ℕ, zero, suc, ◌≡◌, ◌≢◌, refl, ap, ◌∙◌, GoString, ok, err, Error, cas_conflict, ==_iff, ◌==◌, ◌⊎◌,
  inl, inr, Bool-cases, if◌then◌else◌,
}
use baran_os.Registry.{
  Status, registering, active, unhealthy, dead, unregistered, is_unhealthy, AgentRegistration,
}
use baran_os.Registry.Lifecycle.{on_heartbeat}
use baran_os.Registry.Store.{Buckets, get, record_heartbeat}
use baran_os.Registry.Store.Writes.{Laws}
use baran_os.Registry.Store.Heartbeats.{heartbeat_fits, stale_refused}
use baran_os.Health.{Monitor, attempts, settle, handle_pong}

not_unhealthy : (s : Status) → (if is_unhealthy s then active else s) ≢ unhealthy
not_unhealthy registering h = cc
not_unhealthy active h = cc
not_unhealthy unhealthy h = cc
not_unhealthy dead h = cc
not_unhealthy unregistered h = cc

module _ {B C V W : Type 0} (m : Monitor B C V W) (laws : Laws m.registry) (id : GoString)
    (now : ℕ) where
  -- the agent is registered
  abbrev pub Readable : Buckets B C → Type 0
  Readable s = (reg : AgentRegistration) × (rev : ℕ) × (get m.registry id s ≡ ok (reg, rev))

  -- the agent is stored as seen now, with no missed heartbeats, and it is not UNHEALTHY
  pub record Recorded (s : Buckets B C) : Type 0 where
    pub rev : ℕ
    pub agent : AgentRegistration
    pub found : get m.registry id s ≡ ok (agent, rev)
    pub seen : agent.last_seen ≡ now
    pub none_missed : agent.missed_heartbeats ≡ 0
    pub revived : agent.status ≢ unhealthy

  heartbeat-Recorded :
      (before : AgentRegistration) (rev : ℕ) (s : Buckets B C)
      → get m.registry id s ≡ ok (record (on_heartbeat now before) { revision = rev }, rev)
      → Recorded s
  unfolding on_heartbeat
  heartbeat-Recorded before rev s stored = record {
    rev = rev;
    agent = record (on_heartbeat now before) { revision = rev };
    found = stored;
    seen = refl;
    none_missed = refl;
    revived = not_unhealthy before.status;
  }

  -- one attempt: it records the heartbeat, or the revision has changed and nothing is written
  one_attempt :
      (rev : ℕ) (s : Buckets B C)
      → Readable s
      → (((n : ℕ) × ((record_heartbeat m.registry now id rev s).0 ≡ ok n))
          × Recorded (record_heartbeat m.registry now id rev s).1)
        ⊎ ((e : Error) × (record_heartbeat m.registry now id rev s ≡ (err e, s)))
  one_attempt rev s (reg, cur, found) = elim (Bool-cases (cur == rev)) [
    | inl same ↦
        let here : get m.registry id s ≡ ok (reg, rev) =
          found ∙ ap (λ k. ok (reg, k)) ((==_iff cur rev).0 same) in
        let (n, _, done, stored) = heartbeat_fits m.registry laws id s reg rev here now in
        inl ((n, done), heartbeat-Recorded reg n _ stored)
    | inr other ↦
        let ne : cur ≢ rev = λ e. cc ((==_iff cur rev).1 e, other) in
        inr (cas_conflict, (stale_refused m.registry laws id s reg cur found now rev active ne).1)
  ]

  module _ (others : ℕ → Buckets B C → Buckets B C)
      (keeps : (n : ℕ) (s : Buckets B C) → Readable s → Readable (others n s)) where
    attempts_once :
        (n : ℕ) (s : Buckets B C) {reg : AgentRegistration} {rev : ℕ}
        → get m.registry id s ≡ ok (reg, rev)
        → let (r, t) = record_heartbeat m.registry now id rev (others n s) in
          attempts m others (suc n) now id s ≡ settle m r (attempts m others n now id) t
    unfolding attempts
    attempts_once n s found = rw (found, attempts) refl

    attempts-Recorded :
        (n : ℕ) (s : Buckets B C)
        → ((s : Buckets B C) → others 0 s ≡ s)
        → Readable s
        → ((attempts m others (suc n) now id s).0 ≡ ok tt)
          × Recorded (attempts m others (suc n) now id s).1
    unfolding settle
    attempts-Recorded zero s quiet (reg, rev, found) =
        let (k, _, done, stored) = heartbeat_fits m.registry laws id s reg rev found now in
        rw (attempts_once zero s found, quiet s, done) (refl, heartbeat-Recorded reg k _ stored)
    attempts-Recorded (suc n) s quiet (reg, rev, found) =
        let t = others (suc n) s in
        let next = keeps (suc n) s (reg, rev, found) in
        elim (one_attempt rev t next) [
          | inl ((k, done), r) ↦ rw (attempts_once (suc n) s found, done) (refl, r)
          | inr (e, lost) ↦
              rw (attempts_once (suc n) s found, lost) (attempts-Recorded n t quiet next)
        ]

    -- The pong of a registered agent is recorded, whatever other writers do between the reads and the
    -- writes of the first four attempts, as long as they leave the agent registered and leave the
    -- fifth attempt alone: it then has no missed heartbeat, is seen now, and is not UNHEALTHY.
    pub pong-Recorded :
        (payload : GoString) (s : Buckets B C)
        → m.unmarshal_pong payload ≡ ok id
        → ((s : Buckets B C) → others 0 s ≡ s)
        → Readable s
        → ((handle_pong m others now payload s).0 ≡ ok tt)
          × Recorded (handle_pong m others now payload s).1
    unfolding handle_pong
    pong-Recorded payload s decodes quiet there =
        rw (decodes, handle_pong) (attempts-Recorded 4 s quiet there)
