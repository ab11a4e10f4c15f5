-- ===== src/Registry/Store/Heartbeats.antt =====
-- What the compare-and-set methods of core/registry/kv.go do to the stored registration, on every
-- branch: `UpdateStatus`, `RecordHeartbeat`, `IncrementMissedHeartbeats`.
use baran_os.Base.{ℕ, ◌<◌, ◌≡◌, ◌≢◌, GoString, Error, ok, err, cas_conflict, arith}
use baran_os.Registry.Types.{Status, AgentRegistration}
use baran_os.Registry.Lifecycle.{on_miss, on_heartbeat}
use baran_os.Registry.Store.{
  Buckets, KvRegistry, get, update_status, record_heartbeat, increment_missed_heartbeats,
}
use baran_os.Registry.Store.Writes.{Laws, write_at-fits, write_at-stale}

module _ {B C V W : Type 0} (r : KvRegistry B C V W) where
  module _ (laws : Laws r) (id : GoString) (s : Buckets B C) (reg : AgentRegistration) (rev : ℕ)
      (found : get r id s ≡ ok (reg, rev)) where
    -- At the current revision `IncrementMissedHeartbeats` stores the registration after one more
    -- missed heartbeat, at a greater revision, and returns its status with that revision.
    pub increment_fits :
        (n : ℕ) × (rev < n)
        × ((increment_missed_heartbeats r id rev s).0
            ≡ ok ((on_miss r.unhealthy_threshold r.dead_threshold reg).status, n))
        × (get r id (increment_missed_heartbeats r id rev s).1
            ≡ ok (record (on_miss r.unhealthy_threshold r.dead_threshold reg) { revision = n }, n))
    unfolding increment_missed_heartbeats
    increment_fits =
        let (n, lt, done, stored) =
          write_at-fits r laws id reg (on_miss r.unhealthy_threshold r.dead_threshold reg) rev s
            found in
        (n, lt, ground (arith, found, done), ground (arith, found, done, stored))

    -- At the current revision `RecordHeartbeat` stores the registration after a heartbeat, at a
    -- greater revision, which it returns.
    pub heartbeat_fits :
        (now : ℕ)
        → (n : ℕ) × (rev < n)
          × ((record_heartbeat r now id rev s).0 ≡ ok n)
          × (get r id (record_heartbeat r now id rev s).1
              ≡ ok (record (on_heartbeat now reg) { revision = n }, n))
    unfolding record_heartbeat
    heartbeat_fits now =
        let (n, lt, done, stored) =
          write_at-fits r laws id reg (on_heartbeat now reg) rev s found in
        (n, lt, ground (arith, found, done), ground (arith, found, done, stored))

    -- At any other revision than the stored one all three methods return the CAS conflict, and
    -- neither bucket is changed: no update is lost.
    pub stale_refused :
        (now other : ℕ) (status : Status)
        → rev ≢ other
        → (increment_missed_heartbeats r id other s ≡ (err cas_conflict, s))
          × (record_heartbeat r now id other s ≡ (err cas_conflict, s))
          × (update_status r id status other s ≡ (err cas_conflict, s))
    unfolding increment_missed_heartbeats record_heartbeat update_status
    stale_refused now other status ne = (
      ground (
        arith,
        found,
        write_at-stale r laws id reg (on_miss r.unhealthy_threshold r.dead_threshold reg) rev other
            s found ne,
      ),
      ground
          (arith, found, write_at-stale r laws id reg (on_heartbeat now reg) rev other s found ne),
      ground (
        arith,
        found,
        write_at-stale r laws id reg (record reg { status = status }) rev other s found ne,
      ),
    )

  -- For an agent that cannot be read, the read's error is returned and nothing is written.
  pub unreadable_unchanged :
      (id : GoString) (s : Buckets B C) (e : Error) (now rev : ℕ) (status : Status)
      → get r id s ≡ err e
      → (increment_missed_heartbeats r id rev s ≡ (err e, s))
        × (record_heartbeat r now id rev s ≡ (err e, s))
        × (update_status r id status rev s ≡ (err e, s))
  unfolding increment_missed_heartbeats record_heartbeat update_status
  unreadable_unchanged id s e now rev status h =
      (ground (arith, h), ground (arith, h), ground (arith, h))
