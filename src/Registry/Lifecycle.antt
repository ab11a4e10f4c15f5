-- ===== src/Registry/Lifecycle.antt =====
-- The lifecycle of an agent between ACTIVE, UNHEALTHY and DEAD: the state changes of
-- `IncrementMissedHeartbeats` and `RecordHeartbeat` in core/registry/kv.go.
pub mod Thresholds
use baran_os.Base.{ℕ, zero, suc, ◌&&◌, if◌then◌else◌, i32_leb, i32_inc}
use baran_os.Registry.Types.{
  Status, active, unhealthy, dead, is_active, is_unhealthy, AgentRegistration,
}

-- one heartbeat more is missed; `u` and `d` are the two thresholds
unfoldable pub on_miss : ℕ → ℕ → AgentRegistration → AgentRegistration
on_miss u d reg =
    let missed = i32_inc reg.missed_heartbeats in
    record reg {
      missed_heartbeats = missed;
      status =
          if i32_leb d missed && is_unhealthy reg.status
          then dead
          else if i32_leb u missed && is_active reg.status
          then unhealthy
          else reg.status;
    }

-- a heartbeat at the time `now`
unfoldable pub on_heartbeat : ℕ → AgentRegistration → AgentRegistration
on_heartbeat now reg = record reg {
  missed_heartbeats = 0;
  last_seen = now;
  status = if is_unhealthy reg.status then active else reg.status;
}

-- `n` heartbeats in a row are missed
pub misses : ℕ → ℕ → ℕ → AgentRegistration → AgentRegistration
misses u d zero reg = reg
misses u d (suc n) reg = on_miss u d (misses u d n reg)
