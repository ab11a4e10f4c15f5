-- ===== src/Registry/Lifecycle/Thresholds.antt =====
-- How many missed heartbeats make an agent unhealthy and dead.
use Prim.Native.Nat.{max}
use baran_os.Base.{ℕ, zero, suc, ◌+◌, ◌<◌, ◌≡◌, refl, ltb, if◌then◌else◌, arith, ◌⊎◌}
use baran_os.Registry.Types.{Status, active, unhealthy, dead, AgentRegistration}
use baran_os.Registry.Lifecycle.{on_miss, on_heartbeat, misses}

-- The status that `n` misses in a row lead to from ACTIVE: the agent is UNHEALTHY from the `u`-th
-- miss on, and DEAD from the `d`-th on, but at least one miss after it became UNHEALTHY.
abbrev pub status_after : ℕ → ℕ → ℕ → Status
status_after u d n = if ltb n u then active else if ltb n (max d (u + 1)) then unhealthy else dead

module _ (u d : ℕ) (u_pos : 0 < u) (u_int32 : u < 2147483648) (d_int32 : d < 2147483648) where
  pub step_status :
      (n : ℕ) (reg : AgentRegistration)
      → suc n < 2147483648
      → reg.missed_heartbeats ≡ n
      → reg.status ≡ status_after u d n
      → ((on_miss u d reg).missed_heartbeats ≡ suc n)
        × ((on_miss u d reg).status ≡ status_after u d (suc n))
  unfolding on_miss
  step_status n reg h m s = ground arith

  -- An ACTIVE agent with no misses, of which `n` heartbeats in a row are missed, has the status
  -- that `status_after` says and the counter `n`, for positive int32 thresholds and every `n` that
  -- an int32 counter can hold.
  pub misses_exact :
      (n : ℕ) (reg : AgentRegistration)
      → n < 2147483648
      → reg.missed_heartbeats ≡ 0
      → reg.status ≡ active
      → ((misses u d n reg).missed_heartbeats ≡ n)
        × ((misses u d n reg).status ≡ status_after u d n)
  unfolding misses
  misses_exact zero reg h m s = ground arith
  misses_exact (suc n) reg h m s =
      let (m', s') = misses_exact n reg (omega arith) m s in
      step_status n (misses u d n reg) h m' s'

-- A dead agent stays dead, whatever heartbeats arrive or are missed.
pub dead_absorbs :
    (u d now : ℕ) (reg : AgentRegistration)
    → reg.status ≡ dead
    → ((on_miss u d reg).status ≡ dead) × ((on_heartbeat now reg).status ≡ dead)
unfolding on_miss on_heartbeat
dead_absorbs u d now reg h = ground arith

-- After a heartbeat of an ACTIVE or UNHEALTHY agent the count starts again: `n` more misses lead to
-- the status that they lead to from a fresh registration, whatever the agent had missed before.
pub misses_after_heartbeat :
    (u d now n : ℕ) (reg : AgentRegistration)
    → 0 < u
    → u < 2147483648
    → d < 2147483648
    → n < 2147483648
    → (reg.status ≡ active) ⊎ (reg.status ≡ unhealthy)
    → (misses u d n (on_heartbeat now reg)).status ≡ status_after u d n
misses_after_heartbeat u d now n reg up uw dw nw s =
    (misses_exact u d up uw dw n (on_heartbeat now reg) nw (unfold on_heartbeat in refl)
      (unfold on_heartbeat in ground arith)).1
