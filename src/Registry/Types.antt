-- ===== src/Registry/Types.antt =====
-- core/registry/status.go and types.go. An int32 is its bit pattern; a time is in nanoseconds.
use baran_os.Base.{ℕ, List, GoString, codes, Dict, str_eq, Bool, true, false}
use baran_os.Taxonomy.{Capability}

-- AgentLifecycleStatus
pub data Status : Type 0 where
  registering active unhealthy dead unregistered : Status

abbrev pub is_active : Status → Bool
is_active active = true
is_active _ = false

abbrev pub is_unhealthy : Status → Bool
is_unhealthy unhealthy = true
is_unhealthy _ = false

abbrev pub is_dead : Status → Bool
is_dead dead = true
is_dead _ = false

pub record AgentRegistration : Type 0 where
  pub agent_id : GoString
  pub agent_type : GoString
  pub version : GoString
  pub capabilities : List Capability
  pub labels : Dict GoString
  pub status : Status
  pub last_seen : ℕ
  pub missed_heartbeats : ℕ  -- int32
  pub node_id : GoString
  pub origin : GoString
  pub revision : ℕ

abbrev pub remote_origin : GoString
remote_origin = codes "remote"

-- IsRemote
unfoldable pub is_remote : AgentRegistration → Bool
is_remote r = str_eq r.origin remote_origin
