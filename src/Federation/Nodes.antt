-- ===== src/Federation/Nodes.antt =====
-- core/federation/node_registry.go: KVNodeRegistry over its bucket. `time.Now()` is the argument
-- `now`, an int32 is its bit pattern.
pub mod Writes
use baran_os.Base.{
  ℕ, zero, List, [], ◌∷◌, is_empty, GoString, Bool, true, false, ◌&&◌, if◌then◌else◌, ◌==◌, Error,
  Result, ok, err, Exec, pure, raise, reads, lift, attempt, ◌>>=◌, ◌>>◌, key_not_found,
  no_keys_found, not_found, cas_conflict, validation, i32_leb, i32_inc,
}
use baran_os.Kv.{Entry, KeyValue, Codec}
use baran_os.Kv.Upsert.{create_or_update}

-- NodeLifecycleStatus
pub data NodeStatus : Type 0 where
  node_active node_unhealthy node_dead : NodeStatus

abbrev pub is_node_active : NodeStatus → Bool
is_node_active node_active = true
is_node_active _ = false

abbrev pub is_node_unhealthy : NodeStatus → Bool
is_node_unhealthy node_unhealthy = true
is_node_unhealthy _ = false

abbrev pub is_node_dead : NodeStatus → Bool
is_node_dead node_dead = true
is_node_dead _ = false

pub record NodeInfo : Type 0 where
  pub node_id : GoString
  pub address : GoString
  pub status : NodeStatus
  pub capabilities_count : ℕ  -- int32
  pub last_seen : ℕ
  pub joined_at : ℕ
  pub missed_heartbeats : ℕ  -- int32
  pub version : GoString
  pub revision : ℕ

-- KVNodeRegistry
pub record NodeRegistry (B V : Type 0) : Type 0 where
  pub kv : KeyValue B V
  pub codec : Codec NodeInfo V
  pub unhealthy_threshold : ℕ  -- int32
  pub dead_threshold : ℕ  -- int32

-- the changes of IncrementMissedHeartbeats
unfoldable pub node_missed : ℕ → ℕ → NodeInfo → NodeInfo
node_missed u d info =
    let missed = i32_inc info.missed_heartbeats in
    record info {
      missed_heartbeats = missed;
      status =
          if i32_leb d missed && is_node_unhealthy info.status
          then node_dead
          else if i32_leb u missed && is_node_active info.status
          then node_unhealthy
          else info.status;
    }

-- the changes of RecordHeartbeat
unfoldable pub node_beat : ℕ → NodeInfo → NodeInfo
node_beat now info = record info {
  missed_heartbeats = 0;
  last_seen = now;
  status = if is_node_unhealthy info.status then node_active else info.status;
}

-- the fields that Register sets
unfoldable pub joined : ℕ → NodeInfo → NodeInfo
joined now info = record info {
  status = node_active;
  last_seen = now;
  missed_heartbeats = 0;
  joined_at = if info.joined_at == 0 then now else info.joined_at;
}

abbrev missing_node : Error → Error
missing_node key_not_found = not_found
missing_node other = other

module _ {B V : Type 0} (r : NodeRegistry B V) where
  -- Register
  unfoldable pub register : ℕ → NodeInfo → Exec B ℕ
  unfolding create_or_update joined
  register now info b =
      if is_empty info.node_id
      then (err validation, b)
      else if is_empty info.address
      then (err validation, b)
      else (do
        value ← lift (r.codec.marshal (joined now info))
        create_or_update r.kv info.node_id value)
          b

  -- Deregister
  unfoldable pub deregister : GoString → Exec B Unit
  deregister node_id = do
    purged ← attempt (r.kv.purge node_id)
    elim purged [ ok _ ↦ pure tt | err key_not_found ↦ pure tt | err e ↦ raise e ]

  decoded : Result (Entry V) → Result (NodeInfo × ℕ)
  decoded (ok entry) = elim (r.codec.unmarshal entry.value) [
    | ok info ↦ ok (record info { revision = entry.revision }, entry.revision)
    | err e ↦ err e
  ]
  decoded (err e) = err (missing_node e)

  -- Get
  unfoldable pub get : GoString → B → Result (NodeInfo × ℕ)
  unfolding decoded
  get node_id b = decoded (r.kv.get node_id b)

  list_keys : List GoString → B → Result (List NodeInfo)
  unfolding get
  list_keys [] b = ok []
  list_keys (key ∷ ks) b =
      let rest = list_keys ks b in
      elim (get key b) [
        | err not_found ↦ rest
        | err e ↦ err e
        | ok (info, rev) ↦ (elim rest [ ok infos ↦ ok (info ∷ infos) | err e ↦ err e ])
      ]

  list_found : Result (List GoString) → B → Result (List NodeInfo)
  unfolding list_keys
  list_found (ok ks) b = list_keys ks b
  list_found (err no_keys_found) b = ok []
  list_found (err e) b = err e

  -- List
  unfoldable pub list : B → Result (List NodeInfo)
  unfolding list_found
  list b = list_found (r.kv.keys b) b

  conflict : Result ℕ → Exec B ℕ
  conflict (ok n) = pure n
  conflict (err e) = raise cas_conflict

  -- the last lines of the three updates
  unfoldable pub write_at : GoString → NodeInfo → ℕ → Exec B ℕ
  unfolding conflict
  write_at node_id info revision = do
    value ← lift (r.codec.marshal info)
    written ← attempt (r.kv.update node_id value revision)
    conflict written

  -- UpdateStatus, at the caller's revision
  unfoldable pub update_status : GoString → NodeStatus → ℕ → Exec B ℕ
  update_status node_id status revision = do
    found ← reads (get node_id)
    write_at node_id (record (found.0) { status = status }) revision

  -- RecordHeartbeat: the caller's revision is not looked at
  unfoldable pub record_heartbeat : ℕ → GoString → ℕ → Exec B ℕ
  record_heartbeat now node_id revision = do
    found ← reads (get node_id)
    write_at node_id (node_beat now found.0) found.1

  -- IncrementMissedHeartbeats: the caller's revision is not looked at
  unfoldable pub increment_missed_heartbeats : GoString → ℕ → Exec B (NodeStatus × ℕ)
  increment_missed_heartbeats node_id revision = do
    found ← reads (get node_id)
    let info = node_missed r.unhealthy_threshold r.dead_threshold found.0
    rev ← write_at node_id info found.1
    pure (info.status, rev)
