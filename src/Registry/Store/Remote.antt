-- ===== src/Registry/Store/Remote.antt =====
-- Remote agents in the registry: `RegisterRemote` and `DeregisterRemotesByNode` of
-- core/registry/kv.go, keyed by "remote.{nodeID}.{agentID}".
use mathlib.Core.List.{append_assoc}
use baran_os.Base.{
  codes, ℕ, ◌≡◌, ◌≢◌, ◌⊎◌, inl, inr, refl, ap, sym, ◌∙◌, subst, List, [], ◌∷◌, ◌++◌, true, false,
  GoString, Result, ok, err, In, key_not_found, no_keys_found, not_found, arith, if◌then◌else◌,
  Bool-cases, has_prefix, has_prefix-append, str_eq, str_eq_sound, eq_iff, is_empty,
}
use baran_os.Kv.{Entry}
use baran_os.Kv.Upsert.{Answers, create_or_update_lem, create_or_update_frame}
use baran_os.Registry.Types.{active, AgentRegistration, remote_origin}
use baran_os.Registry.Store.{
  Buckets, KvRegistry, get, decoded, remote_prefix, remote_key, register_remote, purge_prefix,
  deregister_remotes_by_node,
}
use baran_os.Registry.Store.Writes.{Laws}

dotted :
    (a b agent : GoString) → has_prefix (remote_key (a ++ b'.' ∷ b) agent) (remote_prefix a) ≡ true
dotted a b agent =
    subst (λ x. has_prefix (codes "remote." ++ x) (remote_prefix a) ≡ true) (sym regroup)
      (subst (λ x. has_prefix x (remote_prefix a) ≡ true)
        (append_assoc (codes "remote.") (a ++ b'.' ∷ []) (b ++ b'.' ∷ agent))
        (has_prefix-append (remote_prefix a) (b ++ b'.' ∷ agent)))
  where
    regroup : (a ++ b'.' ∷ b) ++ b'.' ∷ agent ≡ (a ++ b'.' ∷ []) ++ (b ++ b'.' ∷ agent)
    regroup = simp append_assoc

module _ {B C V W : Type 0} (r : KvRegistry B C V W) (laws : Laws r) where
  purge_prefix_ok :
      (p : GoString) (ks : List GoString) (s : Buckets B C) → (purge_prefix r p ks s).0 ≡ ok tt
  unfolding purge_prefix
  purge_prefix_ok p [] s = refl
  purge_prefix_ok p (k ∷ ks) s = ground (
    arith,
    laws.0.purge_gone k s.agents,
    purge_prefix_ok p ks s,
    purge_prefix_ok p ks (record s { agents = (r.kv.purge k s.agents).1 }),
  )

  -- one key, after the loop
  after : GoString → List GoString → Buckets B C → GoString → Result (Entry V)
  after p ks s j = r.kv.get j (purge_prefix r p ks s).1.agents

  purge_prefix_keeps :
      (p : GoString) (ks : List GoString) (s : Buckets B C) (j : GoString)
      → has_prefix j p ≡ false
      → after p ks s j ≡ r.kv.get j s.agents
  unfolding purge_prefix after
  purge_prefix_keeps p [] s j h = refl
  purge_prefix_keeps p (k ∷ ks) s j h = elim (Bool-cases (has_prefix k p)) [
    | inl yes_k ↦ ground (
      arith,
      yes_k,
      laws.0.purge_gone k s.agents,
      purge_prefix_keeps p ks (record s { agents = (r.kv.purge k s.agents).1 }) j h,
      laws.0.purge_frame k j s.agents (λ e. cc (ap (λ x. has_prefix x p) e, yes_k, h)),
    )
    | inr no_k ↦ ground (arith, no_k, purge_prefix_keeps p ks s j h)
  ]

  purge_gone_any :
      (k j : GoString) (s : Buckets B C)
      → r.kv.get j s.agents ≡ err key_not_found
      → r.kv.get j (r.kv.purge k s.agents).1 ≡ err key_not_found
  purge_gone_any k j s h = elim (Bool-cases (str_eq k j)) [
    | inl same ↦
        subst (λ x. r.kv.get x (r.kv.purge k s.agents).1 ≡ err key_not_found)
          (str_eq_sound k j same) (laws.0.purge_gone k s.agents).1
    | inr other ↦ laws.0.purge_frame k j s.agents (λ e. cc ((eq_iff k j).1 e, other)) ∙ h
  ]

  purge_prefix_absent :
      (p : GoString) (ks : List GoString) (s : Buckets B C) (j : GoString)
      → r.kv.get j s.agents ≡ err key_not_found
      → after p ks s j ≡ err key_not_found
  unfolding purge_prefix after
  purge_prefix_absent p [] s j h = h
  purge_prefix_absent p (k ∷ ks) s j h = ground (
    arith,
    laws.0.purge_gone k s.agents,
    purge_prefix_absent p ks s j h,
    purge_prefix_absent p ks (record s { agents = (r.kv.purge k s.agents).1 }) j
        (purge_gone_any k j s h),
  )

  purge_prefix_removes :
      (p : GoString) (ks : List GoString) (s : Buckets B C) (j : GoString)
      → In j ks
      → has_prefix j p ≡ true
      → after p ks s j ≡ err key_not_found
  unfolding purge_prefix after
  purge_prefix_removes p [] s j i h = absurd i
  purge_prefix_removes p (k ∷ ks) s j (inl e) h =
      let gone = laws.0.purge_gone k s.agents in
      subst (λ x. has_prefix x p ≡ true → after p (k ∷ ks) s x ≡ err key_not_found) e
        (λ h'.
          unfold purge_prefix after in
          ground (
            arith,
            h',
            gone,
            purge_prefix_absent p ks (record s { agents = (r.kv.purge k s.agents).1 }) k gone.1,
          ))
        h
  purge_prefix_removes p (k ∷ ks) s j (inr i) h = ground (
    arith,
    laws.0.purge_gone k s.agents,
    purge_prefix_removes p ks s j i h,
    purge_prefix_removes p ks (record s { agents = (r.kv.purge k s.agents).1 }) j i h,
  )

  removed :
      (p : GoString) (ks : List GoString) (s : Buckets B C) (j : GoString)
      → r.kv.keys s.agents ≡ ok ks
      → Answers r.kv j s.agents
      → has_prefix j p ≡ true
      → after p ks s j ≡ err key_not_found
  removed p ks s j listed (inl absent) h = purge_prefix_absent p ks s j absent
  removed p ks s j listed (inr (e, found)) h =
      purge_prefix_removes p ks s j (laws.0.keys_list s.agents ks j e listed found) h

  -- After `DeregisterRemotesByNode`, where the server lists its keys and answers for the key `j`,
  -- the call has succeeded; `j` is not found if it begins with "remote.{node}.", and reads as before
  -- if it does not.
  pub get-deregister_remotes :
      (node j : GoString) (s : Buckets B C)
      → ((ks : List GoString) × (r.kv.keys s.agents ≡ ok ks))
        ⊎ (r.kv.keys s.agents ≡ err no_keys_found)
      → Answers r.kv j s.agents
      → ((deregister_remotes_by_node r node s).0 ≡ ok tt)
        × (get r j (deregister_remotes_by_node r node s).1
            ≡ (if has_prefix j (remote_prefix node) then err not_found else get r j s))
  unfolding deregister_remotes_by_node get decoded after
  get-deregister_remotes node j s (inr none_there) a = (
    ground (arith, none_there),
    ground (arith, none_there, laws.0.keys_none s.agents j none_there),
  )
  get-deregister_remotes node j s (inl (ks, listed)) a = (
    ground (arith, listed, purge_prefix_ok (remote_prefix node) ks s),
    elim (Bool-cases (has_prefix j (remote_prefix node))) [
      | inl h ↦ ground (arith, listed, h, removed (remote_prefix node) ks s j listed a h)
      | inr h ↦ ground (arith, listed, h, purge_prefix_keeps (remote_prefix node) ks s j h)
    ],
  )

  -- The key of an agent of the node "a.b" begins with the prefix of the node "a", so removing the
  -- node "a" removes the agents of "a.b" too.
  pub dotted_node_removed :
      (a b agent : GoString) (s : Buckets B C)
      → ((ks : List GoString) × (r.kv.keys s.agents ≡ ok ks))
        ⊎ (r.kv.keys s.agents ≡ err no_keys_found)
      → Answers r.kv (remote_key (a ++ b'.' ∷ b) agent) s.agents
      → get r (remote_key (a ++ b'.' ∷ b) agent) (deregister_remotes_by_node r a s).1
        ≡ err not_found
  dotted_node_removed a b agent s listed answers = ground (
    arith,
    get-deregister_remotes a (remote_key (a ++ b'.' ∷ b) agent) s listed answers,
    dotted a b agent,
  )

  pub register_remote-stores :
      (now : ℕ) (reg : AgentRegistration) (s : Buckets B C)
      → is_empty reg.agent_id ≡ false
      → is_empty reg.node_id ≡ false
      → Answers r.kv (remote_key reg.node_id reg.agent_id) s.agents
      → ((register_remote r now reg s).0 ≡ ok tt)
        × ((n : ℕ) × (get r (remote_key reg.node_id reg.agent_id) (register_remote r now reg s).1
              ≡ ok (
                record reg {
                  origin = remote_origin;
                  status = active;
                  last_seen = now;
                  missed_heartbeats = 0;
                  revision = n;
                },
                n,
              )))
  unfolding register_remote get decoded
  register_remote-stores now reg s i nd answers =
      let new : AgentRegistration = record reg {
        origin = remote_origin;
        status = active;
        last_seen = now;
        missed_heartbeats = 0;
      } in
      let key : GoString = remote_key reg.node_id reg.agent_id in
      let (v, enc) = laws.1.marshal_total new in
      let (m, done, stored) = create_or_update_lem r.kv laws.0 key v s.agents answers in
      (
        ground (arith, i, nd, enc, done),
        (m, ground (arith, i, nd, enc, done, stored, laws.1.unmarshal-marshal new v enc)),
      )

  -- What `RegisterRemote` stores can be read back under the key of the node and the agent: ACTIVE,
  -- of remote origin, with no missed heartbeats, seen now. Another key reads as
  -- before.
  pub get-register_remote :
      (now : ℕ) (reg : AgentRegistration) (s : Buckets B C) (j : GoString)
      → is_empty reg.agent_id ≡ false
      → is_empty reg.node_id ≡ false
      → Answers r.kv (remote_key reg.node_id reg.agent_id) s.agents
      → remote_key reg.node_id reg.agent_id ≢ j
      → ((register_remote r now reg s).0 ≡ ok tt)
        × ((n : ℕ) × (get r (remote_key reg.node_id reg.agent_id) (register_remote r now reg s).1
              ≡ ok (
                record reg {
                  origin = remote_origin;
                  status = active;
                  last_seen = now;
                  missed_heartbeats = 0;
                  revision = n;
                },
                n,
              )))
        × (get r j (register_remote r now reg s).1 ≡ get r j s)
  unfolding register_remote get decoded
  get-register_remote now reg s j i nd answers ne =
      let new : AgentRegistration = record reg {
        origin = remote_origin;
        status = active;
        last_seen = now;
        missed_heartbeats = 0;
      } in
      let key : GoString = remote_key reg.node_id reg.agent_id in
      let (v, enc) = laws.1.marshal_total new in
      let (done, stored) = register_remote-stores now reg s i nd answers in
      (
        done,
        stored,
        ground (arith, i, nd, enc, create_or_update_frame r.kv laws.0 key j v s.agents answers ne),
      )
