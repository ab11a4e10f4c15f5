-- ===== src/Sdk/Agent/Reports.antt =====
-- What an agent of sdk does with one event: `dispatchStep` and the goroutine that it starts, in
-- sdk/step.go, and the same event delivered again.
use baran_os.Base.{
  ℕ, ◌<◌, ◌≡◌, refl, sym, ap, ◌≤◌, Option, none, Option-cases, inl, inr, length-append, ◌∙◌, List,
  [], ◌∷◌, ◌++◌, GoString, length, lookup, some, ok, true, false, arith,
}
use baran_os.Eventbus.{Event}
use baran_os.Sdk.Types.{is_stopping, WorkflowStepPayload, CapabilityEntry}
use baran_os.Sdk.Idempotency.{IdempotencyCache, has, add}
use baran_os.Sdk.Idempotency.Window.{Call, asks, records, call, answers, Holds}
use baran_os.Sdk.Idempotency.Memory.{seen_before, recent_found, unseen_kept}
use baran_os.Sdk.Agent.{
  Agent, Task, Outside, dispatch_step, decoded_step, accepts, finish, finished, take_out, complete,
  capability_of, publish_step_result, publish,
}

-- a delivery, or the end of the task at a place in the list
pub data Happening : Type 0 where
  delivery : Event → Happening
  ending : ℕ → Happening

module _ (o : Outside) where
  -- the event is decoded to the payload, and the agent has a handler for its capability
  pub record Serves (a : Agent) (e : Event) (p : WorkflowStepPayload) (entry : CapabilityEntry)
      : Type 0 where
    pub decodes : o.unmarshal_step e.payload ≡ ok p
    pub known : lookup (capability_of p.step) a.capabilities ≡ some entry
    pub alive : is_stopping a.state ≡ false

  dispatch_accepts :
      (a : Agent) (e : Event) (p : WorkflowStepPayload) (entry : CapabilityEntry)
      → Serves a e p entry
      → (has e.id a.cache).0 ≡ false
      → dispatch_step o e a ≡ record a {
        in_flight =
            a.in_flight
            ++ record { event_id = e.id; context = a.bus_open; entry = entry; payload = p } ∷ [];
      }
  unfolding dispatch_step decoded_step accepts
  dispatch_accepts a e p entry s new =
      rw (new, unseen_kept e.id a.cache new, s.decodes, s.known, s.alive) refl

  -- An event that is delivered again before its handler has ended is handled twice.
  pub in_flight_twice :
      (a : Agent) (e : Event) (p : WorkflowStepPayload) (entry : CapabilityEntry)
      → Serves a e p entry
      → (has e.id a.cache).0 ≡ false
      → let task : Task = record {
        event_id = e.id;
        context = a.bus_open;
        entry = entry;
        payload = p;
      } in
        (dispatch_step o e (dispatch_step o e a)).in_flight
        ≡ (a.in_flight ++ task ∷ []) ++ task ∷ []
  in_flight_twice a e p entry s new =
      let first = dispatch_accepts a e p entry s new in
      let second =
        dispatch_accepts (dispatch_step o e a) e p entry
          (record { decodes = s.decodes; known = rw first s.known; alive = rw first s.alive })
          (rw first new) in
      ap (λ x. x.in_flight) second
      ∙ ap
          (λ x.
            x.in_flight
            ++ record { event_id = e.id; context = x.bus_open; entry = entry; payload = p } ∷ [])
          first

  dispatch_cache : (e : Event) (a : Agent) → (dispatch_step o e a).cache ≡ (has e.id a.cache).1
  unfolding dispatch_step decoded_step accepts
  dispatch_cache e a = ground arith

  dispatch_seen :
      (e : Event) (a : Agent)
      → (has e.id a.cache).0 ≡ true
      → (dispatch_step o e a).in_flight ≡ a.in_flight
  unfolding dispatch_step
  dispatch_seen e a h = rw h refl

  complete_cache : (t : Task) (a : Agent) → (complete o t a).cache ≡ add t.event_id a.cache
  unfolding complete publish_step_result publish
  complete_cache t a = ground arith

  unfoldable pub happen : Happening → Agent → Agent
  unfolding dispatch_step finish
  happen (delivery e) a = dispatch_step o e a
  happen (ending n) a = finish o n a

  -- one behind the other
  unfoldable pub happen_all : List Happening → Agent → Agent
  unfolding happen
  happen_all [] a = a
  happen_all (x ∷ xs) a = happen_all xs (happen x a)

  recorded : Option Task → List Call
  recorded none = []
  recorded (some t) = records t.event_id ∷ []

  -- the calls of the cache that it makes
  calls_of : Happening → Agent → List Call
  unfolding recorded
  calls_of (delivery e) a = asks e.id ∷ []
  calls_of (ending n) a = recorded (take_out n a.in_flight).0

  all_calls : List Happening → Agent → List Call
  unfolding calls_of
  all_calls [] a = []
  all_calls (x ∷ xs) a = calls_of x a ++ all_calls xs (happen x a)

  answers-append :
      (xs ys : List Call) (c : IdempotencyCache)
      → (answers (xs ++ ys) c).1 ≡ (answers ys (answers xs c).1).1
  unfolding answers
  answers-append [] ys c = refl
  answers-append (x ∷ xs) ys c = answers-append xs ys (call x c).1

  happen_cache :
      (x : Happening) (a : Agent) → (happen x a).cache ≡ (answers (calls_of x a) a.cache).1
  unfolding happen calls_of recorded answers call finish finished
  happen_cache (delivery e) a = dispatch_cache e a
  happen_cache (ending n) a = elim (Option-cases (take_out n a.in_flight).0) [
    | inl nothing ↦ rw nothing refl
    | inr (t, is) ↦ rw is (complete_cache t a)
  ]

  happen_all_cache :
      (xs : List Happening) (a : Agent)
      → (happen_all xs a).cache ≡ (answers (all_calls xs a) a.cache).1
  unfolding happen_all all_calls answers
  happen_all_cache [] a = refl
  happen_all_cache (x ∷ xs) a =
      happen_all_cache xs (happen x a)
      ∙ ap (λ c. (answers (all_calls xs (happen x a)) c).1) (happen_cache x a)
      ∙ sym (answers-append (calls_of x a) (all_calls xs (happen x a)) a.cache)

  length-calls_of : (x : Happening) (a : Agent) → length (calls_of x a) ≤ 1
  unfolding calls_of recorded
  length-calls_of (delivery e) a = omega arith
  length-calls_of (ending n) a = elim (Option-cases (take_out n a.in_flight).0) [
    | inl nothing ↦ rw nothing (omega arith)
    | inr (t, is) ↦ rw is (omega arith)
  ]

  length-all_calls : (xs : List Happening) (a : Agent) → length (all_calls xs a) ≤ length xs
  unfolding all_calls
  length-all_calls [] a = omega arith
  length-all_calls (x ∷ xs) a = omega (
    arith,
    length-append (calls_of x a) (all_calls xs (happen x a)),
    length-calls_of x a,
    length-all_calls xs (happen x a),
  )

  take_out-last : (ts : List Task) (t : Task) → take_out (length ts) (ts ++ t ∷ []) ≡ (some t, ts)
  unfolding take_out
  take_out-last [] t = refl
  take_out-last (u ∷ ts) t = rw (take_out-last ts t) refl

  -- An event that is new to an agent whose cache has room for one id or more is taken and its task
  -- ends. Then there come other deliveries and ends of other tasks, fewer than the cache has room for,
  -- and the event is delivered again: no second task is started for it.
  pub redelivery_skipped :
      (a : Agent) (l : List GoString) (room : ℕ) (e : Event) (p : WorkflowStepPayload)
      (entry : CapabilityEntry) (between : List Happening)
      → 0 < room
      → Holds room a.cache l
      → Serves a e p entry
      → (has e.id a.cache).0 ≡ false
      → length between < room
      → let idle = finish o (length a.in_flight) (dispatch_step o e a) in
        (idle.in_flight ≡ a.in_flight)
        × ((dispatch_step o e (happen_all between idle)).in_flight
            ≡ (happen_all between idle).in_flight)
  unfolding finish finished seen_before
  redelivery_skipped a l room e p entry between pos held s new few =
      let t : Task = record { event_id = e.id; context = a.bus_open; entry = entry; payload = p } in
      let taken = dispatch_accepts a e p entry s new in
      let idle = finish o (length a.in_flight) (dispatch_step o e a) in
      let ended : idle ≡ record (complete o t (dispatch_step o e a)) { in_flight = a.in_flight } =
        rw (taken, take_out-last a.in_flight t) refl in
      let cached : idle.cache ≡ (seen_before e.id a.cache).1 =
        ap (λ x. x.cache) ended
        ∙ complete_cache t (dispatch_step o e a)
        ∙ rw (taken, new, unseen_kept e.id a.cache new) refl in
      let seen : (has e.id (happen_all between idle).cache).0 ≡ true =
        rw (happen_all_cache between idle, cached)
          (recent_found room pos a.cache l e.id (all_calls between idle) held
            (omega (arith, length-all_calls between idle, few))) in
      (ap (λ x. x.in_flight) ended, dispatch_seen e (happen_all between idle) seen)
