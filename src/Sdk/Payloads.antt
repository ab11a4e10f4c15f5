-- ===== src/Sdk/Payloads.antt =====
-- sdk/validate.go and the prefix helper of sdk/step.go: which payload belongs to an event type.
use baran_os.Base.{
  ◌≡◌, refl, ◌∷◌, [], ◌++◌, GoString, codes, length, length-append, ltb, has_prefix, str_eq, cut,
  cut-segment, IsFree, Dict, lookup, Option, none, some, Result, ok, err, validation, true, ◌&&◌,
  if◌then◌else◌, arith,
}

-- payloadTypeNames
abbrev pub payload_type_names : Dict GoString
payload_type_names =
    (codes "agent.register", codes "AgentRegisterPayload")
    ∷ (codes "agent.unregister", codes "AgentUnregisterPayload")
    ∷ (codes "agent.error", codes "AgentErrorPayload")
    ∷ (codes "agent.health.pong", codes "HealthPongPayload")
    ∷ (codes "workflow.step.result", codes "WorkflowStepResultPayload")
    ∷ []

-- eventType[9:]
abbrev pub behind_workflow : GoString → GoString
behind_workflow (a ∷ b ∷ c ∷ d ∷ e ∷ f ∷ g ∷ h ∷ i ∷ rest) = rest
behind_workflow _ = []

abbrev pub workflow_dot : GoString
workflow_dot = codes "workflow."

rejoined : Option (GoString × GoString) → GoString → GoString
rejoined none event_type = event_type
rejoined (some (id, suffix)) event_type = workflow_dot ++ suffix

-- the key under which the expected payload of an event type is looked up
unfoldable pub payload_key : GoString → GoString
unfolding rejoined
payload_key event_type =
    if ltb 9 (length event_type) && has_prefix event_type workflow_dot
    then rejoined (cut b'.' (behind_workflow event_type)) event_type
    else event_type

-- stripWorkflowPrefix
unfoldable pub strip_workflow_prefix : GoString → GoString
unfolding rejoined
strip_workflow_prefix event_type =
    if has_prefix event_type workflow_dot
    then rejoined (cut b'.' (behind_workflow event_type)) event_type
    else event_type

matches_expected : Option GoString → GoString → Result Unit
matches_expected none actual = ok tt
matches_expected (some expected) actual = if str_eq actual expected then ok tt else err validation

-- validatePayload; a message is given by its name, and a nil one is `none`
unfoldable pub validate_payload : GoString → Option GoString → Result Unit
unfolding matches_expected payload_key lookup
validate_payload event_type none = err validation
validate_payload event_type (some name) =
    matches_expected (lookup (payload_key event_type) payload_type_names) name

-- marshalPayload; `marshal` is proto.Marshal of the message
unfoldable pub marshal_payload : GoString → Option GoString → Result GoString → Result GoString
unfolding validate_payload
marshal_payload event_type msg marshal = elim (validate_payload event_type msg) [
  | err e ↦ err e
  | ok _ ↦ marshal
]

abbrev pub step_result_type : GoString → GoString
step_result_type workflow_id = workflow_dot ++ (workflow_id ++ codes ".workflow.step.result")

-- The result of a step of a workflow, whose id has no dot, passes the check with every message: its
-- key is "workflow.workflow.step.result", which has no expected payload. For a nil message the check
-- fails as for every event type.
pub step_result_unchecked :
    (workflow_id name : GoString)
    → IsFree b'.' workflow_id
    → (payload_key (step_result_type workflow_id) ≡ codes "workflow.workflow.step.result")
      × (validate_payload (step_result_type workflow_id) (some name) ≡ ok tt)
      × (validate_payload (step_result_type workflow_id) none ≡ err validation)
unfolding validate_payload payload_key lookup has_prefix str_eq
step_result_unchecked workflow_id name free =
    let long : ltb 9 (length (step_result_type workflow_id)) ≡ true =
      ground (arith, length-append workflow_id (codes ".workflow.step.result")) in
    let key : payload_key (step_result_type workflow_id) ≡ codes "workflow.workflow.step.result" =
      rw (cut-segment b'.' workflow_id (codes "workflow.step.result") free, long) refl in
    (key, rw key refl, refl)
