-- ===== src/Workflow/Definition.antt =====
-- core/workflow/handler.go: workflowDefinitionFromProto. The protobuf message has the fields of
-- `WorkflowDefinition`, and is nil or there.
pub mod Valid
use baran_os.Base.{
  ℕ, suc, List, [], ◌∷◌, length, is_empty, Option, none, some, Bool, true, false, ◌&&◌, not, ltb,
  if◌then◌else◌, Result, ok, err, invalid_definition, all,
}
use baran_os.Workflow.Types.{StepDefinition, WorkflowDefinition}

-- the loop copies a step, or refuses the definition at the first step with no capability
copy_steps : List StepDefinition → Result (List StepDefinition)
copy_steps [] = ok []
copy_steps (s ∷ ss) =
    let rest = copy_steps ss in
    if is_empty s.capability && not s.human_approval
    then err invalid_definition
    else elim rest [ ok copied ↦ ok (s ∷ copied) | err e ↦ err e ]

copied_definition : WorkflowDefinition → Result (List StepDefinition) → Result WorkflowDefinition
copied_definition pb (ok steps) = ok (record pb { steps = steps })
copied_definition pb (err e) = err e

unfoldable pub workflow_definition_from_proto :
    Option WorkflowDefinition → Result WorkflowDefinition
unfolding copy_steps copied_definition
workflow_definition_from_proto none = err invalid_definition
workflow_definition_from_proto (some pb) =
    if is_empty pb.steps
    then err invalid_definition
    else if ltb 100 (length pb.steps)
    then err invalid_definition
    else copied_definition pb (copy_steps pb.steps)
