-- ===== src/Workflow/Definition/Valid.antt =====
-- Which workflow definitions are accepted.
use baran_os.Base.{
  ◌≤◌, ◌≡◌, ◌≢◌, ◌↔◌, ◌⊎◌, inl, inr, refl, ap, sym, subst, List, [], ◌∷◌, length, is_empty, All,
  Option, none, some, Bool, true, false, ltb, Result, ok, err, arith,
}
use baran_os.Workflow.Types.{StepDefinition, WorkflowDefinition}
use baran_os.Workflow.Definition.{copy_steps, workflow_definition_from_proto}

-- a step names a capability or asks for human approval
abbrev pub HasTarget : StepDefinition → Type 0
HasTarget s = (s.capability ≢ []) ⊎ (s.human_approval ≡ true)

-- 1 to 100 steps, each with a target
abbrev pub IsValidDefinition : WorkflowDefinition → Type 0
IsValidDefinition def = (1 ≤ length def.steps) × (length def.steps ≤ 100) × All HasTarget def.steps

target_cases :
    (s : StepDefinition) → HasTarget s ⊎ ((s.capability ≡ []) × (s.human_approval ≡ false))
target_cases s = go s.capability s.human_approval refl refl
  where
    go :
        (c : _) (h : Bool)
        → s.capability ≡ c
        → s.human_approval ≡ h
        → HasTarget s ⊎ ((s.capability ≡ []) × (s.human_approval ≡ false))
    go [] true ec eh = inl (inr eh)
    go [] false ec eh = inr (ec, eh)
    go (x ∷ c) h ec eh = inl (inl (λ z. cc))

copy_fits : (ss : List StepDefinition) → All HasTarget ss → copy_steps ss ≡ ok ss
unfolding copy_steps
copy_fits [] h = refl
copy_fits (s ∷ ss) h = ground (arith, h.0, copy_fits ss h.1)

copy_sound : (ss out : List StepDefinition) → copy_steps ss ≡ ok out → All HasTarget ss × (out ≡ ss)
unfolding copy_steps
copy_sound [] out h = (tt, ground (arith, h))
copy_sound (s ∷ ss) out h = elim (target_cases s) [
  | inr (none_named, not_human) ↦ absurd (ground (arith, h, none_named, not_human))
  | inl fine ↦ go (copy_steps ss) refl (copy_sound ss) fine
]
  where
    go :
        (x : Result (List StepDefinition))
        → copy_steps ss ≡ x
        → ((out : List StepDefinition) → copy_steps ss ≡ ok out → All HasTarget ss × (out ≡ ss))
        → HasTarget s
        → All HasTarget (s ∷ ss) × (out ≡ s ∷ ss)
    go (ok rest) e ih fine = ((fine, (ih rest e).0), ground (arith, h, e, fine, (ih rest e).1))
    go (err x) e ih fine = absurd (ground (arith, h, e, fine))

size_bounds :
    (ss : List StepDefinition)
    → is_empty ss ≡ false
    → ltb 100 (length ss) ≡ false
    → (1 ≤ length ss) × (length ss ≤ 100)
size_bounds [] h k = cc
size_bounds (s ∷ ss) h k = (omega arith, ground (arith, k))

accepted :
    (pb : WorkflowDefinition)
    → IsValidDefinition pb
    → workflow_definition_from_proto (some pb) ≡ ok pb
unfolding workflow_definition_from_proto
accepted pb v = go pb.steps refl
  where
    go :
        (ss : List StepDefinition)
        → pb.steps ≡ ss
        → workflow_definition_from_proto (some pb) ≡ ok pb
    go [] e = absurd (ground (arith, e, v.0))
    go (s ∷ ss) e = ground (arith, e, v.1, copy_fits pb.steps v.2)

-- A definition is accepted exactly when it is there, has 1 to 100 steps, and every step names a
-- capability or asks for human approval; what is accepted is the definition itself. Anything else
-- is an invalid definition.
pub definition_exact :
    (pb : Option WorkflowDefinition) (def : WorkflowDefinition)
    → (workflow_definition_from_proto pb ≡ ok def) ↔ ((pb ≡ some def) × IsValidDefinition def)
unfolding workflow_definition_from_proto
definition_exact none def = (λ h. cc, λ h. cc)
definition_exact (some pb) def = (from, to)
  where
    from :
        workflow_definition_from_proto (some pb) ≡ ok def
        → (some pb ≡ some def) × IsValidDefinition def
    from h = go (copy_steps pb.steps) refl
      where
        go :
            (x : Result (List StepDefinition))
            → copy_steps pb.steps ≡ x
            → (some pb ≡ some def) × IsValidDefinition def
        go (ok out) e =
            let (targets, same) = copy_sound pb.steps out e in
            let eq : pb ≡ def = ground (arith, h, e, same) in
            let sizes : (1 ≤ length pb.steps) × (length pb.steps ≤ 100) =
              size_bounds pb.steps (ground (arith, h)) (ground (arith, h)) in
            (ap some eq, subst IsValidDefinition eq (sizes.0, sizes.1, targets))
        go (err x) e = absurd (ground (arith, h, e))

    to :
        (some pb ≡ some def) × IsValidDefinition def
        → workflow_definition_from_proto (some pb) ≡ ok def
    to (same, v) =
        let eq : pb ≡ def = ground (arith, same) in
        subst (λ d. workflow_definition_from_proto (some pb) ≡ ok d) eq
          (accepted pb (subst IsValidDefinition (sym eq) v))
