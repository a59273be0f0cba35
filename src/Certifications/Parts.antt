-- ===== src/Certifications/Parts.antt =====
-- `_evaluate_acceptance`, `_evaluate_gates` and `_evaluate_human_approval`.
use agentic_engineering_os.Prelude.{
  Bool, true, false, not, ◌&&◌, ◌||◌, Option, none, some, List, [], ◌∷◌, ◌++◌, select, contains,
  if◌then◌else◌, ◌==◌, ◌!=◌, list_eq, nat_eq, Result, ok, ◌>>=◌,
}
use agentic_engineering_os.Prelude.Texts.{Text, text}
use agentic_engineering_os.Domain.{
  UserStory, AcceptanceCriterion, Evidence, Gate, GateResult, gate_result_value, gate_result_eq,
  JsonValue, JsonFields,
}
use agentic_engineering_os.Validation.{ContractValidator}
use agentic_engineering_os.Identity.{UnicodeTables}
use agentic_engineering_os.Approvals.{decision_of}
use agentic_engineering_os.Certifications.Evidences.{
  CertificationError, AcceptanceResult, CertificationContext, Assessment, gate_result, indexed,
  sole, is_valid_contract, says, resolve_evidence, supports, is_human_decision,
}

-- `results[key] = value`
unfoldable pub put_field : Text → JsonValue → JsonFields → JsonFields
put_field key value JsonFields.end = JsonFields.field key value JsonFields.end
put_field key value (JsonFields.field name old rest) =
    let later = put_field key value rest in
    if name == key then JsonFields.field name value rest else JsonFields.field name old later

abbrev pub with_failure : Assessment → Text → Assessment
with_failure s label = record s { failures = s.failures ++ label ∷ [] }

abbrev pub with_blocker : Assessment → Text → Assessment
with_blocker s label = record s { blockers = s.blockers ++ label ∷ [] }

abbrev pub with_blockers : Assessment → List Text → Assessment
with_blockers s labels = record s { blockers = s.blockers ++ labels }

-- `if refs_valid: used_evidence.extend(resolved_refs)`
abbrev pub with_used : Bool → Assessment → List Text → Assessment
with_used refs_valid s refs =
    if refs_valid then record s { used_evidence = s.used_evidence ++ refs } else s

abbrev pub value_of : GateResult → JsonValue
value_of result = JsonValue.string (gate_result_value result)

abbrev label : Text → Text → Text → Text
label kind id suffix = kind ++ text ":" ++ id ++ text ":" ++ suffix

abbrev pub blocked_if : Bool → Assessment → Text → Assessment
blocked_if mandatory s reason = if mandatory then with_blocker s reason else s

-- The end of an iteration of `_evaluate_acceptance`.
unfoldable pub settle_criterion : AcceptanceCriterion → GateResult → Bool → Assessment → Assessment
settle_criterion criterion result refs_valid s =
    if not criterion.mandatory
    then s
    else if result == GateResult.fail && refs_valid
    then with_failure s (label (text "acceptance") criterion.id (text "failed"))
    else if result != GateResult.pass || not refs_valid
    then with_blocker s (label (text "acceptance") criterion.id (text "not-proven"))
    else s

-- The end of an iteration of `_evaluate_gates`.
unfoldable pub settle_gate :
    UserStory → CertificationContext → Text → Gate → Bool → Assessment → Assessment
settle_gate story context gate_id gate refs_valid s =
    if gate.subject != story.id || not gate.required
    then with_blocker s (label (text "gate") gate_id (text "contract-mismatch"))
    else if gate.result == GateResult.fail && refs_valid
    then with_failure s (label (text "gate") gate_id (text "failed"))
    else if gate.result == GateResult.pass && refs_valid
    then s
    else if gate.result == GateResult.not_applicable
        && contains gate_id context.allowed_not_applicable_gate_ids
    then record s {
      authorized_not_applicable_gates = s.authorized_not_applicable_gates ++ gate_id ∷ [];
    }
    else with_blocker s (label (text "gate") gate_id (text "not-proven"))

-- The end of `_evaluate_human_approval`, with the value of `result["result"]`.
unfoldable pub settle_approval :
    (approved : Bool) → Option Bool → Assessment → GateResult × Assessment
settle_approval approved decision s =
    if approved && says true decision
    then (GateResult.pass, s)
    else if not approved && says false decision
    then (GateResult.fail, with_failure s (text "human-approval:refused"))
    else (GateResult.unknown, with_blocker s (text "human-approval:conflicting"))

module _ (validator : ContractValidator) (evidence : List Evidence) (commit : Text)
    (context : CertificationContext) where
  -- One iteration of `_evaluate_acceptance`: the value of `results[criterion.id]`, and the state.
  unfoldable pub assess_criterion :
      List AcceptanceResult
      → AcceptanceCriterion
      → Assessment
      → Result CertificationError (GateResult × Assessment)
  assess_criterion supplied criterion s =
      elim (sole
        (select (λ (item : AcceptanceResult). item.criterion_id == criterion.id) supplied)) [
          | none ↦ ok (
            GateResult.unknown,
            blocked_if criterion.mandatory s
                (label (text "acceptance") criterion.id (text "missing-or-ambiguous")),
          )
          | some item ↦ elim (gate_result item.result) [
            | none ↦ ok (
              GateResult.unknown,
              blocked_if criterion.mandatory s
                  (label (text "acceptance") criterion.id (text "unknown-result")),
            )
            | some result ↦
                resolve_evidence validator evidence commit context criterion.id item.evidence_refs
                >>= λ resolved.
                    supports validator evidence commit context result resolved.0 resolved.1
                    >>= λ refs_valid. ok (
                      result,
                      settle_criterion criterion result refs_valid
                          (with_used refs_valid s resolved.1),
                    )
          ]
        ]

  unfoldable pub assess_criteria :
      List AcceptanceResult
      → List AcceptanceCriterion
      → Assessment
      → JsonFields
      → Result CertificationError (JsonFields × Assessment)
  assess_criteria supplied [] s results = ok (results, s)
  assess_criteria supplied (criterion ∷ rest) s results = do
    (result, s1) ← assess_criterion supplied criterion s
    assess_criteria supplied rest s1 (put_field criterion.id (value_of result) results)

  -- One iteration of `_evaluate_gates`.
  unfoldable pub assess_gate :
      List Gate
      → UserStory
      → Text
      → Assessment
      → Result CertificationError (GateResult × Assessment)
  assess_gate gates story gate_id s =
      elim (sole (select (λ (gate : Gate). gate.gate_id == gate_id) gates)) [
        | none ↦ ok (
          GateResult.unknown,
          with_blocker s (label (text "gate") gate_id (text "missing-or-ambiguous")),
        )
        | some gate ↦ is_valid_contract (validator.validate_gate gate) >>= λ valid.
            let settled =
              resolve_evidence validator evidence commit context story.id gate.evidence_refs
              >>= λ resolved. ok (
                gate.result,
                settle_gate story context gate_id gate resolved.0
                    (with_used resolved.0 s resolved.1),
              ) in
            if valid
            then settled
            else ok
                (GateResult.unknown, with_blocker s (label (text "gate") gate_id (text "invalid")))
      ]

  unfoldable pub assess_gates :
      List Gate
      → UserStory
      → List Text
      → Assessment
      → JsonFields
      → Result CertificationError (JsonFields × Assessment)
  assess_gates gates story [] s results = ok (results, s)
  assess_gates gates story (gate_id ∷ rest) s results = do
    (result, s1) ← assess_gate gates story gate_id s
    assess_gates gates story rest s1 (put_field gate_id (value_of result) results)

  -- The approval map of `_evaluate_human_approval`.
  unfoldable pub approval_map :
      (required approved : Bool) → Option Text → Option GateResult → JsonFields
  approval_map required approved evidence_id result =
      JsonFields.field (text "required") (JsonValue.boolean required) (
        JsonFields.field (text "approved") (JsonValue.boolean approved) (
          JsonFields.field (text "evidence_ref")
            (elim evidence_id [ none ↦ JsonValue.null | some id ↦ JsonValue.string id ])
            (elim result [
              | none ↦ JsonFields.end
              | some r ↦ JsonFields.field (text "result") (value_of r) JsonFields.end
            ])))

  -- The item of the approval, once it is the only one with its id.
  unfoldable pub assess_decision :
      UnicodeTables
      → UserStory
      → Text
      → Evidence
      → Assessment
      → Result CertificationError (JsonFields × Assessment)
  assess_decision tables story evidence_id item s =
      let approved = story.human_approval.approved in
      is_human_decision validator evidence commit context tables story item >>= λ valid.
      let (result, settled) =
        settle_approval approved (decision_of item.result)
          (record s { used_evidence = s.used_evidence ++ evidence_id ∷ [] }) in
      if valid
      then ok (approval_map true approved (some evidence_id) (some result), settled)
      else ok (
        approval_map true approved (some evidence_id) none,
        with_blocker s (text "human-approval:invalid-or-ambiguous"),
      )

  unfoldable pub assess_approval :
      UnicodeTables → UserStory → Assessment → Result CertificationError (JsonFields × Assessment)
  assess_approval tables story s =
      let approved = story.human_approval.approved in
      if not story.human_approval.required
      then ok (approval_map false approved none none, s)
      else elim context.human_approval_evidence_id [
        | none ↦
            ok
              (approval_map true approved none none, with_blocker s (text "human-approval:missing"))
        | some evidence_id ↦ elim (sole (indexed evidence evidence_id)) [
          | none ↦ ok (
            approval_map true approved (some evidence_id) none,
            with_blocker s (text "human-approval:missing-or-ambiguous"),
          )
          | some item ↦ assess_decision tables story evidence_id item s
        ]
      ]
