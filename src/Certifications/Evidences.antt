-- ===== src/Certifications/Evidences.antt =====
-- The resolution of Evidence for a criterion, a Gate or an approval.
use agentic_engineering_os.Prelude.{
  Bool, true, false, not, ◌&&◌, ◌||◌, Option, none, some, is_some, List, [], ◌∷◌, ◌++◌, length,
  select, contains, is_empty, any_of, all_of, if◌then◌else◌, distinct, ◌==◌, ◌!=◌, list_eq, nat_eq,
  option_eq, Result, ok, err, ◌>>=◌,
}
use agentic_engineering_os.Prelude.Texts.{Text, text}
use agentic_engineering_os.Domain.{
  UserStory, Evidence, EvidenceType, evidence_type_eq, GateResult, gate_result_value,
  gate_result_eq, DateTime,
}
use agentic_engineering_os.Validation.{ContractValidator, Validation, completed, interrupted}
use agentic_engineering_os.Identity.{UnicodeTables, is_attributable_human_identity}
use agentic_engineering_os.Approvals.{decision_of}

pub data CertificationError : Type 0 where
  validation_unavailable key_error : CertificationError

-- `GateResult | str`
pub data RawResult : Type 0 where
  member : GateResult → RawResult
  raw : Text → RawResult

pub record AcceptanceResult : Type 0 where
  pub criterion_id : Text
  pub result : RawResult
  pub evidence_refs : List Text

pub record CertificationContext : Type 0 where
  pub stale_evidence_ids : List Text
  pub repository_independent_evidence_ids : List Text
  pub allowed_not_applicable_gate_ids : List Text
  pub human_approval_evidence_id : Option Text

-- The lists that the three parts of `certify` append to.
pub record Assessment : Type 0 where
  pub failures : List Text
  pub blockers : List Text
  pub used_evidence : List Text
  pub authorized_not_applicable_gates : List Text

abbrev pub untouched : Assessment
untouched = record {
  failures = [];
  blockers = [];
  used_evidence = [];
  authorized_not_applicable_gates = [];
}

-- `_gate_result`
unfoldable pub gate_result : RawResult → Option GateResult
gate_result (member result) = some result
gate_result (raw value) =
    if value == gate_result_value GateResult.pass
    then some GateResult.pass
    else if value == gate_result_value GateResult.fail
    then some GateResult.fail
    else if value == gate_result_value GateResult.unknown
    then some GateResult.unknown
    else if value == gate_result_value GateResult.not_applicable
    then some GateResult.not_applicable
    else none

-- `evidence_index.get(evidence_id, ())`
abbrev pub indexed : List Evidence → Text → List Evidence
indexed items evidence_id = select (λ (item : Evidence). item.evidence_id == evidence_id) items

-- The only member, if there is one alone.
unfoldable pub sole {ℓ} : {A : Type ℓ} → List A → Option A
sole (item ∷ []) = some item
sole [] = none
sole (item ∷ other ∷ rest) = none

-- `_evidence_is_valid` and `_gate_is_valid`
unfoldable pub is_valid_contract : Validation → Result CertificationError Bool
is_valid_contract (completed valid) = ok valid
is_valid_contract interrupted = err validation_unavailable

-- `item.result is value`
unfoldable pub says : Bool → Option Bool → Bool
says value none = false
says true (some decision) = decision
says false (some decision) = not decision

-- `approved_at is not None and approved_at.tzinfo is not None`
unfoldable pub has_zone : Option DateTime → Bool
has_zone none = false
has_zone (some at) = is_some at.tzinfo

-- The tests of `_resolve_evidence` on a valid item.
unfoldable pub is_usable :
    CertificationContext → (subject commit evidence_id : Text) → Evidence → Bool
is_usable context subject commit evidence_id item =
    item.subject == subject
    && not (contains evidence_id context.stale_evidence_ids)
    && (if contains evidence_id context.repository_independent_evidence_ids
        then item.commit == none || item.commit == some commit
        else item.commit == some commit)

module _ (validator : ContractValidator) (evidence : List Evidence) (commit : Text)
    (context : CertificationContext) where
  -- `for evidence_id in evidence_refs:`; the ids resolved so far.
  unfoldable pub resolve_each :
      Text → List Text → List Text → Result CertificationError (Bool × List Text)
  resolve_each subject resolved [] = ok (true, resolved)
  resolve_each subject resolved (evidence_id ∷ rest) =
      let later = resolve_each subject (resolved ++ evidence_id ∷ []) rest in
      elim (sole (indexed evidence evidence_id)) [
        | none ↦ ok (false, resolved)
        | some item ↦ is_valid_contract (validator.validate_evidence item) >>= λ valid.
            if valid && is_usable context subject commit evidence_id item
            then later
            else ok (false, resolved)
      ]

  -- `_resolve_evidence`
  unfoldable pub resolve_evidence : Text → List Text → Result CertificationError (Bool × List Text)
  resolve_evidence subject evidence_refs =
      if is_empty evidence_refs || length (distinct evidence_refs) != length evidence_refs
      then ok (false, [])
      else resolve_each subject [] evidence_refs

  -- `evidence_index[evidence_id][0]` of each id
  unfoldable pub items_of : List Text → Result CertificationError (List Evidence)
  items_of [] = ok []
  items_of (evidence_id ∷ rest) =
      let later = items_of rest in
      elim (indexed evidence evidence_id) [
        | [] ↦ err key_error
        | item ∷ others ↦ later >>= λ items. ok (item ∷ items)
      ]

  -- `_acceptance_evidence_supports`, from the items on
  unfoldable pub items_support : GateResult → List Evidence → Bool
  items_support result items =
      if is_empty items
        || any_of
            (λ (item : Evidence).
              item.evidence_type != EvidenceType.acceptance_criterion_check
              || not (is_some (decision_of item.result)))
            items
      then false
      else if result == GateResult.pass
      then all_of (λ (item : Evidence). says true (decision_of item.result)) items
      else any_of (λ (item : Evidence). says false (decision_of item.result)) items

  -- `refs_valid and _acceptance_evidence_supports(...)`
  unfoldable pub supports : GateResult → Bool → List Text → Result CertificationError Bool
  supports result false evidence_refs = ok false
  supports result true evidence_refs =
      if result == GateResult.pass || result == GateResult.fail
      then (items_of evidence_refs >>= λ items. ok (items_support result items))
      else ok true

  -- `_human_evidence_is_valid`
  unfoldable pub is_human_decision :
      UnicodeTables → UserStory → Evidence → Result CertificationError Bool
  is_human_decision tables story item =
      is_valid_contract (validator.validate_evidence item) >>= λ valid. ok (
        valid
        && item.evidence_type == EvidenceType.human_approval
        && item.subject == story.id
        && not (contains item.evidence_id context.stale_evidence_ids)
        && (item.commit == none || item.commit == some commit)
        && tables.casefold item.source == text "human"
        && is_attributable_human_identity tables (some item.producer)
        && story.human_approval.approved_by == some item.producer
        && (says false (decision_of item.result)
            || story.human_approval.evidence_ref == some item.evidence_id)
        && has_zone story.human_approval.approved_at
        && is_some (decision_of item.result))
