-- ===== src/Certifications/Usable.antt =====
-- What an item of Evidence is that may be counted, and one that gives the approval.
use agentic_engineering_os.Prelude.{
  ◌≡◌, ◌≢◌, ◌⊎◌, inl, inr, refl, ap, ◌∙◌, Bool, Bool-cases, true, false, not, &&-true, ||-true,
  Option, none, some, is_some, List, contains, contains_iff, Memᴰ, Eq, ◌==◌, ==_iff, list_eq,
  nat_eq, option_eq, ok, >>=-eq-ok, ok_inj,
}
use agentic_engineering_os.Prelude.Texts.{Text, text}
use agentic_engineering_os.Domain.{UserStory, Evidence, EvidenceType, evidence_type_eq, DateTime}
use agentic_engineering_os.Validation.{ContractValidator, Validation, completed, interrupted}
use agentic_engineering_os.Identity.{UnicodeTables, is_attributable_human_identity}
use agentic_engineering_os.Approvals.{decision_of}
use agentic_engineering_os.Certifications.Evidences.{
  CertificationContext, is_valid_contract, says, has_zone, is_usable, is_human_decision,
}

equal : {A : Type 0} ⦃e : Eq A⦄ (a b : A) → (a == b) ≡ true → a ≡ b
equal a b h = (==_iff a b).0 h

not_in : {A : Type 0} ⦃e : Eq A⦄ (x : A) (xs : List A) → not (contains x xs) ≡ true → ¬ Memᴰ x xs
not_in x xs h m = cc ((contains_iff x xs).1 m, h)

pub is_valid_contract-true : (v : Validation) → is_valid_contract v ≡ ok true → v ≡ completed true
unfolding is_valid_contract
is_valid_contract-true (completed b) h = ap completed (ok_inj h)
is_valid_contract-true interrupted h = cc

-- The item is of the subject and not stale; it is of the commit, or of none, which only the items
-- that do not depend on the repository may be.
pub record IsUsable (context : CertificationContext) (subject commit evidence_id : Text)
    (item : Evidence) : Type 0 where
  pub of_subject : item.subject ≡ subject
  pub fresh : ¬ Memᴰ evidence_id context.stale_evidence_ids
  pub of_commit :
      (item.commit ≡ some commit)
      ⊎ (Memᴰ evidence_id context.repository_independent_evidence_ids × (item.commit ≡ none))

pub is_usable-IsUsable :
    (context : CertificationContext) (subject commit evidence_id : Text) (item : Evidence)
    → is_usable context subject commit evidence_id item ≡ true
    → IsUsable context subject commit evidence_id item
unfolding is_usable
is_usable-IsUsable context subject commit evidence_id item h =
    let free = context.repository_independent_evidence_ids in
    let (rest, c) = &&-true _ _ h in
    let (a, b) = &&-true (item.subject == subject) _ rest in
    record {
      of_subject = equal item.subject subject a;
      fresh = not_in evidence_id context.stale_evidence_ids b;
      of_commit = elim (Bool-cases (contains evidence_id free)) [
        | inl independent ↦ elim (||-true (item.commit == none) _ (rw independent at c)) [
          | inl absent ↦ inr ((contains_iff evidence_id free).0 independent, equal _ _ absent)
          | inr same ↦ inl (equal item.commit (some commit) same)
        ]
        | inr dependent ↦ inl (equal item.commit (some commit) (rw dependent at c))
      ];
    }

-- The item is an approval of the story by a Human, whom the story names; it is not stale, of the
-- commit or of none, and if it is not False, the story refers to it. The approval has a date.
pub record IsHumanDecision (tables : UnicodeTables) (validator : ContractValidator) (commit : Text)
    (context : CertificationContext) (story : UserStory) (item : Evidence) : Type 0 where
  pub valid : validator.validate_evidence item ≡ completed true
  pub typed : item.evidence_type ≡ EvidenceType.human_approval
  pub of_subject : item.subject ≡ story.id
  pub fresh : ¬ Memᴰ item.evidence_id context.stale_evidence_ids
  pub of_commit : (item.commit ≡ none) ⊎ (item.commit ≡ some commit)
  pub from_human : tables.casefold item.source ≡ text "human"
  pub attributable : is_attributable_human_identity tables (some item.producer) ≡ true
  pub named : story.human_approval.approved_by ≡ some item.producer
  pub referred :
      (decision_of item.result ≡ some false)
      ⊎ (story.human_approval.evidence_ref ≡ some item.evidence_id)
  pub approved_at : DateTime
  pub dated : story.human_approval.approved_at ≡ some approved_at
  pub zoned : approved_at.tzinfo ≢ none

says-false : (o : Option Bool) → says false o ≡ true → o ≡ some false
unfolding says
says-false none h = cc
says-false (some true) h = cc
says-false (some false) h = refl

has_zone-some :
    (o : Option DateTime) → has_zone o ≡ true → (at : DateTime) × (o ≡ some at) × (at.tzinfo ≢ none)
unfolding has_zone
has_zone-some none h = cc
has_zone-some (some at) h = (at, refl, λ e. cc (h, ap is_some e))

pub is_human_decision-IsHumanDecision :
    (tables : UnicodeTables) (validator : ContractValidator) (evidence : List Evidence)
    (commit : Text) (context : CertificationContext) (story : UserStory) (item : Evidence)
    → is_human_decision validator evidence commit context tables story item ≡ ok true
    → IsHumanDecision tables validator commit context story item
unfolding is_human_decision
is_human_decision-IsHumanDecision tables validator evidence commit context story item h =
    let (valid, accepted, h1) =
      >>=-eq-ok (is_valid_contract (validator.validate_evidence item)) _ h in
    let (k1, _) = &&-true _ _ (ok_inj h1) in
    let (k2, z) = &&-true _ _ k1 in
    let (k3, j) = &&-true _ _ k2 in
    let (k4, i) = &&-true _ _ k3 in
    let (k5, g) = &&-true _ _ k4 in
    let (k6, f) = &&-true _ _ k5 in
    let (k7, e) = &&-true _ _ k6 in
    let (k8, d) = &&-true _ _ k7 in
    let (k9, c) = &&-true _ _ k8 in
    let (a, b) = &&-true valid _ k9 in
    let (at, dated, zoned) = has_zone-some story.human_approval.approved_at z in
    record {
      valid = is_valid_contract-true (validator.validate_evidence item) (accepted ∙ ap ok a);
      typed = equal item.evidence_type EvidenceType.human_approval b;
      of_subject = equal item.subject story.id c;
      fresh = not_in item.evidence_id context.stale_evidence_ids d;
      of_commit = elim (||-true (item.commit == none) _ e) [
        | inl absent ↦ inl (equal item.commit none absent)
        | inr same ↦ inr (equal item.commit (some commit) same)
      ];
      from_human = equal (tables.casefold item.source) (text "human") f;
      attributable = g;
      named = equal story.human_approval.approved_by (some item.producer) i;
      referred = elim (||-true (says false (decision_of item.result)) _ j) [
        | inl refused ↦ inl (says-false (decision_of item.result) refused)
        | inr same ↦ inr (equal story.human_approval.evidence_ref (some item.evidence_id) same)
      ];
      approved_at = at;
      dated = dated;
      zoned = zoned;
    }
