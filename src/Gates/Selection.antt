-- ===== src/Gates/Selection.antt =====
-- When `_select_evidence` accepts Evidence.
use agentic_engineering_os.Prelude.{
  ◌≡◌, ◌≢◌, inl, inr, refl, sym, ap, ◌∙◌, subst, Bool, List-cases, true, false, not, ◌&&◌, List, [],
  ◌∷◌, map, Memᴰ, Memᴰ-select, contains, contains_iff, ok, >>=-eq-ok, >>-eq-ok, ◌==◌, ◌!=◌, ==_iff,
  list_eq, nat_eq, option_eq, arith,
}
use agentic_engineering_os.Prelude.Texts.{Text}
use agentic_engineering_os.Domain.{Evidence}
use agentic_engineering_os.Validation.{ContractValidator, Validation, completed, interrupted}
use agentic_engineering_os.Gates.Contract.{GateContract, GateEvaluationContext, GateReason}
use agentic_engineering_os.Gates.{
  matches, evidence_issue, judge_item, select_one, select_evidence, refuse_if,
}

module _ (validator : ContractValidator) (contract : GateContract) (context : GateEvaluationContext)
    (candidates : List Evidence) where
  -- What makes one item the Evidence for an id.
  pub record IsApplicable (evidence_id : Text) (item : Evidence) : Type 0 where
    pub sole : matches candidates evidence_id ≡ item ∷ []
    pub valid : validator.validate_evidence item ≡ completed true
    pub subject : item.subject ≡ contract.subject
    pub fresh : ¬ Memᴰ evidence_id context.stale_evidence_ids
    pub commit : contract.repository_dependent ≡ true → item.commit ≡ context.expected_commit

  -- Item by item, in the order of the required ids.
  abbrev pub AreApplicable : List Text → List Evidence → Type 0
  AreApplicable [] [] = Unit
  AreApplicable (i ∷ ids) (item ∷ items) = IsApplicable i item × AreApplicable ids items
  AreApplicable ids items = ⊥

  evidence_issue-ok : (v : Validation) (i : Text) → evidence_issue v i ≡ ok tt → v ≡ completed true
  unfolding evidence_issue
  evidence_issue-ok (completed true) i h = refl
  evidence_issue-ok (completed false) i h = cc
  evidence_issue-ok interrupted i h = cc

  refuse_if-ok : (test : Bool) (r : GateReason) → refuse_if test r ≡ ok tt → test ≡ false
  refuse_if-ok true r h = cc
  refuse_if-ok false r h = refl

  judge_item-ok :
      (i : Text) (item found : Evidence)
      → matches candidates i ≡ item ∷ []
      → judge_item validator contract context i item ≡ ok found
      → (item ≡ found) × IsApplicable i item
  unfolding judge_item
  judge_item-ok i item found sole h =
      let (valid, h1) = >>-eq-ok (evidence_issue _ item.evidence_id) _ h in
      let (subject, h2) = >>-eq-ok (refuse_if (item.subject != contract.subject) _) _ h1 in
      let (fresh, h3) = >>-eq-ok (refuse_if (contains i context.stale_evidence_ids) _) _ h2 in
      let (commit, h4) =
        >>-eq-ok
          (refuse_if (contract.repository_dependent && item.commit != context.expected_commit) _) _
          h3 in
      let current = refuse_if-ok _ _ commit in
      (
        cc h4,
        record {
          sole = sole;
          valid = evidence_issue-ok _ item.evidence_id valid;
          subject = ground (arith, refuse_if-ok _ _ subject, ==_iff item.subject contract.subject);
          fresh = λ m. cc ((contains_iff i context.stale_evidence_ids).1 m, refuse_if-ok _ _ fresh);
          commit = λ r. ground (arith, r, current, ==_iff item.commit context.expected_commit);
        },
      )

  IsApplicable-judge_item :
      (i : Text) (item : Evidence)
      → IsApplicable i item
      → judge_item validator contract context i item ≡ ok item
  unfolding judge_item evidence_issue
  IsApplicable-judge_item i item a =
      rw
        (
          a.valid,
          (==_iff item.subject contract.subject).1 a.subject,
          not_contained (contains i context.stale_evidence_ids)
              (λ h. a.fresh ((contains_iff i context.stale_evidence_ids).0 h)),
          current contract.repository_dependent a.commit,
        )
        refl
    where
      not_contained : (b : Bool) → b ≢ true → b ≡ false
      not_contained true n = absurd (n refl)
      not_contained false n = refl

      current :
          (b : Bool)
          → (b ≡ true → item.commit ≡ context.expected_commit)
          → b && item.commit != context.expected_commit ≡ false
      current true e = ap not ((==_iff item.commit context.expected_commit).1 (e refl))
      current false e = refl

  select_one-ok :
      (i : Text) (found : Evidence)
      → select_one validator contract context i (matches candidates i) ≡ ok found
      → IsApplicable i found
  unfolding select_one
  select_one-ok i found h = elim (List-cases (matches candidates i)) [
    | inl absent ↦ cc (rw absent at h)
    | inr (item, rest, split) ↦ elim (List-cases rest) [
      | inl sole ↦
          let alone = split ∙ ap (λ (r : List Evidence). item ∷ r) sole in
          let (same, a) = judge_item-ok i item found alone (rw alone at h) in
          subst (IsApplicable i) same a
      | inr (other, later, more) ↦ cc (rw (split ∙ ap (λ (r : List Evidence). item ∷ r) more) at h)
    ]
  ]

  pub select_evidence-ok :
      (ids : List Text) (items : List Evidence)
      → select_evidence validator contract context candidates ids ≡ ok items
      → AreApplicable ids items
  unfolding select_evidence
  select_evidence-ok [] [] h = tt
  select_evidence-ok [] (x ∷ items) h = cc
  select_evidence-ok (i ∷ ids) items h =
      let (item, one, h1) = >>=-eq-ok (select_one validator contract context i _) _ h in
      let (later, rest, h2) =
        >>=-eq-ok (select_evidence validator contract context candidates ids) _ h1 in
      let same : item ∷ later ≡ items = cc h2 in
      subst (AreApplicable (i ∷ ids)) same
        (select_one-ok i item one, select_evidence-ok ids later rest)

  pub AreApplicable-select_evidence :
      (ids : List Text) (items : List Evidence)
      → AreApplicable ids items
      → select_evidence validator contract context candidates ids ≡ ok items
  unfolding select_evidence select_one
  AreApplicable-select_evidence [] [] a = refl
  AreApplicable-select_evidence [] (x ∷ items) a = absurd a
  AreApplicable-select_evidence (i ∷ ids) [] a = absurd a
  AreApplicable-select_evidence (i ∷ ids) (item ∷ items) a =
      rw (a.0.sole, IsApplicable-judge_item i item a.0, AreApplicable-select_evidence ids items a.1)
        refl

  -- The ids of the selected Evidence are the required ones.
  pub AreApplicable-ids :
      (ids : List Text) (items : List Evidence)
      → AreApplicable ids items
      → map (λ (item : Evidence). item.evidence_id) items ≡ ids
  AreApplicable-ids [] [] a = refl
  AreApplicable-ids [] (x ∷ items) a = absurd a
  AreApplicable-ids (i ∷ ids) [] a = absurd a
  AreApplicable-ids (i ∷ ids) (item ∷ items) a =
      let (_, same) =
        Memᴰ-select (λ (e : Evidence). e.evidence_id == i) candidates
          (subst (Memᴰ item) (sym a.0.sole) (Memᴰ.head refl)) in
      cc ((==_iff item.evidence_id i).0 same, AreApplicable-ids ids items a.1)
