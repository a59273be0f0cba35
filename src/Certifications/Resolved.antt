-- ===== src/Certifications/Resolved.antt =====
-- What resolved Evidence is, and what it says of an accepted criterion.
use mathlib.Core.List.{append_assoc, append-nil}
use agentic_engineering_os.Prelude.{
  ◌≡◌, ◌≢◌, inl, inr, refl, sym, ap, ◌∙◌, subst, Bool, Bool-cases, Option-cases, List-cases, true,
  false, not, ◌&&◌, ◌||◌, &&-true, Option, none, some, is_some, List, [], ◌∷◌, ◌++◌, length,
  is_empty, any_of, any_of-false, Memᴰ-all, distinct, Memᴰ, not_member, ◌!=◌, ==_iff, list_eq,
  nat_eq, ok, >>=-eq-ok, ok_inj, arith,
}
use agentic_engineering_os.Prelude.Texts.{Text}
use agentic_engineering_os.Domain.{
  Evidence, EvidenceType, evidence_type_eq, GateResult, gate_result_eq, GateResult-discrete,
}
use agentic_engineering_os.Validation.{ContractValidator, completed}
use agentic_engineering_os.Approvals.{decision_of}
use agentic_engineering_os.Certifications.Usable.{
  IsUsable, is_usable-IsUsable, is_valid_contract-true,
}
use agentic_engineering_os.Certifications.Evidences.{
  CertificationContext, indexed, sole, is_valid_contract, says, is_usable, resolve_each,
  resolve_evidence, items_of, items_support, supports,
}

pub sole-some : {A : Type 0} (xs : List A) (x : A) → sole xs ≡ some x → xs ≡ x ∷ []
unfolding sole
sole-some [] x h = cc
sole-some (y ∷ []) x h = let e : y ≡ x = cc in ap (λ z. z ∷ []) e
sole-some (y ∷ z ∷ rest) x h = cc

||-false : (a b : Bool) → (a || b ≡ false) → (a ≡ false) × (b ≡ false)
||-false a b h = ground arith

pub says-true : (value : Bool) (o : Option Bool) → says value o ≡ true → o ≡ some value
unfolding says
says-true value none h = cc
says-true true (some true) h = refl
says-true true (some false) h = cc
says-true false (some true) h = cc
says-true false (some false) h = refl

module _ (validator : ContractValidator) (evidence : List Evidence) (commit : Text)
    (context : CertificationContext) where
  -- The id names one item alone, which the validator accepts and the context can use.
  pub record IsResolved (subject evidence_id : Text) : Type 0 where
    pub item : Evidence
    pub alone : indexed evidence evidence_id ≡ item ∷ []
    pub valid : validator.validate_evidence item ≡ completed true
    pub usable : IsUsable context subject commit evidence_id item

  resolve_each-IsResolved :
      (subject : Text) (resolved refs found : List Text)
      → resolve_each validator evidence commit context subject resolved refs ≡ ok (true, found)
      → (found ≡ resolved ++ refs) × ((id : Text) → Memᴰ id refs → IsResolved subject id)
  unfolding resolve_each
  resolve_each-IsResolved subject resolved [] found h = (
    sym (ap (λ (p : Bool × List Text). p.1) (ok_inj h)) ∙ sym (append-nil resolved),
    λ id m. absurd (not_member m),
  )
  resolve_each-IsResolved subject resolved (id ∷ rest) found h =
      elim (Option-cases (sole (indexed evidence id))) [
        | inl gone ↦ cc (ap (λ (p : Bool × List Text). p.0) (ok_inj (rw (resolve_each, gone) at h)))
        | inr (item, alone) ↦
            let (valid, checked, h1) =
              >>=-eq-ok (is_valid_contract (validator.validate_evidence item)) _
                (rw (resolve_each, alone) at h) in
            elim (Bool-cases (valid && is_usable context subject commit id item)) [
              | inl fine ↦
                  let (a, b) = &&-true valid _ fine in
                  let (same, all) =
                    resolve_each-IsResolved subject (resolved ++ id ∷ []) rest found
                      (rw fine at h1) in
                  (
                    same ∙ append_assoc resolved (id ∷ []) rest,
                    λ x m. elim m [
                      | Memᴰ.head e ↦ subst (IsResolved subject) (sym e) (record {
                        item = item;
                        alone = sole-some (indexed evidence id) item alone;
                        valid =
                            is_valid_contract-true (validator.validate_evidence item)
                              (checked ∙ ap ok a);
                        usable = is_usable-IsUsable context subject commit id item b;
                      })
                      | Memᴰ.tail k ↦ all x k
                    ],
                  )
              | inr refused ↦ cc (ap (λ (p : Bool × List Text). p.0) (ok_inj (rw refused at h1)))
            ]
      ]

  pub resolve_evidence-IsResolved :
      (subject : Text) (refs found : List Text)
      → resolve_evidence validator evidence commit context subject refs ≡ ok (true, found)
      → (found ≡ refs) × (refs ≢ []) × ((id : Text) → Memᴰ id refs → IsResolved subject id)
  unfolding resolve_evidence
  resolve_evidence-IsResolved subject refs found h =
      elim (Bool-cases (is_empty refs || length (distinct refs) != length refs)) [
        | inl bad ↦ cc (ap (λ (p : Bool × List Text). p.0) (ok_inj (rw bad at h)))
        | inr good ↦
            let (same, all) = resolve_each-IsResolved subject [] refs found (rw good at h) in
            (same, λ e. cc ((||-false (is_empty refs) _ good).0, ap is_empty e), all)
      ]

  items_of-Memᴰ :
      (refs : List Text) (items : List Evidence) (id : Text) (item : Evidence)
      → items_of validator evidence commit context refs ≡ ok items
      → Memᴰ id refs
      → indexed evidence id ≡ item ∷ []
      → Memᴰ item items
  unfolding items_of
  items_of-Memᴰ [] items id item h m alone = absurd (not_member m)
  items_of-Memᴰ (first ∷ rest) items id item h m alone =
      elim (List-cases (indexed evidence first)) [
        | inl gone ↦ cc (rw (items_of, gone) at h)
        | inr (x, others, found) ↦
            let (later, rest_ok, h1) =
              >>=-eq-ok (items_of validator evidence commit context rest) _
                (rw (items_of, found) at h) in
            subst (λ (l : List Evidence). Memᴰ item l) (ok_inj h1)
              (elim m [
                | Memᴰ.head q ↦
                    let same : item ∷ [] ≡ x ∷ others =
                      sym alone ∙ ap (indexed evidence) q ∙ found in
                    let e : item ≡ x = cc in Memᴰ.head e
                | Memᴰ.tail k ↦ Memᴰ.tail (items_of-Memᴰ rest later id item rest_ok k alone)
              ])
      ]

  -- The item is a passed check of a criterion.
  abbrev pub IsPassedCheck : Evidence → Type 0
  IsPassedCheck item =
      (item.evidence_type ≡ EvidenceType.acceptance_criterion_check)
      × (decision_of item.result ≡ some true)

  items_support-IsPassedCheck :
      (items : List Evidence)
      → items_support validator evidence commit context GateResult.pass items ≡ true
      → (item : Evidence) → Memᴰ item items
      → IsPassedCheck item
  unfolding items_support GateResult-discrete
  items_support-IsPassedCheck items h item m =
      let wrong = λ (x : Evidence).
        x.evidence_type != EvidenceType.acceptance_criterion_check
        || not (is_some (decision_of x.result)) in
      elim (Bool-cases (is_empty items || any_of wrong items)) [
        | inl bad ↦ cc (rw bad at h)
        | inr good ↦
            let fine = any_of-false wrong items (||-false (is_empty items) _ good).1 m in
            let typed =
              (||-false (item.evidence_type != EvidenceType.acceptance_criterion_check) _ fine).0 in
            let says_true =
              Memᴰ-all (λ (x : Evidence). says true (decision_of x.result)) items (rw good at h)
                m in
            (
              (==_iff item.evidence_type EvidenceType.acceptance_criterion_check).0
                  (ground (arith, typed)),
              says-true true (decision_of item.result) says_true,
            )
      ]

  pub supports-IsPassedCheck :
      (refs_valid : Bool) (refs : List Text)
      → supports validator evidence commit context GateResult.pass refs_valid refs ≡ ok true
      → (refs_valid ≡ true)
        × ((id : Text) (item : Evidence)
            → Memᴰ id refs
            → indexed evidence id ≡ item ∷ []
            → IsPassedCheck item)
  unfolding supports GateResult-discrete
  supports-IsPassedCheck false refs h = cc (ok_inj h)
  supports-IsPassedCheck true refs h =
      let (items, found, h1) = >>=-eq-ok (items_of validator evidence commit context refs) _ h in
      (
        refl,
        λ id item m alone.
            items_support-IsPassedCheck items (ok_inj h1) item
              (items_of-Memᴰ refs items id item found m alone),
      )
