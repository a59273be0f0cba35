-- ===== src/Certifications/Clean.antt =====
-- The iterations that leave no failure and no blocker.
use agentic_engineering_os.Prelude.{
  ◌≡◌, ◌≢◌, ◌⊎◌, inl, inr, refl, Bool, Bool-cases, true, false, not, ◌&&◌, ◌||◌, &&-true, Option,
  some, List, [], ◌∷◌, ◌++◌, contains, contains_iff, Memᴰ, ◌==◌, ◌!=◌, ==_iff, list_eq, nat_eq,
  arith,
}
use agentic_engineering_os.Prelude.Texts.{Text}
use agentic_engineering_os.Domain.{UserStory, AcceptanceCriterion, Gate, GateResult, gate_result_eq}
use agentic_engineering_os.Certifications.Evidences.{CertificationContext, Assessment, says}
use agentic_engineering_os.Certifications.Parts.{
  with_used, blocked_if, settle_criterion, settle_gate, settle_approval,
}
use agentic_engineering_os.Certifications.Resolved.{says-true}

-- Nothing failed and nothing is in the way.
abbrev pub IsClean : Assessment → Type 0
IsClean s = (s.failures ≡ []) × (s.blockers ≡ [])

pub snoc_not_nil : (xs : List Text) (x : Text) → xs ++ x ∷ [] ≢ []
snoc_not_nil [] x h = cc
snoc_not_nil (y ∷ xs) x h = cc

pub with_used-IsClean :
    (v : Bool) (s : Assessment) (refs : List Text) → IsClean (with_used v s refs) → IsClean s
with_used-IsClean true s refs c = c
with_used-IsClean false s refs c = c

pub not_blocked_if :
    (mandatory : Bool) (s : Assessment) (reason : Text)
    → IsClean (blocked_if mandatory s reason)
    → IsClean s × (mandatory ≡ false)
not_blocked_if true s reason c = absurd (snoc_not_nil s.blockers reason c.1)
not_blocked_if false s reason c = (c, refl)

pub settle_criterion-IsClean :
    (criterion : AcceptanceCriterion) (result : GateResult) (v : Bool) (s : Assessment)
    → IsClean (settle_criterion criterion result v s)
    → IsClean s × ((criterion.mandatory ≡ false) ⊎ ((result ≡ GateResult.pass) × (v ≡ true)))
unfolding settle_criterion
settle_criterion-IsClean criterion result v s c = elim (Bool-cases criterion.mandatory) [
  | inr free ↦ (rw free at c, inl free)
  | inl bound ↦ elim (Bool-cases (result == GateResult.fail && v)) [
    | inl failed ↦ absurd (snoc_not_nil s.failures _ (rw (bound, failed) at c).0)
    | inr other ↦ elim (Bool-cases (result != GateResult.pass || not v)) [
      | inl unproven ↦ absurd (snoc_not_nil s.blockers _ (rw (bound, other, unproven) at c).1)
      | inr proven ↦ (
        rw (bound, other, proven) at c,
        inr ((==_iff result GateResult.pass).0 (ground (arith, proven)), ground (arith, proven)),
      )
    ]
  ]
]

-- A Gate that counts for the certification.
pub record IsGranted (story : UserStory) (context : CertificationContext) (gate_id : Text)
    (gate : Gate) (v : Bool) : Type 0 where
  pub about : gate.subject ≡ story.id
  pub required : gate.required ≡ true
  pub result :
      ((gate.result ≡ GateResult.pass) × (v ≡ true))
      ⊎ ((gate.result ≡ GateResult.not_applicable)
          × Memᴰ gate_id context.allowed_not_applicable_gate_ids)

pub settle_gate-IsClean :
    (story : UserStory) (context : CertificationContext) (gate_id : Text) (gate : Gate) (v : Bool)
    (s : Assessment)
    → IsClean (settle_gate story context gate_id gate v s)
    → IsClean s × IsGranted story context gate_id gate v
unfolding settle_gate
settle_gate-IsClean story context gate_id gate v s c =
    elim (Bool-cases (gate.subject != story.id || not gate.required)) [
      | inl bad ↦ absurd (snoc_not_nil s.blockers _ (rw bad at c).1)
      | inr good ↦
          let about = (==_iff gate.subject story.id).0 (ground (arith, good)) in
          let required : gate.required ≡ true = ground (arith, good) in
          elim (Bool-cases (gate.result == GateResult.fail && v)) [
            | inl failed ↦ absurd (snoc_not_nil s.failures _ (rw (good, failed) at c).0)
            | inr other ↦ elim (Bool-cases (gate.result == GateResult.pass && v)) [
              | inl passed ↦
                  let (a, b) = &&-true (gate.result == GateResult.pass) v passed in
                  (
                    rw (good, other, passed) at c,
                    record {
                      about = about;
                      required = required;
                      result = inl ((==_iff gate.result GateResult.pass).0 a, b);
                    },
                  )
              | inr unproven ↦
                  elim (Bool-cases (
                    gate.result == GateResult.not_applicable
                    && contains gate_id context.allowed_not_applicable_gate_ids)) [
                      | inl waived ↦
                          let (a, b) =
                            &&-true (gate.result == GateResult.not_applicable) _ waived in
                          (
                            rw (good, other, unproven, waived) at c,
                            record {
                              about = about;
                              required = required;
                              result = inr (
                                (==_iff gate.result GateResult.not_applicable).0 a,
                                (contains_iff gate_id context.allowed_not_applicable_gate_ids).0 b,
                              );
                            },
                          )
                      | inr nothing ↦
                          absurd
                            (snoc_not_nil s.blockers _ (rw (good, other, unproven, nothing) at c).1)
                    ]
            ]
          ]
    ]

pub settle_approval-IsClean :
    (approved : Bool) (decision : Option Bool) (s : Assessment)
    → IsClean (settle_approval approved decision s).1
    → IsClean s × (approved ≡ true) × (decision ≡ some true)
unfolding settle_approval
settle_approval-IsClean approved decision s c = elim (Bool-cases (approved && says true decision)) [
  | inl granted ↦
      let (a, b) = &&-true approved _ granted in (rw granted at c, a, says-true true decision b)
  | inr not_granted ↦ elim (Bool-cases (not approved && says false decision)) [
    | inl refused ↦ absurd (snoc_not_nil s.failures _ (rw (not_granted, refused) at c).0)
    | inr conflicting ↦ absurd (snoc_not_nil s.blockers _ (rw (not_granted, conflicting) at c).1)
  ]
]
