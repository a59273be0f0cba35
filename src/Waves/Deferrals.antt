-- ===== src/Waves/Deferrals.antt =====
-- `_deferred_node` returns for every node that is not in a wave.
use agentic_engineering_os.Prelude.{
  ◌≡◌, ◌≢◌, ◌↔◌, ◌⊎◌, inl, inr, refl, sym, subst, Bool, Bool-cases, true, false, not, List, [], ◌∷◌,
  map, is_empty, contains, select, Memᴰ, not_member, ok, err, ◌==◌, ==_iff, ==_self, list_eq,
  nat_eq,
}
use agentic_engineering_os.Prelude.Texts.{Text}
use agentic_engineering_os.Domain.{
  UserStoryStatus, user_story_status_eq, ReadinessClassification, ReadinessClassification-discrete,
  readiness_classification_eq, NodeReadiness, DagNode, DeferredNode, DeferredReason,
}
use agentic_engineering_os.Dag.Canonical.{NoRepeat}
use agentic_engineering_os.Waves.{
  WavePlanningError, is_plannable, classification_in, defer, deferred_as,
}

abbrev pub names_of : List NodeReadiness → List Text
names_of nodes = map (λ (node : NodeReadiness). node.user_story_id) nodes

classification_in-absent :
    (nodes : List NodeReadiness) (id : Text)
    → ¬ Memᴰ id (names_of nodes)
    → (e : WavePlanningError) × (classification_in nodes id ≡ err e)
unfolding classification_in
classification_in-absent [] id n = (_, refl)
classification_in-absent (first ∷ rest) id n =
    let (e, gone) = classification_in-absent rest id (λ m. n (Memᴰ.tail m)) in
    elim (Bool-cases (first.user_story_id == id)) [
      | inl same ↦ absurd (n (Memᴰ.head (sym ((==_iff first.user_story_id id).0 same))))
      | inr other ↦ (e, rw (classification_in, gone, other) refl)
    ]

pub classification_in-distinct :
    (nodes : List NodeReadiness) (node : NodeReadiness)
    → NoRepeat (names_of nodes)
    → Memᴰ node nodes
    → classification_in nodes node.user_story_id ≡ ok node.classification
unfolding classification_in
classification_in-distinct [] node n m = absurd (not_member m)
classification_in-distinct (first ∷ rest) node n (Memᴰ.head e) =
    let (err', gone) = classification_in-absent rest first.user_story_id n.0 in
    let here : classification_in (first ∷ rest) first.user_story_id ≡ ok first.classification =
      rw (classification_in, gone, ==_self first.user_story_id) refl in
    subst
      (λ (x : NodeReadiness).
        classification_in (first ∷ rest) x.user_story_id ≡ ok x.classification)
      (sym e) here
classification_in-distinct (first ∷ rest) node n (Memᴰ.tail m) =
    rw (classification_in, classification_in-distinct rest node n.1 m) refl

abbrev pub blockers : List Text → DagNode → List Text
blockers satisfied node = select (λ dependency. not (contains dependency satisfied)) node.depends_on

-- A plannable node is deferred for its blockers, of which there is one, and another node for none.
pub record IsDeferral (satisfied : List Text) (node : DagNode) (plannable : Bool) (d : DeferredNode)
    : Type 0 where
  pub names_node : d.user_story_id ≡ node.user_story_id
  pub reasoned : (d.reason ≡ DeferredReason.unplannable_dependency) ↔ (plannable ≡ true)
  pub blocked :
      plannable ≡ true
      → (d.blocking_dependencies ≡ blockers satisfied node) × (d.blocking_dependencies ≢ [])
  pub unblocked : plannable ≡ false → d.blocking_dependencies ≡ []

module _ (satisfied : List Text) (node : DagNode) where
  IsDeferral-other :
      (reason : DeferredReason)
      → reason ≢ DeferredReason.unplannable_dependency
      → IsDeferral satisfied node false (deferred_as node reason [])
  IsDeferral-other reason ne = record {
    names_node = refl;
    reasoned = (λ h. absurd (ne h), λ h. cc);
    blocked = λ h. cc;
    unblocked = λ h. refl;
  }

  IsDeferral-plannable :
      (bs : List Text)
      → blockers satisfied node ≡ bs
      → bs ≢ []
      → IsDeferral satisfied node true (deferred_as node DeferredReason.unplannable_dependency bs)
  IsDeferral-plannable bs e ne = record {
    names_node = refl;
    reasoned = (λ h. refl, λ h. refl);
    blocked = λ h. (sym e, ne);
    unblocked = λ h. cc;
  }

  nonempty : (bs : List Text) → bs ≢ [] → is_empty bs ≡ false
  nonempty [] ne = absurd (ne refl)
  nonempty (b ∷ bs) ne = refl

  pub defer-IsDeferral :
      (c : ReadinessClassification)
      → ((c ≡ ReadinessClassification.terminal)
          ↔ ((node.status ≡ UserStoryStatus.certified) ⊎ (node.status ≡ UserStoryStatus.cancelled)))
      → (is_plannable c ≡ true → blockers satisfied node ≢ [])
      → (d : DeferredNode) × (defer satisfied node c ≡ ok d)
        × IsDeferral satisfied node (is_plannable c) d
  unfolding defer ReadinessClassification-discrete
  defer-IsDeferral c terminal_iff some_blocker =
      elim (Bool-cases (node.status == UserStoryStatus.certified)) [
        | inl done ↦
            let e = terminal_iff.1 (inl ((==_iff node.status UserStoryStatus.certified).0 done)) in
            (
              deferred_as node DeferredReason.terminal_satisfied [],
              rw done refl,
              rw e (IsDeferral-other DeferredReason.terminal_satisfied (λ h. cc)),
            )
        | inr not_certified ↦ elim (Bool-cases (node.status == UserStoryStatus.cancelled)) [
          | inl gone ↦
              let e =
                terminal_iff.1 (inr ((==_iff node.status UserStoryStatus.cancelled).0 gone)) in
              (
                deferred_as node DeferredReason.terminal_unsatisfied [],
                rw (not_certified, gone) refl,
                rw e (IsDeferral-other DeferredReason.terminal_unsatisfied (λ h. cc)),
              )
          | inr not_cancelled ↦ by_class c terminal_iff some_blocker not_certified not_cancelled
        ]
      ]
    where
      by_class :
          (c : ReadinessClassification)
          → ((c ≡ ReadinessClassification.terminal) ↔ (
              (node.status ≡ UserStoryStatus.certified)
              ⊎ (node.status ≡ UserStoryStatus.cancelled)))
          → (is_plannable c ≡ true → blockers satisfied node ≢ [])
          → (node.status == UserStoryStatus.certified) ≡ false
          → (node.status == UserStoryStatus.cancelled) ≡ false
          → (d : DeferredNode) × (defer satisfied node c ≡ ok d)
            × IsDeferral satisfied node (is_plannable c) d
      by_class ReadinessClassification.ready t some a b =
          let ne = some refl in (_, rw (a, b, nonempty _ ne) refl, IsDeferral-plannable _ refl ne)
      by_class ReadinessClassification.waiting_dependencies t some a b =
          let ne = some refl in (_, rw (a, b, nonempty _ ne) refl, IsDeferral-plannable _ refl ne)
      by_class ReadinessClassification.blocked t some a b =
          (_, rw (a, b) refl, IsDeferral-other DeferredReason.blocked (λ h. cc))
      by_class ReadinessClassification.ineligible t some a b =
          (_, rw (a, b) refl, IsDeferral-other DeferredReason.ineligible (λ h. cc))
      by_class ReadinessClassification.terminal t some a b = elim (t.0 refl) [
        | inl e ↦ cc ((==_iff node.status UserStoryStatus.certified).1 e, a)
        | inr e ↦ cc ((==_iff node.status UserStoryStatus.cancelled).1 e, b)
      ]
