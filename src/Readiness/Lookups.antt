-- ===== src/Readiness/Lookups.antt =====
-- The stories that the engine looks up, and the dependencies that it leaves unsatisfied.
use agentic_engineering_os.Prelude.{
  ◌≡◌, ◌↔◌, inl, inr, refl, sym, ap, ◌∙◌, subst, Bool, Bool-cases, Option-cases, true, false, some,
  List, [], ◌∷◌, Memᴰ, Memᴰ-map, not_member, is_empty, if◌then◌else◌, ok, >>=-eq-ok, ok_inj, ◌==◌,
  ==_iff, list_eq, nat_eq,
}
use agentic_engineering_os.Prelude.Texts.{Text}
use agentic_engineering_os.Domain.{UserStory, UserStoryStatus, user_story_status_eq}
use agentic_engineering_os.Dag.Canonical.{NoRepeat}
use agentic_engineering_os.Dag.{identifiers}
use agentic_engineering_os.Readiness.{story_of, is_wanted, dependencies_where}

pub story_of-Memᴰ :
    (stories : List UserStory) (id : Text) (s : UserStory)
    → story_of stories id ≡ some s
    → Memᴰ s stories × (s.id ≡ id)
unfolding story_of
story_of-Memᴰ [] id s h = cc
story_of-Memᴰ (t ∷ rest) id s h = elim (Option-cases (story_of rest id)) [
  | inl gone ↦ elim (Bool-cases (t.id == id)) [
    | inl here ↦
        let same : t ≡ s = cc (rw (gone, here) at h) in
        (Memᴰ.head (sym same), ap (λ (u : UserStory). u.id) (sym same) ∙ (==_iff t.id id).0 here)
    | inr other ↦ cc (rw (gone, other) at h)
  ]
  | inr (u, later) ↦
      let same : u ≡ s = cc (rw later at h) in
      let (m, named) = story_of-Memᴰ rest id s (later ∙ ap some same) in (Memᴰ.tail m, named)
]

pub story_of-known :
    (stories : List UserStory) (id : Text)
    → Memᴰ id (identifiers stories)
    → (s : UserStory) × (story_of stories id ≡ some s)
unfolding story_of
story_of-known [] id m = absurd (not_member m)
story_of-known (t ∷ rest) id m = elim (Option-cases (story_of rest id)) [
  | inl gone ↦ elim m [
    | Memᴰ.head e ↦ (t, rw (gone, (==_iff t.id id).1 (sym e)) refl)
    | Memᴰ.tail k ↦ let (s, found) = story_of-known rest id k in cc (found, gone)
  ]
  | inr (u, later) ↦ (u, rw later refl)
]

-- With distinct identifiers a story is the one its identifier finds.
pub same_story :
    (stories : List UserStory) (s t : UserStory)
    → NoRepeat (identifiers stories)
    → Memᴰ s stories
    → Memᴰ t stories
    → s.id ≡ t.id
    → s ≡ t
same_story [] s t n m k e = absurd (not_member m)
same_story (x ∷ rest) s t n (Memᴰ.head a) (Memᴰ.head b) e = a ∙ sym b
same_story (x ∷ rest) s t n (Memᴰ.head a) (Memᴰ.tail k) e = absurd (
    n.0 (
      subst (λ i. Memᴰ i (identifiers rest)) (sym e ∙ ap (λ (u : UserStory). u.id) a)
        (Memᴰ-map (λ (u : UserStory). u.id) rest k)))
same_story (x ∷ rest) s t n (Memᴰ.tail m) (Memᴰ.head b) e = absurd (
    n.0 (
      subst (λ i. Memᴰ i (identifiers rest)) (e ∙ ap (λ (u : UserStory). u.id) b)
        (Memᴰ-map (λ (u : UserStory). u.id) rest m)))
same_story (x ∷ rest) s t n (Memᴰ.tail m) (Memᴰ.tail k) e = same_story rest s t n.1 m k e

pub story_of-distinct :
    (stories : List UserStory) (s : UserStory)
    → NoRepeat (identifiers stories)
    → Memᴰ s stories
    → story_of stories s.id ≡ some s
story_of-distinct stories s n m =
    let (t, found) = story_of-known stories s.id (Memᴰ-map (λ (u : UserStory). u.id) stories m) in
    let (k, named) = story_of-Memᴰ stories s.id t found in
    found ∙ ap some (same_story stories t s n k m named)

module _ (stories : List UserStory) where
  -- The stories have a CERTIFIED one with this identifier.
  abbrev pub IsCertified : Text → Type 0
  IsCertified id =
      (s : UserStory) × Memᴰ s stories × (s.id ≡ id) × (s.status ≡ UserStoryStatus.certified)

  pub dependencies_where-known :
      (wanted : Bool) (deps : List Text)
      → ((d : Text) → Memᴰ d deps → Memᴰ d (identifiers stories))
      → (kept : List Text) × (dependencies_where stories wanted deps ≡ ok kept)
  unfolding dependencies_where
  dependencies_where-known wanted [] known = ([], refl)
  dependencies_where-known wanted (d ∷ rest) known =
      let (s, found) = story_of-known stories d (known d (Memᴰ.head refl)) in
      let (kept, later) = dependencies_where-known wanted rest (λ x m. known x (Memᴰ.tail m)) in
      (
        if is_wanted wanted (s.status == UserStoryStatus.certified) then d ∷ kept else kept,
        rw (dependencies_where, found, later) refl,
      )

  -- Nothing is left unsatisfied exactly if every dependency is certified.
  pub unsatisfied_nil :
      (deps kept : List Text)
      → NoRepeat (identifiers stories)
      → dependencies_where stories false deps ≡ ok kept
      → (is_empty kept ≡ true) ↔ ((d : Text) → Memᴰ d deps → IsCertified d)
  unfolding dependencies_where
  unsatisfied_nil [] kept n h = (λ e d m. absurd (not_member m), λ a. ap is_empty (sym (ok_inj h)))
  unsatisfied_nil (d ∷ rest) kept n h = elim (Option-cases (story_of stories d)) [
    | inl gone ↦ cc (rw (dependencies_where, gone) at h)
    | inr (s, found) ↦
        let (later, same, final) =
          >>=-eq-ok (dependencies_where stories false rest) _
            (rw (dependencies_where, found) at h) in
        let (there, back) = unsatisfied_nil rest later n same in
        let (m, named) = story_of-Memᴰ stories d s found in
        elim (Bool-cases (s.status == UserStoryStatus.certified)) [
          | inl done ↦
              let e : later ≡ kept = ok_inj (rw done at final) in
              (
                λ empty x k. elim k [
                  | Memᴰ.head q ↦
                      subst IsCertified (sym q)
                        (s, m, named, (==_iff s.status UserStoryStatus.certified).0 done)
                  | Memᴰ.tail k ↦ there (ap is_empty e ∙ empty) x k
                ],
                λ all. ap is_empty (sym e) ∙ back (λ x k. all x (Memᴰ.tail k)),
              )
          | inr waiting ↦
              let e : d ∷ later ≡ kept = ok_inj (rw waiting at final) in
              (
                λ empty x k. cc (ap is_empty e, empty),
                λ all.
                    let (t, k, alias, done) = all d (Memᴰ.head refl) in
                    let same = same_story stories t s n k m (alias ∙ sym named) in
                    cc (
                      (==_iff s.status UserStoryStatus.certified).1
                          (ap (λ (u : UserStory). u.status) (sym same) ∙ done),
                      waiting,
                    ),
              )
        ]
  ]
