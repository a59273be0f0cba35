-- ===== src/Conflict/Entries.antt =====
-- The scopes and the pairs that `analyze` collects.
use agentic_engineering_os.Prelude.{
  ℕ, ◌≡◌, ◌↔◌, inl, inr, refl, sym, ap, ◌∙◌, subst, Bool-cases, Option-cases, Result-cases, some,
  List, [], ◌∷◌, All, Memᴰ, Memᴰ-append, Memᴰ-append_left, Memᴰ-append_right, not_member, Result,
  ok, err, >>=-eq-ok, ok_inj, ◌==◌, ==_iff, list_eq, nat_eq,
}
use agentic_engineering_os.Prelude.Texts.{Text}
use agentic_engineering_os.Domain.{UserStory, ExecutionWave, wave_plan_eq, ExecutionConflict}
use agentic_engineering_os.Dag.Canonical.{NoRepeat}
use agentic_engineering_os.Readiness.{story_of}
use agentic_engineering_os.Waves.Layers.{wave_ids}
use agentic_engineering_os.Conflict.Paths.{Unicode}
use agentic_engineering_os.Conflict.Regions.{CanonicalScope, analyze_pair}
use agentic_engineering_os.Conflict.Scopes.{canonical_scope}
use agentic_engineering_os.Conflict.Combinations.{IsPairOf, combinations_iff}
use agentic_engineering_os.Conflict.Analyses.{
  scope_or_error, scope_in, pairs_in, pairs_of, scope_of, scopes_of,
}

module _ (unicode : Unicode) (stories : List UserStory) where
  -- The scope of the story with this id.
  abbrev pub ScopeOf : Text → CanonicalScope → Type 0
  ScopeOf id scope =
      (story : UserStory) × (story_of stories id ≡ some story)
      × (canonical_scope unicode story ≡ ok scope)

  scope_or_error-ok :
      (r : Result _ CanonicalScope) (scope : CanonicalScope)
      → scope_or_error r ≡ ok scope
      → r ≡ ok scope
  unfolding scope_or_error
  scope_or_error-ok (ok s) scope h = ap ok (ok_inj h)
  scope_or_error-ok (err e) scope h = cc

  scope_of-ok :
      (id : Text) (scope : CanonicalScope)
      → scope_of unicode stories id ≡ ok scope
      → ScopeOf id scope
  unfolding scope_of
  scope_of-ok id scope h = elim (Option-cases (story_of stories id)) [
    | inl gone ↦ cc (rw (scope_of, gone) at h)
    | inr (story, found) ↦ (
      story,
      found,
      scope_or_error-ok (canonical_scope unicode story) scope (rw (scope_of, found) at h),
    )
  ]

  pub scope_in-ScopeOf :
      (ids : List Text) (scopes : List (Text × CanonicalScope)) (id : Text) (scope : CanonicalScope)
      → scopes_of unicode stories ids ≡ ok scopes
      → scope_in scopes id ≡ ok scope
      → ScopeOf id scope
  unfolding scopes_of scope_in
  scope_in-ScopeOf [] scopes id scope h k =
      cc (subst (λ (s : List (Text × CanonicalScope)). scope_in s id ≡ ok scope) (sym (ok_inj h)) k)
  scope_in-ScopeOf (first ∷ rest) scopes id scope h k =
      let (own, a, h1) = >>=-eq-ok (scope_of unicode stories first) _ h in
      let (later, b, h2) = >>=-eq-ok (scopes_of unicode stories rest) _ h1 in
      let k' : scope_in ((first, own) ∷ later) id ≡ ok scope =
        subst (λ (s : List (Text × CanonicalScope)). scope_in s id ≡ ok scope) (sym (ok_inj h2))
          k in
      elim (Result-cases (scope_in later id)) [
        | inl (e, gone) ↦ elim (Bool-cases (first == id)) [
          | inl same ↦
              let here : own ≡ scope = ok_inj (rw (scope_in, gone, same) at k') in
              subst (λ (t : Text). ScopeOf t scope) ((==_iff first id).0 same)
                (subst (ScopeOf first) here (scope_of-ok first own a))
          | inr other ↦ cc (rw (scope_in, gone, other) at k')
        ]
        | inr (s, found) ↦
            scope_in-ScopeOf rest later id scope b (found ∙ (rw (scope_in, found) at k'))
      ]

  pub scope_in-known :
      (ids : List Text) (scopes : List (Text × CanonicalScope)) (id : Text)
      → scopes_of unicode stories ids ≡ ok scopes
      → Memᴰ id ids
      → (scope : CanonicalScope) × (scope_in scopes id ≡ ok scope)
  unfolding scopes_of scope_in
  scope_in-known [] scopes id h m = absurd (not_member m)
  scope_in-known (first ∷ rest) scopes id h m =
      let (own, a, h1) = >>=-eq-ok (scope_of unicode stories first) _ h in
      let (later, b, h2) = >>=-eq-ok (scopes_of unicode stories rest) _ h1 in
      subst
        (λ (s : List (Text × CanonicalScope)).
          (scope : CanonicalScope) × (scope_in s id ≡ ok scope))
        (ok_inj h2)
        (elim (Result-cases (scope_in later id)) [
          | inl (e, gone) ↦ elim m [
            | Memᴰ.head q ↦ (own, rw (scope_in, gone, (==_iff first id).1 (sym q)) refl)
            | Memᴰ.tail k ↦
                let (scope, found) = scope_in-known rest later id b k in cc (found, gone)
          ]
          | inr (s, found) ↦ (s, rw (scope_in, found) refl)
        ])

  -- The entry of two different stories of a wave, in the order of their ids.
  abbrev pub IsEntry : ExecutionWave → ExecutionConflict → Type 0
  IsEntry wave entry =
      (left right : Text) × IsPairOf (wave_ids wave) left right
      × ((l r : CanonicalScope) × ScopeOf left l
          × ScopeOf right r
          × (entry ≡ analyze_pair wave.wave_index left right l r))

  -- The entry of one pair of ids.
  abbrev EntryOf : ℕ → Text × Text → ExecutionConflict → Type 0
  EntryOf index pair entry =
      (l r : CanonicalScope) × ScopeOf pair.0 l
      × ScopeOf pair.1 r
      × (entry ≡ analyze_pair index pair.0 pair.1 l r)

  pub ScopeOf-unique : (id : Text) (s t : CanonicalScope) → ScopeOf id s → ScopeOf id t → s ≡ t
  ScopeOf-unique id s t (a, found, scope_a) (b, again, scope_b) =
      let same : a ≡ b = cc (found, again) in
      ok_inj (sym scope_a ∙ ap (canonical_scope unicode) same ∙ scope_b)

  module _ (ids : List Text) (scopes : List (Text × CanonicalScope))
      (ready : scopes_of unicode stories ids ≡ ok scopes) where
    pairs_in-EntryOf :
        (index : ℕ) (pairs : List (Text × Text)) (found : List ExecutionConflict)
        (entry : ExecutionConflict)
        → pairs_in scopes index pairs ≡ ok found
        → Memᴰ entry found ↔ ((pair : Text × Text) × Memᴰ pair pairs × EntryOf index pair entry)
    unfolding pairs_in
    pairs_in-EntryOf index [] found entry h =
        subst
          (λ (es : List ExecutionConflict).
            Memᴰ entry es ↔ ((pair : Text × Text) × Memᴰ pair [] × EntryOf index pair entry))
          (ok_inj h) (λ m. absurd (not_member m), λ (pair, m, _). absurd (not_member m))
    pairs_in-EntryOf index ((a, b) ∷ pairs) found entry h =
        let (l, left, h1) = >>=-eq-ok (scope_in scopes a) _ h in
        let (r, right, h2) = >>=-eq-ok (scope_in scopes b) _ h1 in
        let (later, rest, h3) = >>=-eq-ok (pairs_in scopes index pairs) _ h2 in
        let of_l = scope_in-ScopeOf ids scopes a l ready left in
        let of_r = scope_in-ScopeOf ids scopes b r ready right in
        let (there, back) = pairs_in-EntryOf index pairs later entry rest in
        subst
          (λ (es : List ExecutionConflict).
            Memᴰ entry es
            ↔ ((pair : Text × Text) × Memᴰ pair ((a, b) ∷ pairs) × EntryOf index pair entry))
          (ok_inj h3)
          (
            λ m. elim m [
              | Memᴰ.head e ↦ ((a, b), Memᴰ.head refl, (l, r, of_l, of_r, e))
              | Memᴰ.tail k ↦ let (pair, n, of_pair) = there k in (pair, Memᴰ.tail n, of_pair)
            ],
            λ (pair, m, (s, t, of_s, of_t, e)). elim m [
              | Memᴰ.head q ↦
                  Memᴰ.head (e ∙ same_entry index pair (a, b) s t l r q of_s of_t of_l of_r)
              | Memᴰ.tail n ↦ Memᴰ.tail (back (pair, n, (s, t, of_s, of_t, e)))
            ],
          )
      where
        same_entry :
            (index : ℕ) (p q : Text × Text) (s t l r : CanonicalScope)
            → p ≡ q
            → ScopeOf p.0 s
            → ScopeOf p.1 t
            → ScopeOf q.0 l
            → ScopeOf q.1 r
            → analyze_pair index p.0 p.1 s t ≡ analyze_pair index q.0 q.1 l r
        same_entry index p q s t l r e of_s of_t of_l of_r =
            let a =
              ScopeOf-unique q.0 s l (subst (λ (z : Text × Text). ScopeOf z.0 s) e of_s) of_l in
            let b =
              ScopeOf-unique q.1 t r (subst (λ (z : Text × Text). ScopeOf z.1 t) e of_t) of_r in
            λ i. analyze_pair index (e i).0 (e i).1 (a i) (b i)

    pub pairs_of-IsEntry :
        (waves : List ExecutionWave) (found : List ExecutionConflict) (entry : ExecutionConflict)
        → All (λ wave. NoRepeat (wave_ids wave)) waves
        → pairs_of scopes waves ≡ ok found
        → Memᴰ entry found ↔ ((wave : ExecutionWave) × Memᴰ wave waves × IsEntry wave entry)
    unfolding pairs_of
    pairs_of-IsEntry [] found entry distinct h =
        subst
          (λ (es : List ExecutionConflict).
            Memᴰ entry es ↔ ((wave : ExecutionWave) × Memᴰ wave [] × IsEntry wave entry))
          (ok_inj h) (λ m. absurd (not_member m), λ (wave, m, _). absurd (not_member m))
    pairs_of-IsEntry (first ∷ waves) found entry (n, distinct) h =
        let (own, made, h1) = >>=-eq-ok (pairs_in scopes first.wave_index _) _ h in
        let (later, rest, h2) = >>=-eq-ok (pairs_of scopes waves) _ h1 in
        let (to_pair, of_pair) = pairs_in-EntryOf first.wave_index _ own entry made in
        let (there, back) = pairs_of-IsEntry waves later entry distinct rest in
        subst
          (λ (es : List ExecutionConflict).
            Memᴰ entry es
            ↔ ((wave : ExecutionWave) × Memᴰ wave (first ∷ waves) × IsEntry wave entry))
          (ok_inj h2)
          (
            λ m. elim (Memᴰ-append own later m) [
              | inl here ↦
                  let (pair, k, of_entry) = to_pair here in
                  (
                    first,
                    Memᴰ.head refl,
                    (
                      pair.0,
                      pair.1,
                      (combinations_iff (wave_ids first) pair.0 pair.1 n).0 k,
                      of_entry,
                    ),
                  )
              | inr after ↦ let (wave, k, of_wave) = there after in (wave, Memᴰ.tail k, of_wave)
            ],
            λ (wave, m, of_wave). elim m [
              | Memᴰ.head q ↦
                  let (left, right, is_pair, of_entry) =
                    subst (λ (w : ExecutionWave). IsEntry w entry) q of_wave in
                  Memᴰ-append_left later (
                    of_pair (
                      (left, right),
                      (combinations_iff (wave_ids first) left right n).1 is_pair,
                      of_entry,
                    ))
              | Memᴰ.tail k ↦ Memᴰ-append_right own (back (wave, k, of_wave))
            ],
          )
