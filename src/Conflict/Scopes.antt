-- ===== src/Conflict/Scopes.antt =====
-- `_canonical_scope`, and what a SAFE pair says of the scopes that the stories declare.
use agentic_engineering_os.Prelude.{
  ℕ, ◌≡◌, inl, inr, refl, sym, ap, ◌∙◌, subst, true, ◌||◌, List, [], ◌∷◌, ◌++◌, length, any_of,
  is_empty, distinct, distinct-Memᴰ, Memᴰ-distinct, sort_by, sort_by-Memᴰ, Memᴰ-sort_by, Memᴰ,
  Memᴰ-append, Memᴰ-append_left, Memᴰ-append_right, not_member, Result, ok, err, ◌>>=◌, >>=-eq-ok,
  ok_inj, ◌!=◌, nat_eq, list_eq,
}
use agentic_engineering_os.Prelude.Texts.{Text, text_leb}
use agentic_engineering_os.Domain.{UserStory, ConflictClassification}
use agentic_engineering_os.Conflict.Paths.{
  Unicode, PathResult, canonical, empty_path, ambiguous_path, directory_refused, traversal_segments,
  normalize_path, covers,
}
use agentic_engineering_os.Conflict.Regions.{CanonicalScope, fully_excluded, analyze_pair}
use agentic_engineering_os.Conflict.Pairs.{analyze_pair-safe}

-- The INVALID_SCOPE error, with the User Story that it names.
pub record InvalidScope : Type 0 where
  pub subject : Text

-- `sorted(set(paths))`
unfoldable pub unique_sorted : List Text → List Text
unique_sorted paths = sort_by text_leb (distinct paths)

unfoldable pub kept_path : Text → PathResult → Result InvalidScope Text
kept_path subject (canonical path) = ok path
kept_path subject empty_path = err (record { subject = subject })
kept_path subject ambiguous_path = err (record { subject = subject })
kept_path subject directory_refused = err (record { subject = subject })
kept_path subject traversal_segments = err (record { subject = subject })

module _ (unicode : Unicode) where
  unfoldable pub canonical_paths : Text → List Text → Result InvalidScope (List Text)
  canonical_paths subject [] = ok []
  canonical_paths subject (path ∷ rest) = do
    first ← kept_path subject (normalize_path unicode path true)
    later ← canonical_paths subject rest
    ok (first ∷ later)

  unfoldable pub canonical_scope : UserStory → Result InvalidScope CanonicalScope
  canonical_scope story = do
    allowed ← canonical_paths story.id story.scope.allowed_paths
    forbidden ← canonical_paths story.id story.scope.forbidden_paths
    let allowed_unique = unique_sorted allowed
    let forbidden_unique = unique_sorted forbidden
    let duplicated =
        length allowed_unique != length allowed || length forbidden_unique != length forbidden
    let fully_forbidden =
        any_of (λ path. any_of (fully_excluded path) forbidden_unique) allowed_unique
    ok (record {
      allowed = allowed_unique;
      forbidden = forbidden_unique;
      unspecified = is_empty allowed_unique;
      ambiguous = duplicated || fully_forbidden;
    })

  -- The declared path, once normalised, covers the file.
  pub record Names (path file_path : Text) : Type 0 where
    pub normal : Text
    pub normalized : normalize_path unicode path true ≡ canonical normal
    pub covering : covers normal file_path ≡ true

  -- Some declared path of the list covers the file.
  abbrev pub Declares : List Text → Text → Type 0
  Declares paths file_path = (path : Text) × Memᴰ path paths × Names path file_path

  kept_path-ok :
      (subject : Text) (r : PathResult) (path : Text)
      → kept_path subject r ≡ ok path
      → r ≡ canonical path
  unfolding kept_path
  kept_path-ok subject (canonical p) path h = ap canonical (ok_inj h)
  kept_path-ok subject empty_path path h = cc
  kept_path-ok subject ambiguous_path path h = cc
  kept_path-ok subject directory_refused path h = cc
  kept_path-ok subject traversal_segments path h = cc

  -- A canonical path comes from a declared one, and a declared one has its canonical path.
  canonical_paths-Memᴰ :
      (subject : Text) (paths results : List Text) {path : Text}
      → canonical_paths subject paths ≡ ok results
      → Memᴰ path results
      → (declared : Text) × Memᴰ declared paths
        × (normalize_path unicode declared true ≡ canonical path)
  unfolding canonical_paths
  canonical_paths-Memᴰ subject [] results h m =
      absurd (not_member (subst (Memᴰ _) (sym (ok_inj h)) m))
  canonical_paths-Memᴰ subject (p ∷ rest) results {path} h m =
      let (first, a, h1) = >>=-eq-ok (kept_path subject (normalize_path unicode p true)) _ h in
      let (later, b, h2) = >>=-eq-ok (canonical_paths subject rest) _ h1 in
      elim (subst (Memᴰ path) (sym (ok_inj h2)) m) [
        | Memᴰ.head e ↦ (p, Memᴰ.head refl, kept_path-ok subject _ first a ∙ ap canonical (sym e))
        | Memᴰ.tail k ↦
            let (d, n, same) = canonical_paths-Memᴰ subject rest later b k in (d, Memᴰ.tail n, same)
      ]

  Memᴰ-canonical_paths :
      (subject : Text) (paths results : List Text) {declared path : Text}
      → canonical_paths subject paths ≡ ok results
      → Memᴰ declared paths
      → normalize_path unicode declared true ≡ canonical path
      → Memᴰ path results
  unfolding canonical_paths
  Memᴰ-canonical_paths subject [] results h m same = absurd (not_member m)
  Memᴰ-canonical_paths subject (p ∷ rest) results {declared} {path} h m same =
      let (first, a, h1) = >>=-eq-ok (kept_path subject (normalize_path unicode p true)) _ h in
      let (later, b, h2) = >>=-eq-ok (canonical_paths subject rest) _ h1 in
      subst (Memᴰ path) (ok_inj h2) (elim m [
        | Memᴰ.head e ↦
            let first_same : path ≡ first =
              cc
                (same, kept_path-ok subject _ first a, ap (λ q. normalize_path unicode q true) e) in
            Memᴰ.head first_same
        | Memᴰ.tail k ↦ Memᴰ.tail (Memᴰ-canonical_paths subject rest later b k same)
      ])

  record IsScopeOf (story : UserStory) (scope : CanonicalScope) : Type 0 where
    allows :
        (file_path : Text)
        → Declares story.scope.allowed_paths file_path
        → (p : Text) × Memᴰ p scope.allowed × (covers p file_path ≡ true)
    forbids :
        (f : Text)
        → Memᴰ f scope.forbidden
        → (declared : Text) × Memᴰ declared story.scope.forbidden_paths
          × (normalize_path unicode declared true ≡ canonical f)

  canonical_scope-IsScopeOf :
      (story : UserStory) (scope : CanonicalScope)
      → canonical_scope story ≡ ok scope
      → IsScopeOf story scope
  unfolding canonical_scope unique_sorted
  canonical_scope-IsScopeOf story scope h =
      let (allowed, a, h1) = >>=-eq-ok (canonical_paths story.id story.scope.allowed_paths) _ h in
      let (forbidden, b, h2) =
        >>=-eq-ok (canonical_paths story.id story.scope.forbidden_paths) _ h1 in
      subst (IsScopeOf story) (ok_inj h2) (record {
        allows = λ file_path (path, m, named). (
          named.normal,
          Memᴰ-sort_by text_leb _ (
              Memᴰ-distinct allowed (Memᴰ-canonical_paths story.id _ allowed a m named.normalized)),
          named.covering,
        );
        forbids = λ f m.
            canonical_paths-Memᴰ story.id _ forbidden b
              (distinct-Memᴰ forbidden (sort_by-Memᴰ text_leb _ m));
      })

-- If two stories have canonical scopes and their pair is classified SAFE, every file that a declared
-- allowed path of each one covers is covered by a declared forbidden path of one of them.
pub story_pair_safe :
    (unicode : Unicode) (wave_index : ℕ) (a b : UserStory) (left right : CanonicalScope)
    → canonical_scope unicode a ≡ ok left
    → canonical_scope unicode b ≡ ok right
    → (analyze_pair wave_index a.id b.id left right).classification ≡ ConflictClassification.safe
    → (file_path : Text) → Declares unicode a.scope.allowed_paths file_path
    → Declares unicode b.scope.allowed_paths file_path
    → Declares unicode (a.scope.forbidden_paths ++ b.scope.forbidden_paths) file_path
story_pair_safe unicode wave_index a b left right in_a in_b safe file_path by_a by_b =
    let p = canonical_scope-IsScopeOf unicode a left in_a in
    let q = canonical_scope-IsScopeOf unicode b right in_b in
    let (_, _, _, _, closed) = analyze_pair-safe wave_index a.id b.id left right safe in
    let (f, m, covering) = closed file_path (p.allows file_path by_a) (q.allows file_path by_b) in
    elim (Memᴰ-append left.forbidden right.forbidden m) [
      | inl k ↦
          let (d, n, same) = p.forbids f k in
          (d, Memᴰ-append_left _ n, record { normal = f; normalized = same; covering = covering })
      | inr k ↦
          let (d, n, same) = q.forbids f k in
          (
            d,
            Memᴰ-append_right a.scope.forbidden_paths n,
            record { normal = f; normalized = same; covering = covering },
          )
    ]
