-- ===== src/Conflict/Pairs.antt =====
-- The classification of a pair of scopes says whether a path is open to both.
use agentic_engineering_os.Prelude.{
  ◌≡◌, ◌≢◌, ◌↔◌, inl, inr, refl, sym, ap, ◌∙◌, Bool-cases, true, false, Option, none, some, List,
  [], ◌∷◌, ◌++◌, arith, any_of, any_of_find, Memᴰ, Memᴰ-append, Memᴰ-append_left, Memᴰ-append_right,
  sort_by-Memᴰ, Memᴰ-sort_by, distinct-Memᴰ, Memᴰ-distinct, list_eq, nat_eq, ℕ, not_member, subst,
  any_of-false, none_of,
}
use agentic_engineering_os.Prelude.Texts.{Text, text_leb}
use agentic_engineering_os.Domain.{ConflictClassification}
use agentic_engineering_os.Conflict.Paths.{covers}
use agentic_engineering_os.Conflict.Coverage.{
  region_sound, region_complete, fully_excluded-covers, covers_excluded, covers_self, InRegion,
}
use agentic_engineering_os.Conflict.Regions.{
  CanonicalScope, overlap_region, fully_excluded, keep_region, regions_with, regions, overlaps,
  classify, analyze_pair,
}

-- Some allowed path of the scope covers the file.
abbrev pub Allows : CanonicalScope → Text → Type 0
Allows scope file_path = (p : Text) × Memᴰ p scope.allowed × (covers p file_path ≡ true)

-- A path that both stories may write, and that neither is forbidden to write.
pub record SharedPath (left right : CanonicalScope) : Type 0 where
  pub file_path : Text
  pub left_allows : Allows left file_path
  pub right_allows : Allows right file_path
  pub not_forbidden :
      (f : Text) → Memᴰ f (left.forbidden ++ right.forbidden) → covers f file_path ≡ false

-- What a kept region comes from.
abbrev FromPair : List Text → Text → Text → Text → Type 0
FromPair forbidden l r region =
    (overlap_region l r ≡ some region) × (any_of (fully_excluded region) forbidden ≡ false)

module _ (forbidden : List Text) where
  keep_region-Memᴰ :
      (o : Option Text) {region : Text}
      → Memᴰ region (keep_region forbidden o)
      → (o ≡ some region) × (any_of (fully_excluded region) forbidden ≡ false)
  unfolding keep_region
  keep_region-Memᴰ none m = elim m [ ]
  keep_region-Memᴰ (some q) m = elim (Bool-cases (any_of (fully_excluded q) forbidden)) [
    | inl out ↦ elim (rw out at m) [ ]
    | inr kept ↦ elim (rw kept at m) [
      | Memᴰ.head e ↦ (ap some (sym e), ap (λ t. any_of (fully_excluded t) forbidden) e ∙ kept)
      | Memᴰ.tail n ↦ elim n [ ]
    ]
  ]

  regions_with-Memᴰ :
      (l : Text) (right : List Text) {region : Text}
      → Memᴰ region (regions_with forbidden l right)
      → (r : Text) × Memᴰ r right × FromPair forbidden l r region
  unfolding regions_with
  regions_with-Memᴰ l [] m = elim m [ ]
  regions_with-Memᴰ l (r ∷ rest) m =
      elim (Memᴰ-append (keep_region forbidden (overlap_region l r)) _ m) [
        | inl here ↦ (r, Memᴰ.head refl, keep_region-Memᴰ (overlap_region l r) here)
        | inr later ↦ let (r', k, from) = regions_with-Memᴰ l rest later in (r', Memᴰ.tail k, from)
      ]

  regions-Memᴰ :
      (left right : List Text) {region : Text}
      → Memᴰ region (regions forbidden left right)
      → (l : Text) × Memᴰ l left × ((r : Text) × Memᴰ r right × FromPair forbidden l r region)
  unfolding regions
  regions-Memᴰ [] right m = elim m [ ]
  regions-Memᴰ (l ∷ rest) right m = elim (Memᴰ-append (regions_with forbidden l right) _ m) [
    | inl here ↦ (l, Memᴰ.head refl, regions_with-Memᴰ l right here)
    | inr later ↦ let (l', k, from) = regions-Memᴰ rest right later in (l', Memᴰ.tail k, from)
  ]

  Memᴰ-regions_with :
      {r region : Text} (l : Text) (right : List Text)
      → Memᴰ r right
      → overlap_region l r ≡ some region
      → any_of (fully_excluded region) forbidden ≡ false
      → Memᴰ region (regions_with forbidden l right)
  unfolding regions_with keep_region
  Memᴰ-regions_with l [] m p q = elim m [ ]
  Memᴰ-regions_with l (r' ∷ rest) (Memᴰ.head e) p q =
      Memᴰ-append_left {xs = keep_region forbidden (overlap_region l r')} _
        (rw (← e) (rw p (rw q (Memᴰ.head refl))))
  Memᴰ-regions_with l (r' ∷ rest) (Memᴰ.tail m) p q =
      Memᴰ-append_right (keep_region forbidden (overlap_region l r'))
        (Memᴰ-regions_with l rest m p q)

  Memᴰ-regions :
      {l r region : Text} (left right : List Text)
      → Memᴰ l left
      → Memᴰ r right
      → overlap_region l r ≡ some region
      → any_of (fully_excluded region) forbidden ≡ false
      → Memᴰ region (regions forbidden left right)
  unfolding regions
  Memᴰ-regions [] right m n p q = elim m [ ]
  Memᴰ-regions (l' ∷ rest) right (Memᴰ.head e) n p q =
      Memᴰ-append_left {xs = regions_with forbidden l' right} _
        (rw (← e) (Memᴰ-regions_with _ right n p q))
  Memᴰ-regions (l' ∷ rest) right (Memᴰ.tail m) n p q =
      Memᴰ-append_right (regions_with forbidden l' right) (Memᴰ-regions rest right m n p q)

module _ (left right : CanonicalScope) where
  abbrev forbidden_paths : List Text
  forbidden_paths = left.forbidden ++ right.forbidden

  overlaps-SharedPath : {region : Text} → Memᴰ region (overlaps left right) → SharedPath left right
  unfolding overlaps
  overlaps-SharedPath {region} m =
      let found = distinct-Memᴰ _ (sort_by-Memᴰ text_leb _ m) in
      let (l, in_left, (r, in_right, (shared, kept))) =
        regions-Memᴰ forbidden_paths left.allowed right.allowed found in
      let (by_left, by_right) =
        region_sound l r region
          (subst (λ o. InRegion o region) (sym shared) (covers_self region)) in
      record {
        file_path = region;
        left_allows = (l, in_left, by_left);
        right_allows = (r, in_right, by_right);
        not_forbidden = λ f n. covers_excluded region f ∙ any_of-false _ forbidden_paths kept n;
      }

  region_of_SharedPath :
      (s : SharedPath left right) (o : Option Text)
      → InRegion o s.file_path
      → (region : Text) × (o ≡ some region) × (covers region s.file_path ≡ true)
  region_of_SharedPath s none h = absurd h
  region_of_SharedPath s (some region) h = (region, refl, h)

  SharedPath-overlaps : SharedPath left right → (region : Text) × Memᴰ region (overlaps left right)
  unfolding overlaps
  SharedPath-overlaps s =
      let (l, in_left, by_left) = s.left_allows in
      let (r, in_right, by_right) = s.right_allows in
      let (region, shared, covered) =
        region_of_SharedPath s (overlap_region l r)
          (region_complete l r s.file_path by_left by_right) in
      (
        region,
        Memᴰ-sort_by text_leb _ (
            Memᴰ-distinct _ (
              Memᴰ-regions forbidden_paths left.allowed right.allowed in_left in_right shared
                (none_of _ forbidden_paths λ f n. out f region covered (s.not_forbidden f n)))),
      )
    where
      out :
          (f region : Text)
          → covers region s.file_path ≡ true
          → covers f s.file_path ≡ false
          → fully_excluded region f ≡ false
      out f region covered free = elim (Bool-cases (fully_excluded region f)) [
        | inl e ↦ cc (fully_excluded-covers region f s.file_path e covered)
        | inr e ↦ e
      ]

  classify-conflict :
      (found : List Text)
      → ((classify found left right).0 ≡ ConflictClassification.conflict) ↔ (found ≢ [])
  unfolding classify
  classify-conflict [] = (λ h _. absurd (ground arith), λ h. absurd (h refl))
  classify-conflict (o ∷ os) = (λ h e. cc, λ h. refl)

  nonempty_iff : (overlaps left right ≢ []) ↔ SharedPath left right
  nonempty_iff = (
    λ h. some_member (overlaps left right) h (λ o m. overlaps-SharedPath m),
    λ s e. let (region, m) = SharedPath-overlaps s in not_member (rw e at m),
  )
    where
      some_member :
          (os : List Text)
          → os ≢ []
          → ((o : Text) → Memᴰ o os → SharedPath left right)
          → SharedPath left right
      some_member [] h f = absurd (h refl)
      some_member (o ∷ os) h f = f o (Memᴰ.head refl)

-- A pair is classified CONFLICT exactly when there is a path that an allowed path of each story
-- covers and that no forbidden path of either story covers.
pub analyze_pair-conflict_iff :
    (wave_index : ℕ) (left_id right_id : Text) (left right : CanonicalScope)
    → ((analyze_pair wave_index left_id right_id left right).classification
        ≡ ConflictClassification.conflict)
      ↔ SharedPath left right
unfolding analyze_pair
analyze_pair-conflict_iff wave_index left_id right_id left right = (
  λ h. (nonempty_iff left right).0 ((classify-conflict left right _).0 h),
  λ s. (classify-conflict left right _).1 ((nonempty_iff left right).1 s),
)

classify-safe :
    (left right : CanonicalScope) (found : List Text)
    → (classify found left right).0 ≡ ConflictClassification.safe
    → (found ≡ [])
      × (left.unspecified ≡ false)
      × (right.unspecified ≡ false)
      × (left.ambiguous ≡ false)
      × (right.ambiguous ≡ false)
unfolding classify
classify-safe left right found h = ground arith

-- A pair that is classified SAFE is clear: both scopes are specified and unambiguous, and every
-- path that an allowed path of each story covers is forbidden to one of them.
pub analyze_pair-safe :
    (wave_index : ℕ) (left_id right_id : Text) (left right : CanonicalScope)
    → (analyze_pair wave_index left_id right_id left right).classification
      ≡ ConflictClassification.safe
    → (left.unspecified ≡ false)
      × (right.unspecified ≡ false)
      × (left.ambiguous ≡ false)
      × (right.ambiguous ≡ false)
      × ((file_path : Text)
          → Allows left file_path
          → Allows right file_path
          → (f : Text) × Memᴰ f (left.forbidden ++ right.forbidden) × (covers f file_path ≡ true))
unfolding analyze_pair
analyze_pair-safe wave_index left_id right_id left right h =
    let (none_found, a, b, c, d) = classify-safe left right _ h in
    (a, b, c, d, λ file_path l r. closed none_found file_path l r)
  where
    closed :
        overlaps left right ≡ []
        → (file_path : Text) → Allows left file_path
        → Allows right file_path
        → (f : Text) × Memᴰ f (left.forbidden ++ right.forbidden) × (covers f file_path ≡ true)
    closed none_found file_path l r =
        let fs = left.forbidden ++ right.forbidden in
        elim (Bool-cases (any_of (λ f. covers f file_path) fs)) [
          | inl found ↦ any_of_find (λ f. covers f file_path) fs found
          | inr free ↦ absurd (
              (nonempty_iff left right).1
                (record {
                  file_path = file_path;
                  left_allows = l;
                  right_allows = r;
                  not_forbidden = λ f n. any_of-false (λ g. covers g file_path) fs free n;
                })
                none_found)
        ]
