-- ===== src/Conflict/Samples.antt =====
-- Scopes of two stories, and each theorem at a concrete input.
use agentic_engineering_os.Prelude.{
  ◌≡◌, ◌↔◌, refl, true, false, List, [], ◌∷◌, ◌++◌, Memᴰ, ℕ_discrete, List-discrete, distinct,
  sort_by, drop_last, ok, distinct_from, insert_by,
}
use agentic_engineering_os.Prelude.Texts.{
  Text, text, starts_with, ends_with, text_leb, strip, lstrip, is_space, split, split_from,
}
use agentic_engineering_os.Domain.{
  ConflictClassification, ConflictClassification-discrete, ConflictReason-discrete,
  conflict_reason_value, UserStory, UserStoryStatus,
}
use agentic_engineering_os.Conflict.Paths.{covers, Unicode, normalize_path, has_drive, is_traversal}
use agentic_engineering_os.Conflict.Regions.{
  CanonicalScope, overlap_region, fully_excluded, keep_region, regions_with, regions, overlaps,
  add_reason, reason_leb, classify, analyze_pair,
}
use agentic_engineering_os.Domain.Samples.{story_with}
use agentic_engineering_os.Conflict.Scopes.{
  unique_sorted, kept_path, canonical_paths, canonical_scope, Declares, story_pair_safe,
}
use agentic_engineering_os.Conflict.Pairs.{
  Allows, SharedPath, analyze_pair-conflict_iff, analyze_pair-safe,
}

unfoldable pub program : Unit {0}
unfolding overlap_region fully_excluded keep_region regions_with regions overlaps add_reason
    reason_leb classify analyze_pair covers starts_with ends_with text_leb distinct sort_by
    ℕ_discrete List-discrete ConflictClassification-discrete ConflictReason-discrete
    conflict_reason_value unique_sorted kept_path canonical_paths canonical_scope normalize_path
    has_drive is_traversal drop_last strip lstrip is_space split split_from distinct_from insert_by
program = tt

abbrev scope : List Text → List Text → CanonicalScope
scope allowed forbidden = record {
  allowed = allowed;
  forbidden = forbidden;
  unspecified = false;
  ambiguous = false;
}

abbrev sources : CanonicalScope
sources = scope (text "src/" ∷ []) []

abbrev service : CanonicalScope
service = scope (text "src/service.py" ∷ []) []

abbrev other_sources : CanonicalScope
other_sources = scope (text "src/" ∷ []) (text "src/service.py" ∷ [])

clash :
    (analyze_pair 0 (text "US-0001") (text "US-0002") sources service).overlapping_paths
    ≡ text "src/service.py" ∷ []
unfolding program
clash = refl

analyze_pair-conflict_iff_example :
    ((analyze_pair 0 (text "US-0001") (text "US-0002") sources service).classification
      ≡ ConflictClassification.conflict)
    ↔ SharedPath sources service
analyze_pair-conflict_iff_example =
    analyze_pair-conflict_iff 0 (text "US-0001") (text "US-0002") sources service

analyze_pair-safe_example :
    (other_sources.unspecified ≡ false)
    × (service.unspecified ≡ false)
    × (other_sources.ambiguous ≡ false)
    × (service.ambiguous ≡ false)
    × ((file_path : Text)
        → Allows other_sources file_path
        → Allows service file_path
        → (f : Text) × Memᴰ f (other_sources.forbidden ++ service.forbidden)
          × (covers f file_path ≡ true))
unfolding program
analyze_pair-safe_example =
    analyze_pair-safe 0 (text "US-0001") (text "US-0002") other_sources service refl

-- Tables for texts of lower-case ASCII.
abbrev pub ascii : Unicode
ascii = record { nfc = λ t. t; casefold = λ t. t }

abbrev service_file : Text
service_file = text "src/service.py"

abbrev sources_story : UserStory
sources_story =
    story_with (text "US-0001") UserStoryStatus.planned []
      (record { allowed_paths = text "src/" ∷ []; forbidden_paths = service_file ∷ [] })

abbrev service_story : UserStory
service_story =
    story_with (text "US-0002") UserStoryStatus.planned []
      (record { allowed_paths = service_file ∷ []; forbidden_paths = [] })

canonical_scope-service :
    canonical_scope ascii service_story ≡ ok (record service { unspecified = false })
unfolding program
canonical_scope-service = refl

abbrev shadowed : CanonicalScope
shadowed = record other_sources { ambiguous = false }

canonical_scope-sources : canonical_scope ascii sources_story ≡ ok shadowed
unfolding program
canonical_scope-sources = refl

sources_named : Declares ascii (text "src/" ∷ []) service_file
unfolding program
sources_named = (
  text "src/",
  Memᴰ.head refl,
  record { normal = text "src/"; normalized = refl; covering = refl },
)

service_named : Declares ascii (service_file ∷ []) service_file
unfolding program
service_named = (
  service_file,
  Memᴰ.head refl,
  record { normal = service_file; normalized = refl; covering = refl },
)

story_pair_safe_example : Declares ascii (service_file ∷ []) service_file
unfolding program
story_pair_safe_example =
    story_pair_safe ascii 0 sources_story service_story shadowed service canonical_scope-sources
      canonical_scope-service refl service_file sources_named service_named
