-- ===== src/Conflict/Regions.antt =====
-- `_overlap_region`, `_fully_excluded`, and the analysis of one pair of canonical scopes.
use Prim.Native.Nat.{ℕ}
use agentic_engineering_os.Prelude.{
  Bool, not, ◌&&◌, ◌||◌, Option, none, some, List, [], ◌∷◌, ◌++◌, if◌then◌else◌, is_empty, any_of,
  contains, ◌==◌, ◌!=◌, list_eq, nat_eq, distinct, sort_by,
}
use agentic_engineering_os.Prelude.Texts.{Text, starts_with, ends_with, text_leb}
use agentic_engineering_os.Domain.{
  ConflictClassification, ConflictReason, ExecutionConflict, conflict_reason_eq,
  conflict_classification_eq, conflict_reason_value,
}
use agentic_engineering_os.Conflict.Paths.{slash}

pub record CanonicalScope : Type 0 where
  pub allowed : List Text
  pub forbidden : List Text
  pub unspecified : Bool
  pub ambiguous : Bool

unfoldable pub overlap_region : Text → Text → Option Text
overlap_region left right =
    let left_directory = ends_with left slash in
    let right_directory = ends_with right slash in
    if not left_directory && not right_directory
    then (if left == right then some left else none)
    else if left_directory && right_directory
    then (if starts_with left right
        then some left
        else if starts_with right left
        then some right
        else none)
    else let directory = if left_directory then left else right in
      let file_path = if left_directory then right else left in
      if starts_with file_path directory then some file_path else none

unfoldable pub fully_excluded : Text → Text → Bool
fully_excluded region forbidden =
    if ends_with forbidden slash
    then starts_with region forbidden
    else not (ends_with region slash) && region == forbidden

-- The regions of the set comprehension of `_analyze_pair`, in the order of its loops.
unfoldable pub keep_region : List Text → Option Text → List Text
keep_region forbidden none = []
keep_region forbidden (some region) =
    if any_of (fully_excluded region) forbidden then [] else region ∷ []

unfoldable pub regions_with : List Text → Text → List Text → List Text
regions_with forbidden left_path [] = []
regions_with forbidden left_path (right_path ∷ rest) =
    keep_region forbidden (overlap_region left_path right_path)
    ++ regions_with forbidden left_path rest

unfoldable pub regions : List Text → List Text → List Text → List Text
regions forbidden [] right = []
regions forbidden (left_path ∷ rest) right =
    regions_with forbidden left_path right ++ regions forbidden rest right

unfoldable pub overlaps : CanonicalScope → CanonicalScope → List Text
overlaps left right =
    sort_by text_leb
      (distinct (regions (left.forbidden ++ right.forbidden) left.allowed right.allowed))

-- `reasons.add(reason)`
unfoldable pub add_reason : ConflictReason → List ConflictReason → List ConflictReason
add_reason reason reasons = if contains reason reasons then reasons else reasons ++ reason ∷ []

unfoldable pub reason_leb : ConflictReason → ConflictReason → Bool
reason_leb a b = text_leb (conflict_reason_value a) (conflict_reason_value b)

-- The `if` chain: the classification with the reason that it adds.
unfoldable pub classify :
    List Text → CanonicalScope → CanonicalScope → ConflictClassification × List ConflictReason
classify found left right =
    if not (is_empty found)
    then (ConflictClassification.conflict, ConflictReason.path_overlap ∷ [])
    else if left.unspecified || right.unspecified
    then (ConflictClassification.unknown, ConflictReason.scope_unspecified ∷ [])
    else if left.ambiguous || right.ambiguous
    then (ConflictClassification.unknown, ConflictReason.scope_ambiguous ∷ [])
    else (ConflictClassification.safe, [])

unfoldable pub analyze_pair : ℕ → Text → Text → CanonicalScope → CanonicalScope → ExecutionConflict
analyze_pair wave_index left_id right_id left right =
    let found = overlaps left right in
    let (classification, reasons) = classify found left right in
    let final =
      if (left.ambiguous || right.ambiguous) && classification != ConflictClassification.safe
      then add_reason ConflictReason.scope_ambiguous reasons
      else reasons in
    record {
      wave_index = wave_index;
      left_user_story_id = left_id;
      right_user_story_id = right_id;
      classification = classification;
      reasons = sort_by reason_leb final;
      overlapping_paths = found;
    }
