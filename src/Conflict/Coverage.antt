-- ===== src/Conflict/Coverage.antt =====
-- The region that two scope paths share is exactly what both cover.
use agentic_engineering_os.Prelude.{
  ◌≡◌, inl, inr, Bool-cases, true, Option, none, some, arith, list_eq, nat_eq,
}
use agentic_engineering_os.Prelude.Texts.{
  Text, ends_with, starts_with_trans, starts_with_comparable, starts_with_self,
}
use agentic_engineering_os.Conflict.Paths.{slash, covers}
use agentic_engineering_os.Conflict.Regions.{overlap_region, fully_excluded}

abbrev pub Covers : Text → Text → Type 0
Covers scope file_path = covers scope file_path ≡ true

-- A path lies in the shared region, if there is one.
abbrev pub InRegion : Option Text → Text → Type 0
InRegion none file_path = ⊥
InRegion (some region) file_path = covers region file_path ≡ true

pub region_sound :
    (left right file_path : Text)
    → InRegion (overlap_region left right) file_path
    → Covers left file_path × Covers right file_path
unfolding overlap_region covers
region_sound left right file_path h = elim (Bool-cases (ends_with left slash)) [
  | inl d ↦ elim (Bool-cases (ends_with right slash)) [
    | inl e ↦
        ground
          (arith, starts_with_trans file_path left right, starts_with_trans file_path right left)
    | inr e ↦ ground arith
  ]
  | inr d ↦ ground arith
]

pub region_complete :
    (left right file_path : Text)
    → Covers left file_path
    → Covers right file_path
    → InRegion (overlap_region left right) file_path
unfolding overlap_region covers
region_complete left right file_path h k =
    ground (arith, starts_with_comparable file_path left right)

pub fully_excluded-covers :
    (region forbidden file_path : Text)
    → fully_excluded region forbidden ≡ true
    → covers region file_path ≡ true
    → covers forbidden file_path ≡ true
unfolding fully_excluded covers
fully_excluded-covers region forbidden file_path h k =
    ground (arith, starts_with_trans file_path region forbidden)

-- A region is fully excluded exactly by the paths that cover it as a path.
pub covers_excluded :
    (region forbidden : Text) → covers forbidden region ≡ fully_excluded region forbidden
unfolding fully_excluded covers
covers_excluded region forbidden = ground arith

pub covers_self : (region : Text) → covers region region ≡ true
unfolding covers
covers_self region = ground (arith, starts_with_self region)
