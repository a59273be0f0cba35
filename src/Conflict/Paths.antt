-- ===== src/Conflict/Paths.antt =====
-- `_normalize_path` and `_scope_matches` of application/implementer.py.
use agentic_engineering_os.Prelude.{
  Bool, false, not, ◌&&◌, ◌||◌, [], ◌∷◌, ◌++◌, if◌then◌else◌, is_empty, any_of, contains, ◌==◌,
  ◌!=◌, list_eq, drop_last, nat_eq, leb,
}
use agentic_engineering_os.Prelude.Texts.{Text, text, strip, split, starts_with, ends_with}

-- `unicodedata.normalize("NFC", value)` and `str.casefold`: the Unicode tables of the runtime.
pub record Unicode : Type 0 where
  pub nfc : Text → Text
  pub casefold : Text → Text

pub data PathResult : Type 0 where
  canonical : Text → PathResult
  empty_path ambiguous_path directory_refused traversal_segments : PathResult

-- `_DRIVE_PATTERN = re.compile(r"^[A-Za-z]:")`
unfoldable pub has_drive : Text → Bool
has_drive (c ∷ d ∷ rest) = ((leb b'A' c && leb c b'Z') || (leb b'a' c && leb c b'z')) && d == b':'
has_drive _ = false

abbrev pub slash : Text
slash = text "/"

-- `part in {"", ".", ".."}`
unfoldable pub is_traversal : Text → Bool
is_traversal part = contains part ([] ∷ text "." ∷ text ".." ∷ [])

module _ (unicode : Unicode) where
  unfoldable pub normalize_path : Text → Bool → PathResult
  normalize_path path allow_directory =
      if is_empty (strip path)
      then empty_path
      else if path != strip path || contains b'\\' path || starts_with path slash || has_drive path
      then ambiguous_path
      else let directory = ends_with path slash in
        if directory && not allow_directory
        then directory_refused
        else let value = if directory then drop_last path else path in
          if is_empty value || any_of is_traversal (split b'/' value)
          then traversal_segments
          else let folded = unicode.casefold (unicode.nfc value) in
            canonical (if directory then folded ++ slash else folded)

-- The test of `_scope_matches` on a canonical scope path: a directory covers what lies in it.
unfoldable pub covers : Text → Text → Bool
covers scope file_path =
    if ends_with scope slash then starts_with file_path scope else file_path == scope
