-- ===== src/Identity.antt =====
-- domain/identity.py: attributable Human and reserved Codex identities. The Unicode tables of the
-- standard library are a parameter.
use agentic_engineering_os.Prelude.{
  ℕ, Bool, true, false, not, ◌&&◌, Option, none, some, [], ◌∷◌, select, any_of, is_empty, ◌==◌,
  ◌!=◌, list_eq, nat_eq,
}
use agentic_engineering_os.Prelude.Texts.{Text, text, strip}

pub record UnicodeTables : Type 0 where
  pub nfkc : Text → Text  -- `normalize("NFKC", _)`
  pub casefold : Text → Text
  pub is_format : ℕ → Bool  -- `category(_) == "Cf"`
  pub is_alnum : ℕ → Bool

pub record CanonicalIdentity : Type 0 where
  pub actor : Text
  pub comparison_actor : Text
  pub separator : Bool
  pub role : Text

abbrev pub codex_identity : Text
codex_identity = text "codex"

-- `str.partition("/")`
unfoldable pub partition : Text → Text × Bool × Text
partition [] = ([], false, [])
partition (c ∷ t) = elim (c == 47) [
  | true ↦ ([], true, t)
  | false ↦ let (before, separator, after) = partition t in (c ∷ before, separator, after)
]

module _ (tables : UnicodeTables) where
  unfoldable pub without_format_characters : Text → Text
  without_format_characters value = select (λ c. not (tables.is_format c)) value

  unfoldable pub has_attributable_text : Text → Bool
  has_attributable_text value =
      let visible = strip (without_format_characters value) in
      not (is_empty visible) && any_of tables.is_alnum visible

  unfoldable pub canonical_identity : Option Text → Option CanonicalIdentity
  canonical_identity none = none
  canonical_identity (some identity) =
      let (before, separator, after) = partition (strip (tables.nfkc identity)) in
      let actor = strip before in
      some (record {
        actor = actor;
        comparison_actor = tables.casefold (without_format_characters actor);
        separator = separator;
        role = strip after;
      })

  unfoldable pub is_codex : Option CanonicalIdentity → Bool
  is_codex none = false
  is_codex (some canonical) = canonical.comparison_actor == codex_identity

  abbrev pub is_codex_identity : Option Text → Bool
  is_codex_identity identity = is_codex (canonical_identity identity)

  unfoldable pub is_codex_role : Option CanonicalIdentity → Bool
  is_codex_role none = false
  is_codex_role (some canonical) =
      canonical.comparison_actor == codex_identity
      && canonical.separator
      && has_attributable_text canonical.role

  abbrev pub has_attributable_codex_role : Option Text → Bool
  has_attributable_codex_role identity = is_codex_role (canonical_identity identity)

  unfoldable pub is_human : Option CanonicalIdentity → Bool
  is_human none = false
  is_human (some canonical) =
      canonical.comparison_actor != codex_identity && has_attributable_text canonical.actor

  abbrev pub is_attributable_human_identity : Option Text → Bool
  is_attributable_human_identity identity = is_human (canonical_identity identity)
