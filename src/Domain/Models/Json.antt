-- ===== src/Domain/Models/Json.antt =====
-- `JsonValue`, and the `datetime` of the standard library.
use Prim.Native.Nat.{ℕ}
use agentic_engineering_os.Prelude.{Bool, Option}
use agentic_engineering_os.Prelude.Texts.{Text}

-- A float is kept as the text that Python prints for it.
mutual
  pub data JsonValue : Type 0 where
    null : JsonValue
    boolean : Bool → JsonValue
    integer : (negative : Bool) (magnitude : ℕ) → JsonValue
    float : (printed : Text) → JsonValue
    string : Text → JsonValue
    array : JsonItems → JsonValue
    object : JsonFields → JsonValue

  pub data JsonItems : Type 0 where
    nil : JsonItems
    cons : JsonValue → JsonItems → JsonItems

  pub data JsonFields : Type 0 where
    end : JsonFields
    field : (key : Text) → JsonValue → JsonFields → JsonFields

-- The distance of a zone from UTC, in microseconds.
pub record UtcOffset : Type 0 where
  pub west : Bool
  pub distance : ℕ

pub record DateTime : Type 0 where
  pub instant : ℕ  -- microseconds; on the UTC clock if `tzinfo` is given, on the local one if not
  pub tzinfo : Option UtcOffset
