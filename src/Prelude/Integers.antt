-- ===== src/Prelude/Integers.antt =====
-- `int` where the source counts down.
use Prim.Native.Nat.{ℕ, zero, suc}
use agentic_engineering_os.Prelude.Equality.{Eq}
use native.Mathlib.Decide.{ℕ_discrete}

-- `negsuc n` is -(n + 1).
pub data ℤ : Type 0 where
  pos negsuc : ℕ → ℤ

unfoldable pub ℤ-discrete : Discrete ℤ
ℤ-discrete = hlevel ℕ_discrete

instance abbrev pub int_eq : Eq ℤ
int_eq = record { eq_dec = ℤ-discrete }

-- `value - 1`
abbrev pub decrement : ℤ → ℤ
decrement (pos zero) = negsuc 0
decrement (pos (suc n)) = pos n
decrement (negsuc n) = negsuc (suc n)
