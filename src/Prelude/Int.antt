-- ===== src/Prelude/Int.antt =====
-- Python's signed integers, with the comparisons that the program makes.
use Prim.Native.Nat.{ℕ}
use native.Mathlib.Decide.{ℕ_discrete}
use minilake.Prelude.Equality.{Eq}

-- `negsuc n` is -(n + 1).
pub data ℤ : Type 0 where
  pos : ℕ → ℤ
  negsuc : ℕ → ℤ

ℤ_discrete : Discrete ℤ
ℤ_discrete = hlevel ℕ_discrete

instance unfoldable pub int_eq : Eq ℤ
unfolding ℤ_discrete ℕ_discrete
int_eq = record { dec = ℤ_discrete }
