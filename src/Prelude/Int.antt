-- ===== src/Prelude/Int.antt =====
-- Python's integers over the native numbers; `negsuc n` is -(n + 1).
use Prim.Native.Nat.{ℕ}
use mathlib.Core.Bool.{Bool, true, false}
use shimpz_drivers.Prelude.Tests.{leb}

pub data ℤ : Type 0 where
  pos : ℕ → ℤ
  negsuc : ℕ → ℤ

-- `low <= z <= high` for bounds that are not negative
abbrev pub is_between : ℕ → ℕ → ℤ → Bool
is_between low high (pos n) = elim (leb low n) [ true ↦ leb n high | false ↦ false ]
is_between low high (negsuc n) = false

-- The value of an integer that is not negative.
abbrev pub to_ℕ : ℤ → ℕ
to_ℕ (pos n) = n
to_ℕ (negsuc n) = 0
