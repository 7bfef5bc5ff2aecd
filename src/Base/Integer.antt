-- ===== src/Base/Integer.antt =====
-- Python's integers, where a negative one can come in.
use Prim.Native.Nat.{ℕ, suc}
use mathlib.Core.Path.{◌≡◌, refl}
use mathlib.Core.Logic.{◌↔◌}
use mathlib.Core.Bool.{Bool, true, false}
use native.Mathlib.Omega.{arith}
use macos_apps_mcp.Base.Logic.{leb}
use macos_apps_mcp.Base.Equality.{Eq, nat_beq, nat_beq_iff}

pub data ℤ : Type 0 where
  pos : ℕ → ℤ
  negsuc : ℕ → ℤ

abbrev pub int_beq : ℤ → ℤ → Bool
int_beq (pos m) (pos n) = nat_beq m n
int_beq (pos m) (negsuc n) = false
int_beq (negsuc m) (pos n) = false
int_beq (negsuc m) (negsuc n) = nat_beq m n

pub int_beq_iff : (a b : ℤ) → (int_beq a b ≡ true) ↔ (a ≡ b)
int_beq_iff (pos m) (pos n) = ground (arith, nat_beq_iff m n)
int_beq_iff (pos m) (negsuc n) = ground arith
int_beq_iff (negsuc m) (pos n) = ground arith
int_beq_iff (negsuc m) (negsuc n) = ground (arith, nat_beq_iff m n)

instance abbrev pub int_eq : Eq ℤ
int_eq = record { beq = int_beq; beq_iff = int_beq_iff }

-- `abs(v)`
abbrev pub size : ℤ → ℕ
size (pos n) = n
size (negsuc n) = suc n

-- `a <= b`
abbrev pub int_le : ℤ → ℤ → Bool
int_le (pos m) (pos n) = leb m n
int_le (pos m) (negsuc n) = false
int_le (negsuc m) (pos n) = true
int_le (negsuc m) (negsuc n) = leb n m

pub int_le_total : (a b : ℤ) → int_le a b ≡ false → int_le b a ≡ true
int_le_total (pos m) (pos n) h = ground arith
int_le_total (pos m) (negsuc n) h = refl
int_le_total (negsuc m) (pos n) h = ground arith
int_le_total (negsuc m) (negsuc n) h = ground arith
