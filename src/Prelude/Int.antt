-- ===== src/Prelude/Int.antt =====
-- Signed integers over the native numbers, as far as the program compares and prints them.
use Prim.Native.Nat.{ℕ, zero, suc, ◌+◌, ◌-◌, ◌/◌}
use mathlib.Core.Path.{◌≡◌}
use native.Mathlib.Omega.{arith}
use mathlib.Core.Bool.{Bool, true, false}
use a2a_hub.Prelude.Tests.{ltb, leb, nat_eq, if◌then◌else◌}

-- `negsuc n` is -(n + 1).
pub data ℤ : Type 0 where
  pos : ℕ → ℤ
  negsuc : ℕ → ℤ

-- `-n`
abbrev pub neg : ℕ → ℤ
neg zero = pos 0
neg (suc n) = negsuc n

-- `a < b`
abbrev pub lt_int : ℤ → ℤ → Bool
lt_int (pos a) (pos b) = ltb a b
lt_int (pos a) (negsuc b) = false
lt_int (negsuc a) (pos b) = true
lt_int (negsuc a) (negsuc b) = ltb b a

-- `a == b`
abbrev pub int_eq : ℤ → ℤ → Bool
int_eq (pos a) (pos b) = nat_eq a b
int_eq (negsuc a) (negsuc b) = nat_eq a b
int_eq _ _ = false

-- `int((a - b) / unit)` for two instants counted in a unit's parts: truncated towards zero
abbrev pub trunc_diff : ℕ → ℕ → ℕ → ℤ
trunc_diff unit a b = if leb b a then pos ((a - b) / unit) else neg ((b - a) / unit)

-- `a - b` for natural numbers
abbrev pub diff : ℕ → ℕ → ℤ
diff a b = if leb b a then pos (a - b) else neg (b - a)

abbrev pub add_int : ℤ → ℤ → ℤ
add_int (pos a) (pos b) = pos (a + b)
add_int (pos a) (negsuc b) = diff a (suc b)
add_int (negsuc a) (pos b) = diff b (suc a)
add_int (negsuc a) (negsuc b) = negsuc (a + suc b)

abbrev pub negate : ℤ → ℤ
negate (pos n) = neg n
negate (negsuc n) = pos (suc n)

-- `n // k` for a positive `k`
abbrev pub floor_div : ℤ → ℕ → ℤ
floor_div (pos n) k = pos (n / k)
floor_div (negsuc n) k = negsuc (n / k)

-- `(a + b) - b`
pub add_negate : (a b : ℤ) → add_int (add_int a b) (negate b) ≡ a
add_negate (pos a) (pos zero) = ground arith
add_negate (pos a) (pos (suc b)) = ground arith
add_negate (pos a) (negsuc b) = ground arith
add_negate (negsuc a) (pos zero) = ground arith
add_negate (negsuc a) (pos (suc b)) = ground arith
add_negate (negsuc a) (negsuc b) = ground arith
