-- ===== src/Base/Integers.antt =====
-- The C `int`, away from overflow, over the native numbers.
use Prim.Native.Nat.{ℕ, zero, suc}
use mathlib.Core.Path.{◌≡◌}
use mathlib.Core.Bool.{Bool, true, false}
use dimemas.Base.Tests.{◌==◌, ==_self, ltb}

pub data ℤ : Type 0 where
  pos negsuc : ℕ → ℤ

abbrev pub minus_one : ℤ
minus_one = negsuc 0

-- `a == b`
abbrev pub eqz : ℤ → ℤ → Bool
eqz (pos a) (pos b) = a == b
eqz (negsuc a) (negsuc b) = a == b
eqz (pos a) (negsuc b) = false
eqz (negsuc a) (pos b) = false

-- `a > b`
abbrev pub gtz : ℤ → ℤ → Bool
gtz (pos a) (pos b) = ltb b a
gtz (pos a) (negsuc b) = true
gtz (negsuc a) (pos b) = false
gtz (negsuc a) (negsuc b) = ltb a b

-- `a + 1` and `a - 1`
abbrev pub inc : ℤ → ℤ
inc (pos a) = pos (suc a)
inc (negsuc zero) = pos 0
inc (negsuc (suc a)) = negsuc a

abbrev pub dec : ℤ → ℤ
dec (pos zero) = negsuc 0
dec (pos (suc a)) = pos a
dec (negsuc a) = negsuc (suc a)

pub eqz_self : (a : ℤ) → eqz a a ≡ true
eqz_self (pos a) = ==_self a
eqz_self (negsuc a) = ==_self a
