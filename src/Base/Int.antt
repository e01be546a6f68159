-- ===== src/Base/Int.antt =====
-- Go's signed integers, where a value may be negative. `negsuc n` is -(n + 1).
use Prim.Native.Nat.{ℕ}
use mathlib.Core.Path.{◌≡◌, refl}
use mathlib.Core.Bool.{Bool, true, false}
use native.Mathlib.Omega.{arith}
use auto_mas_runtime.Base.Tests.{ltb}

pub data ℤ : Type 0 where
  pos : ℕ → ℤ
  negsuc : ℕ → ℤ

-- `a < b`.
unfoldable pub int_lt : ℤ → ℤ → Bool
int_lt (pos a) (pos b) = ltb a b
int_lt (pos a) (negsuc b) = false
int_lt (negsuc a) (pos b) = true
int_lt (negsuc a) (negsuc b) = ltb b a

pub int_lt-irreflexive : (a : ℤ) → int_lt a a ≡ false
unfolding int_lt
int_lt-irreflexive (pos a) = ground arith
int_lt-irreflexive (negsuc a) = ground arith

-- Two steps of which one may be an equality.
pub int_le_trans : (a b c : ℤ) → int_lt b a ≡ false → int_lt c b ≡ false → int_lt c a ≡ false
unfolding int_lt
int_le_trans (pos a) (pos b) (pos c) h k = ground arith
int_le_trans (pos a) (pos b) (negsuc c) h k = cc
int_le_trans (pos a) (negsuc b) c h k = cc
int_le_trans (negsuc a) (pos b) (pos c) h k = refl
int_le_trans (negsuc a) (pos b) (negsuc c) h k = cc
int_le_trans (negsuc a) (negsuc b) (pos c) h k = refl
int_le_trans (negsuc a) (negsuc b) (negsuc c) h k = ground arith

pub int_lt-asymmetric : (a b : ℤ) → int_lt a b ≡ true → int_lt b a ≡ false
unfolding int_lt
int_lt-asymmetric (pos a) (pos b) h = ground arith
int_lt-asymmetric (pos a) (negsuc b) h = cc
int_lt-asymmetric (negsuc a) (pos b) h = refl
int_lt-asymmetric (negsuc a) (negsuc b) h = ground arith
