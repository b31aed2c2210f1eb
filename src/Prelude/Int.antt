-- ===== src/Prelude/Int.antt =====
-- Signed integers: the source's int and int32 where a request may carry a negative number.
use Prim.Native.Nat.{ℕ, zero, suc, ◌+◌, ◌≤◌}
use mathlib.Core.Path.{◌≡◌}
use mathlib.Core.Bool.{Bool, true, false}
use native.Mathlib.Omega.{arith}
use uran_api.Prelude.Tests.{ltb}

-- `negsuc n` is -(n + 1).
pub data ℤ : Type 0 where
  pos : ℕ → ℤ
  negsuc : ℕ → ℤ

abbrev pub pos_part : ℤ → ℕ
pos_part (pos n) = n
pos_part (negsuc n) = 0

abbrev pub neg_part : ℤ → ℕ
neg_part (pos n) = 0
neg_part (negsuc n) = suc n

infix 50 ◌≤ℤ◌
abbrev pub ◌≤ℤ◌ : ℤ → ℤ → Type 0
a ≤ℤ b = pos_part a + neg_part b ≤ pos_part b + neg_part a

-- `a < b`.
abbrev pub lt_int : ℤ → ℤ → Bool
lt_int a b = ltb (pos_part a + neg_part b) (pos_part b + neg_part a)

pub lt_int-le : (a b : ℤ) → lt_int a b ≡ false → b ≤ℤ a
lt_int-le a b h = ground arith

abbrev pub add_one : ℤ → ℤ
add_one (pos n) = pos (suc n)
add_one (negsuc zero) = pos 0
add_one (negsuc (suc n)) = negsuc n

abbrev pub sub_one : ℤ → ℤ
sub_one (pos zero) = negsuc 0
sub_one (pos (suc n)) = pos n
sub_one (negsuc n) = negsuc (suc n)

abbrev pub int_beq : ℤ → ℤ → Bool
int_beq a b = elim (lt_int a b) [
  | true ↦ false
  | false ↦ elim (lt_int b a) [ true ↦ false | false ↦ true ]
]

pub add_one-le : (a b : ℤ) → lt_int a b ≡ true → add_one a ≤ℤ b
add_one-le (pos n) b h = ground arith
add_one-le (negsuc zero) b h = ground arith
add_one-le (negsuc (suc n)) b h = ground arith

pub le-sub_one : (a b : ℤ) → lt_int a b ≡ true → a ≤ℤ sub_one b
le-sub_one a (pos zero) h = ground arith
le-sub_one a (pos (suc n)) h = ground arith
le-sub_one a (negsuc n) h = ground arith
