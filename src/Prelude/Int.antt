-- ===== src/Prelude/Int.antt =====
-- C's signed integers, unbounded, over the native numbers; `to_int` is the conversion to `int`.
use Prim.Native.Nat.{ℕ, suc, ◌+◌, ◌-◌, ◌%◌, ◌^◌, ◌<◌}
use mathlib.Core.Path.{◌≡◌}
use mathlib.Core.Logic.{◌≢◌}
use mathlib.Core.Bool.{Bool, true, false}
use native.Mathlib.Omega.{arith}
use messages_queue_disastros.Prelude.Tests.{ltb, leb, ◌==◌, if◌then◌else◌}

-- `negsuc n` is -(n + 1).
pub data ℤ : Type 0 where
  pos : ℕ → ℤ
  negsuc : ℕ → ℤ

abbrev pub pos_part : ℤ → ℕ
pos_part (pos n) = n
pos_part (negsuc n) = 0

abbrev pub neg_part : ℤ → ℕ
neg_part (pos n) = 0
neg_part (negsuc n) = suc n

-- a - b, as an integer.
abbrev pub sub_ℕ : ℕ → ℕ → ℤ
sub_ℕ a b = if leb b a then pos (a - b) else negsuc (b - a - 1)

infixl 65 ◌+ℤ◌ ◌-ℤ◌
unfoldable pub ◌+ℤ◌ : ℤ → ℤ → ℤ
a +ℤ b = sub_ℕ (pos_part a + pos_part b) (neg_part a + neg_part b)

unfoldable pub ◌-ℤ◌ : ℤ → ℤ → ℤ
a -ℤ b = sub_ℕ (pos_part a + neg_part b) (neg_part a + pos_part b)

abbrev pub ltb_ℤ : ℤ → ℤ → Bool
ltb_ℤ a b = ltb (pos_part a + neg_part b) (pos_part b + neg_part a)

abbrev pub eqb_ℤ : ℤ → ℤ → Bool
eqb_ℤ (pos a) (pos b) = a == b
eqb_ℤ (negsuc a) (negsuc b) = a == b
eqb_ℤ (pos a) (negsuc b) = false
eqb_ℤ (negsuc a) (pos b) = false

pub +ℤ_one : (n : ℕ) → pos n +ℤ pos 1 ≡ pos (suc n)
unfolding ◌+ℤ◌
+ℤ_one n = ground arith

pub -ℤ_one : (n : ℕ) → pos (suc n) -ℤ pos 1 ≡ pos n
unfolding ◌-ℤ◌
-ℤ_one n = ground arith

-- A `long int` stored in an `int`: the low 32 bits, read as two's complement.
unfoldable pub to_int : ℤ → ℤ
to_int x =
    let r = (pos_part x + (2 ^ 32 - neg_part x % 2 ^ 32)) % 2 ^ 32 in
    if ltb r (2 ^ 31) then pos r else negsuc (2 ^ 32 - 1 - r)

-- A value of type `int` is kept.
pub to_int-pos : (n : ℕ) → n < 2 ^ 31 → to_int (pos n) ≡ pos n
unfolding to_int
to_int-pos n lt = ground arith

pub to_int-negsuc : (n : ℕ) → n < 2 ^ 31 → to_int (negsuc n) ≡ negsuc n
unfolding to_int
to_int-negsuc n lt = ground arith

pub eqb_ℤ_refl : (a : ℤ) → eqb_ℤ a a ≡ true
eqb_ℤ_refl (pos n) = ground arith
eqb_ℤ_refl (negsuc n) = ground arith

pub eqb_ℤ-eq : (a b : ℤ) → eqb_ℤ a b ≡ true → a ≡ b
eqb_ℤ-eq a b e = ground arith

pub eqb_ℤ-eq-false : (a b : ℤ) → a ≢ b → eqb_ℤ a b ≡ false
eqb_ℤ-eq-false a b ne = ground (arith, eqb_ℤ-eq a b)

-- Different indices behind a pointer are different addresses.
pub +ℤ-injective : (p : ℤ) (i j : ℕ) → p +ℤ pos i ≡ p +ℤ pos j → i ≡ j
unfolding ◌+ℤ◌
+ℤ-injective p i j e = ground arith
