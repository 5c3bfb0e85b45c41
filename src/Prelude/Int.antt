-- ===== src/Prelude/Int.antt =====
-- Signed integers over the native numbers, under the library's names.
use auction_platform_backend.Prelude.Tests.{ltb, leb, if◌then◌else◌}
use Prim.Native.Nat.{ℕ, suc, ◌+◌, ◌-◌, ◌≤◌}
use mathlib.Core.Path.{◌≡◌}
use mathlib.Core.Bool.{Bool, false}
use native.Mathlib.Omega.{arith}

-- `negsuc n` is -(n + 1).
pub data ℤ : Type 0 where
  pos : ℕ → ℤ
  negsuc : ℕ → ℤ

abbrev pub pos_part : ℤ → ℕ
pos_part (pos n) = n
pos_part (negsuc n) = 0

abbrev pub neg_part : ℤ → ℕ
neg_part (pos n) = 0
neg_part (negsuc n) = suc n

-- a - b, as an integer.
abbrev pub sub_ℕ : ℕ → ℕ → ℤ
sub_ℕ a b = if leb b a then pos (a - b) else negsuc (b - a - 1)

infixl 65 ◌+ℤ◌ ◌-ℤ◌
infix 50 ◌≤ℤ◌
unfoldable pub ◌+ℤ◌ : ℤ → ℤ → ℤ
a +ℤ b = sub_ℕ (pos_part a + pos_part b) (neg_part a + neg_part b)

unfoldable pub ◌-ℤ◌ : ℤ → ℤ → ℤ
a -ℤ b = sub_ℕ (pos_part a + neg_part b) (neg_part a + pos_part b)

abbrev pub ◌≤ℤ◌ : ℤ → ℤ → Type 0
a ≤ℤ b = pos_part a + neg_part b ≤ pos_part b + neg_part a

abbrev pub ltb_ℤ : ℤ → ℤ → Bool
ltb_ℤ a b = ltb (pos_part a + neg_part b) (pos_part b + neg_part a)

abbrev pub leb_ℤ : ℤ → ℤ → Bool
leb_ℤ a b = leb (pos_part a + neg_part b) (pos_part b + neg_part a)

pub +ℤ_parts :
    (a b : ℤ)
    → pos_part (a +ℤ b) + neg_part a + neg_part b ≡ neg_part (a +ℤ b) + pos_part a + pos_part b
unfolding ◌+ℤ◌
+ℤ_parts a b = ground arith

pub -ℤ_parts :
    (a b : ℤ)
    → pos_part (a -ℤ b) + neg_part a + pos_part b ≡ neg_part (a -ℤ b) + pos_part a + neg_part b
unfolding ◌-ℤ◌
-ℤ_parts a b = ground arith

pub eq_of_parts : (a b : ℤ) → pos_part a + neg_part b ≡ pos_part b + neg_part a → a ≡ b
eq_of_parts a b h = ground arith

-- The laws with which the operations stay shut.
pub ruleset int_laws = (arith, +ℤ_parts, -ℤ_parts, eq_of_parts)

pub sub_add : (a n : ℤ) → (a -ℤ n) +ℤ n ≡ a
sub_add a n = eq_of_parts _ _ (omega (arith, +ℤ_parts (a -ℤ n) n, -ℤ_parts a n))

pub add_sub : (a n : ℤ) → (a +ℤ n) -ℤ n ≡ a
add_sub a n = eq_of_parts _ _ (omega (arith, -ℤ_parts (a +ℤ n) n, +ℤ_parts a n))

-- What is taken from one side is put on the other.
pub move_right : (a b n : ℤ) → (a -ℤ n) +ℤ (b +ℤ n) ≡ a +ℤ b
move_right a b n =
    eq_of_parts _ _
      (omega (arith, +ℤ_parts (a -ℤ n) (b +ℤ n), -ℤ_parts a n, +ℤ_parts b n, +ℤ_parts a b))

pub move_left : (a b n : ℤ) → (a +ℤ n) +ℤ (b -ℤ n) ≡ a +ℤ b
move_left a b n =
    eq_of_parts _ _
      (omega (arith, +ℤ_parts (a +ℤ n) (b -ℤ n), +ℤ_parts a n, -ℤ_parts b n, +ℤ_parts a b))

-- What is left after no more than there is.
pub sub_ge : (a n : ℤ) → ltb_ℤ a n ≡ false → pos 0 ≤ℤ (a -ℤ n)
unfolding ◌-ℤ◌
sub_ge a n h = ground arith

pub add_ge : (a n : ℤ) → pos 0 ≤ℤ a → pos 0 ≤ℤ n → pos 0 ≤ℤ (a +ℤ n)
unfolding ◌+ℤ◌
add_ge a n h k = ground arith
