-- ===== src/Base/Int.antt =====
-- Go's signed integers as integers over the native numbers, and their two's complement words.
-- A type of w bits is given by `half`, which is 2 ^ (w - 1).
use Prim.Native.Nat.{ℕ, suc, ◌+◌, ◌-◌, ◌%◌, ◌≤◌, ◌<◌, ◌^◌}
use mathlib.Core.Path.{◌≡◌}
use mathlib.Core.Logic.{◌↔◌}
use mathlib.Core.Bool.{Bool, true}
use native.Mathlib.Omega.{arith}
use ecstoolkit.Base.Tests.{ltb, leb, ◌==◌, if◌then◌else◌}

-- `negsuc n` is -(n + 1).
pub data ℤ : Type 0 where
  pos : ℕ → ℤ
  negsuc : ℕ → ℤ

abbrev pub pos_part : ℤ → ℕ
pos_part (pos n) = n
pos_part (negsuc n) = 0

abbrev pub neg_part : ℤ → ℕ
neg_part (pos n) = 0
neg_part (negsuc n) = suc n

-- a - b, as an integer.
abbrev pub sub_ℕ : ℕ → ℕ → ℤ
sub_ℕ a b = if leb b a then pos (a - b) else negsuc (b - a - 1)

infixl 65 ◌+ℤ◌ ◌-ℤ◌
infix 50 ◌≤ℤ◌ ◌<ℤ◌
unfoldable pub ◌+ℤ◌ : ℤ → ℤ → ℤ
a +ℤ b = sub_ℕ (pos_part a + pos_part b) (neg_part a + neg_part b)

unfoldable pub ◌-ℤ◌ : ℤ → ℤ → ℤ
a -ℤ b = sub_ℕ (pos_part a + neg_part b) (neg_part a + pos_part b)

abbrev pub ◌≤ℤ◌ : ℤ → ℤ → Type 0
a ≤ℤ b = pos_part a + neg_part b ≤ pos_part b + neg_part a

abbrev pub ◌<ℤ◌ : ℤ → ℤ → Type 0
a <ℤ b = pos_part a + neg_part b < pos_part b + neg_part a

abbrev pub ltb_ℤ : ℤ → ℤ → Bool
ltb_ℤ a b = ltb (pos_part a + neg_part b) (pos_part b + neg_part a)

abbrev pub eqb_ℤ : ℤ → ℤ → Bool
eqb_ℤ a b = (pos_part a + neg_part b) == (pos_part b + neg_part a)

pub pos_add : (a b : ℕ) → pos a +ℤ pos b ≡ pos (a + b)
unfolding ◌+ℤ◌
pos_add a b = ground arith

pub pos_sub : (a b : ℕ) → b ≤ a → pos a -ℤ pos b ≡ pos (a - b)
unfolding ◌-ℤ◌
pos_sub a b h = ground arith

pub eqb_ℤ_iff : (a b : ℤ) → (eqb_ℤ a b ≡ true) ↔ (a ≡ b)
eqb_ℤ_iff a b = (λ h. ground arith, λ h. ground arith)

-- The word that holds an integer, modulo 2 ^ w.
abbrev pub to_word : ℕ → ℤ → ℕ
to_word half (pos n) = n % (half + half)
to_word half (negsuc n) = half + half - 1 - n % (half + half)

-- The signed integer that a word below 2 ^ w stands for.
abbrev pub of_word : ℕ → ℕ → ℤ
of_word half u = if ltb u half then pos u else negsuc (half + half - 1 - u)

-- Conversion to a signed type, which wraps.
abbrev pub wrap : ℕ → ℤ → ℤ
wrap half z = of_word half (to_word half z)

abbrev pub half32 : ℕ
half32 = 2 ^ 31

abbrev pub half64 : ℕ
half64 = 2 ^ 63

-- The values of a signed type.
abbrev pub IsSigned : ℕ → ℤ → Type 0
IsSigned half z = (pos_part z < half) × (neg_part z ≤ half)

abbrev pub IsInt32 : ℤ → Type 0
IsInt32 = IsSigned half32

abbrev pub IsInt64 : ℤ → Type 0
IsInt64 = IsSigned half64

pub of_word-to_word_32 : (z : ℤ) → IsInt32 z → of_word half32 (to_word half32 z) ≡ z
of_word-to_word_32 (pos n) h = ground arith
of_word-to_word_32 (negsuc n) h = ground arith

pub of_word-to_word_64 : (z : ℤ) → IsInt64 z → of_word half64 (to_word half64 z) ≡ z
of_word-to_word_64 (pos n) h = ground arith
of_word-to_word_64 (negsuc n) h = ground arith

pub to_word-of_word_64 : (u : ℕ) → u < 2 ^ 64 → to_word half64 (of_word half64 u) ≡ u
to_word-of_word_64 u h = ground arith

pub to_word_32_lt : (z : ℤ) → to_word half32 z < 2 ^ 32
to_word_32_lt (pos n) = omega arith
to_word_32_lt (negsuc n) = omega arith

pub to_word_64_lt : (z : ℤ) → to_word half64 z < 2 ^ 64
to_word_64_lt (pos n) = omega arith
to_word_64_lt (negsuc n) = omega arith
