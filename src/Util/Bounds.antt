-- ===== src/Util/Bounds.antt =====
-- When the conversions of util/safe.go are exact, and the values that they let through changed.
use ecstoolkit.Base.{
  ℕ, ◌≤◌, ◌<◌, ◌^◌, ◌≡◌, ◌≢◌, ℤ, pos, negsuc, pos_part, neg_part, ltb_ℤ, IsInt64, ok, err,
  negative_value, overflow, arith, if◌then◌else◌, wrap, half32, half64, to_word,
}
use ecstoolkit.Util.{
  IntType, Holds, defined, uint64, int, int32, int64, uint, uint32, safe_uint32, safe_int32,
  safe_int64, max_uint32, max_int32, max_int64,
}

-- Of an `int`, `SafeUint32` returns the value itself if 0 ≤ value < 2^32, and otherwise the error for
-- its side of the range.
pub safe_uint32_lem :
    (z : ℤ)
    → IsInt64 z
    → safe_uint32 z ≡ (
        if ltb_ℤ z (pos 0)
        then err negative_value
        else if ltb_ℤ (pos max_uint32) z
        then err overflow
        else ok (pos_part z))
unfolding safe_uint32
safe_uint32_lem (pos n) h = ground arith
safe_uint32_lem (negsuc n) h = ground arith

-- Of an `int` that is at least -2^31, `SafeInt32` returns the value itself or refuses it as too large.
pub safe_int32_lem :
    (z : ℤ)
    → IsInt64 z
    → neg_part z ≤ 2 ^ 31
    → safe_int32 z ≡ (if ltb_ℤ (pos max_int32) z then err overflow else ok z)
unfolding safe_int32
safe_int32_lem (pos n) h l = ground arith
safe_int32_lem (negsuc n) h l = ground arith

-- Below -2^31 nothing is refused, and what comes back is another number.
safe_int32_wraps :
    (n : ℕ) → 2 ^ 31 ≤ n → n < 2 ^ 63 → (z : ℤ) × (safe_int32 (negsuc n) ≡ ok z) × (z ≢ negsuc n)
unfolding safe_int32
safe_int32_wraps n lo hi = (wrap half32 (negsuc n), ground arith, ground arith)

signed_exact :
    (z : ℤ)
    → IsInt64 z
    → ok (wrap half64 z) ≡ (if ltb_ℤ (pos max_int64) z then err overflow else ok z)
signed_exact (pos n) h = ground arith
signed_exact (negsuc n) h = ground arith

-- One of the six predeclared types.
abbrev pub IsPredeclared : IntType → Type 0
IsPredeclared (defined t) = ⊥
IsPredeclared _ = Unit {0}

-- Of a value of a predeclared type, `SafeInt64` returns the value itself or refuses it as too large.
pub safe_int64_lem :
    (T : IntType) (z : ℤ)
    → IsPredeclared T
    → Holds T z
    → safe_int64 T z ≡ (if ltb_ℤ (pos max_int64) z then err overflow else ok z)
unfolding safe_int64
safe_int64_lem int z p h = signed_exact z h
safe_int64_lem int32 (pos n) p h = ground arith
safe_int64_lem int32 (negsuc n) p h = ground arith
safe_int64_lem int64 z p h = signed_exact z h
safe_int64_lem uint (pos n) p h = ground arith
safe_int64_lem uint (negsuc n) p h = ground arith
safe_int64_lem uint32 (pos n) p h = ground arith
safe_int64_lem uint32 (negsuc n) p h = ground arith
safe_int64_lem uint64 (pos n) p h = ground arith
safe_int64_lem uint64 (negsuc n) p h = ground arith
safe_int64_lem (defined t) z p h = absurd p

-- A type defined over `uint64` is none of the cases of the type switch, so a value from 2^63 on is not
-- refused: another number comes back.
safe_int64_defined :
    (n : ℕ)
    → 2 ^ 63 ≤ n
    → n < 2 ^ 64
    → (z : ℤ) × (safe_int64 (defined uint64) (pos n) ≡ ok z) × (z ≢ pos n)
unfolding safe_int64
safe_int64_defined n lo hi = (wrap half64 (pos n), ground arith, ground arith)

-- A `uint64` from 2^63 on is negative as an `int`, so `SafeUint32` does not refuse it: another number
-- comes back.
safe_uint32_wraps :
    (n : ℕ) → 2 ^ 63 ≤ n → n < 2 ^ 64 → (u : ℕ) × (safe_uint32 (pos n) ≡ ok u) × (u ≢ n)
unfolding safe_uint32
safe_uint32_wraps n lo hi = (to_word half32 (pos n), ground arith, ground arith)

-- Each conversion is exact or refuses: `SafeUint32` of an `int` refuses what is not from 0 to 2^32 - 1, with
-- the error of its side; `SafeInt32` of an `int` from -2^31 on, and `SafeInt64` of a value of a predeclared
-- type, refuse what is too large; and what is not refused comes back as it was.
pub safe-exact :
    (x y z : ℤ) (T : IntType)
    → IsInt64 x
    → IsInt64 y
    → neg_part y ≤ 2 ^ 31
    → IsPredeclared T
    → Holds T z
    → (safe_uint32 x ≡ (
        if ltb_ℤ x (pos 0)
        then err negative_value
        else if ltb_ℤ (pos max_uint32) x
        then err overflow
        else ok (pos_part x)))
      × (safe_int32 y ≡ (if ltb_ℤ (pos max_int32) y then err overflow else ok y))
      × (safe_int64 T z ≡ (if ltb_ℤ (pos max_int64) z then err overflow else ok z))
safe-exact x y z T h k l p q = (safe_uint32_lem x h, safe_int32_lem y k l, safe_int64_lem T z p q)

-- What each conversion lets through changed: `SafeInt32` an `int` below -2^31, `SafeInt64` a value from 2^63
-- on of a type defined over `uint64`, and `SafeUint32` a `uint64` from 2^63 on.
pub safe-changes :
    (n m : ℕ)
    → 2 ^ 31 ≤ n
    → n < 2 ^ 63
    → 2 ^ 63 ≤ m
    → m < 2 ^ 64
    → ((z : ℤ) × (safe_int32 (negsuc n) ≡ ok z) × (z ≢ negsuc n))
      × ((z : ℤ) × (safe_int64 (defined uint64) (pos m) ≡ ok z) × (z ≢ pos m))
      × ((u : ℕ) × (safe_uint32 (pos m) ≡ ok u) × (u ≢ m))
safe-changes n m a b c d =
    (safe_int32_wraps n a b, safe_int64_defined m c d, safe_uint32_wraps m c d)
