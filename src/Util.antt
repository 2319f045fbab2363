-- ===== src/Util.antt =====
-- util/safe.go: conversions between integer types that are meant to refuse what does not fit.
-- A Go integer is the integer that it stands for; `int` has 64 bits. `T` is the type of the argument.
pub mod Bounds
use ecstoolkit.Base.{
  ℕ, ◌-◌, ◌^◌, ◌<◌, ◌≡◌, Bool, true, false, ◌&&◌, ℤ, pos, pos_part, ltb_ℤ, to_word, wrap, half32,
  half64, IsInt32, IsInt64, neg_part, Result, ok, err, negative_value, overflow, if◌then◌else◌,
}

-- The type set `~int | ~int32 | ~int64 | ~uint | ~uint32 | ~uint64`: six predeclared types, and the
-- types that a program defines over one of them.
pub data IntType : Type 0 where
  int int32 int64 uint uint32 uint64 : IntType
  defined : IntType → IntType

-- The integers that a type holds.
abbrev pub Holds : IntType → ℤ → Type 0
Holds int z = IsInt64 z
Holds int32 z = IsInt32 z
Holds int64 z = IsInt64 z
Holds uint z = (pos_part z < 2 ^ 64) × (neg_part z ≡ 0)
Holds uint32 z = (pos_part z < 2 ^ 32) × (neg_part z ≡ 0)
Holds uint64 z = (pos_part z < 2 ^ 64) × (neg_part z ≡ 0)
Holds (defined t) z = Holds t z

abbrev pub max_uint32 : ℕ
max_uint32 = 2 ^ 32 - 1

abbrev pub max_int32 : ℕ
max_int32 = 2 ^ 31 - 1

abbrev pub max_int64 : ℕ
max_int64 = 2 ^ 63 - 1

-- `int(value)` and `uint32(value)` are conversions: they wrap.
unfoldable pub safe_uint32 : ℤ → Result ℕ
safe_uint32 value =
    if ltb_ℤ value (pos 0)
    then err negative_value
    else if ltb_ℤ (pos max_uint32) (wrap half64 value)
    then err overflow
    else ok (to_word half32 value)

unfoldable pub safe_int32 : ℤ → Result ℤ
safe_int32 value =
    if ltb_ℤ (pos max_int32) (wrap half64 value) then err overflow else ok (wrap half32 value)

-- The cases of `switch any(value).(type)`: a defined type is none of the six that it names.
pub is_unsigned_case : IntType → Bool
is_unsigned_case uint = true
is_unsigned_case uint32 = true
is_unsigned_case uint64 = true
is_unsigned_case _ = false

unfoldable pub safe_int64 : IntType → ℤ → Result ℤ
unfolding is_unsigned_case
safe_int64 T value =
    if is_unsigned_case T && ltb_ℤ (pos max_int64) (pos (to_word half64 value))
    then err overflow
    else ok (wrap half64 value)
