-- ===== src/Message/Readers.antt =====
-- message/readers.go: reading fields out of a byte slice. An `int` argument is any integer.
pub mod Fields
pub mod Safety
use ecstoolkit.Base.{
  ℕ, ◌≡◌, ℤ, pos, pos_part, sub_ℕ, ◌+ℤ◌, ◌-ℤ◌, ltb_ℤ, of_word, to_word, half32, half64, Bool, not,
  ◌||◌, ◌++◌, ◌==◌, Result, ok, err, offset_outside, negative, ◌>>=◌, ◌>>◌, fail_if, relabel,
  length,
}
use ecstoolkit.Buffer.{Bytes, slice, be_bytes, be_value, trim_nul, trim_space}
use ecstoolkit.Message.Types.{Libraries}

abbrev pub integer_length : ℕ
integer_length = 4

abbrev pub long_length : ℕ
long_length = 8

abbrev pub uuid_length : ℕ
uuid_length = 16

-- `offset > byteArrayLength-1 || offset+n > byteArrayLength || offset < 0`
unfoldable pub outside : Bytes → ℤ → ℤ → Bool
outside b offset n =
    ltb_ℤ (sub_ℕ (length b) 1) offset
    || (ltb_ℤ (pos (length b)) (offset +ℤ n) || ltb_ℤ offset (pos 0))

-- `offset > byteArrayLength-1 || offset+n-1 > byteArrayLength-1 || offset < 0`
unfoldable pub outside_last : Bytes → ℤ → ℤ → Bool
outside_last b offset n =
    ltb_ℤ (sub_ℕ (length b) 1) offset
    || (ltb_ℤ (sub_ℕ (length b) 1) (offset +ℤ n -ℤ pos 1) || ltb_ℤ offset (pos 0))

unfoldable pub get_string : Bytes → ℤ → ℤ → Result Bytes
unfolding outside_last
get_string b offset string_length = do
  fail_if (outside_last b offset string_length) offset_outside
  s ← slice b offset (offset +ℤ string_length)
  ok (trim_space (trim_nul s))

-- `binary.Read` of an int32 or int64 succeeds on 4 or 8 bytes.
unfoldable pub bytes_to_integer : Bytes → Result ℤ
bytes_to_integer input = do
  fail_if (not (length input == integer_length)) offset_outside
  ok (of_word half32 (be_value input))

unfoldable pub get_integer : Bytes → ℤ → Result ℤ
unfolding outside
get_integer b offset = do
  fail_if (outside b offset (pos integer_length)) offset_outside
  input ← slice b offset (offset +ℤ pos integer_length)
  bytes_to_integer input

unfoldable pub get_u_integer : Bytes → ℤ → Result ℕ
get_u_integer b offset = do
  temp ← get_integer b offset
  fail_if (ltb_ℤ temp (pos 0)) negative
  ok (to_word half32 temp)

unfoldable pub bytes_to_long : Bytes → Result ℤ
bytes_to_long input = do
  fail_if (not (length input == long_length)) offset_outside
  ok (of_word half64 (be_value input))

unfoldable pub get_long : Bytes → ℤ → Result ℤ
unfolding outside
get_long b offset = do
  fail_if (outside b offset (pos long_length)) offset_outside
  input ← slice b offset (offset +ℤ pos long_length)
  bytes_to_long input

unfoldable pub get_u_long : Bytes → ℤ → Result ℕ
get_u_long b offset = do
  temp ← get_long b offset
  fail_if (ltb_ℤ temp (pos 0)) negative
  ok (to_word half64 temp)

-- `binary.Write` of an int64 into a buffer succeeds.
unfoldable pub long_to_bytes : ℤ → Result Bytes
long_to_bytes input =
    let buf = be_bytes 8 (to_word half64 input) in
    do fail_if (not (length buf == long_length)) offset_outside; ok buf

module _ (lib : Libraries) where
  unfoldable pub get_uuid : Bytes → ℤ → Result Bytes
  unfolding outside_last
  get_uuid b offset = do
    fail_if (outside_last b offset (pos uuid_length)) offset_outside
    least_significant_long ← relabel offset_outside (get_long b offset)
    least_significant_bytes ← relabel offset_outside (long_to_bytes least_significant_long)
    most_significant_long ← relabel offset_outside (get_long b (offset +ℤ pos long_length))
    most_significant_bytes ← relabel offset_outside (long_to_bytes most_significant_long)
    lib.uuid_from_bytes (most_significant_bytes ++ least_significant_bytes)

unfoldable pub get_bytes : Bytes → ℤ → ℤ → Result Bytes
unfolding outside_last
get_bytes b offset byte_length = do
  fail_if (outside_last b offset byte_length) offset_outside
  slice b offset (offset +ℤ byte_length)
