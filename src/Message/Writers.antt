-- ===== src/Message/Writers.antt =====
-- message/writers.go: writing fields into a byte slice. A function returns the slice as it leaves it.
pub mod Fields
use ecstoolkit.Base.{
  ℕ, ◌+◌, ◌-◌, suc, ℤ, pos, pos_part, sub_ℕ, ◌+ℤ◌, ◌-ℤ◌, ltb_ℤ, eqb_ℤ, to_word, half32, half64,
  Bool, not, ◌||◌, ◌==◌, Result, ok, offset_outside, not_enough_space, nil_input, ◌>>=◌, ◌>>◌,
  fail_if, length,
}
use ecstoolkit.Buffer.{Bytes, slice, copy_slice, fill, be_bytes}
use ecstoolkit.Util.{uint64, safe_int32, safe_int64}
use ecstoolkit.Message.Types.{Libraries, is_uuid_nil}
use ecstoolkit.Message.Readers.{
  integer_length, long_length, uuid_length, outside, outside_last, bytes_to_long, long_to_bytes,
}

-- `binary.Write` of an int32 into a buffer succeeds.
unfoldable pub integer_to_bytes : ℤ → Result Bytes
integer_to_bytes input =
    let buf = be_bytes 4 (to_word half32 input) in
    do fail_if (not (length buf == integer_length)) offset_outside; ok buf

unfoldable pub put_integer : Bytes → ℤ → ℤ → Result Bytes
put_integer b offset value = do
  fail_if (outside b offset (pos integer_length)) offset_outside
  bytes ← integer_to_bytes value
  copy_slice b offset (offset +ℤ pos integer_length) bytes

unfoldable pub put_u_integer : Bytes → ℤ → ℕ → Result Bytes
put_u_integer b offset value = do safe ← safe_int32 (pos value); put_integer b offset safe

-- `offsetStart > byteArrayLength-1 || offsetEnd > byteArrayLength-1 || offsetStart > offsetEnd ||
-- offsetStart < 0`
unfoldable pub outside_ends : Bytes → ℤ → ℤ → Bool
outside_ends b start end =
    ltb_ℤ (sub_ℕ (length b) 1) start
    || (ltb_ℤ (sub_ℕ (length b) 1) end || (ltb_ℤ end start || ltb_ℤ start (pos 0)))

unfoldable pub put_string : Bytes → ℤ → ℤ → Bytes → Result Bytes
unfolding outside_ends
put_string b start end input_string = do
  fail_if (outside_ends b start end) offset_outside
  fail_if (ltb_ℤ (end -ℤ start +ℤ pos 1) (pos (length input_string))) not_enough_space
  let wiped = fill (pos_part (end -ℤ start +ℤ pos 1)) (pos_part start) b' ' b
  copy_slice wiped start (end +ℤ pos 1) input_string

unfoldable pub put_bytes : Bytes → ℤ → ℤ → Bytes → Result Bytes
unfolding outside_ends
put_bytes b start end input_bytes = do
  fail_if (outside_ends b start end) offset_outside
  fail_if (not (eqb_ℤ (end -ℤ start +ℤ pos 1) (pos (length input_bytes)))) not_enough_space
  copy_slice b start (end +ℤ pos 1) input_bytes

unfoldable pub put_long : Bytes → ℤ → ℤ → Result Bytes
put_long b offset value = do
  fail_if (outside b offset (pos long_length)) offset_outside
  bytes ← long_to_bytes value
  copy_slice b offset (offset +ℤ pos long_length) bytes

unfoldable pub put_u_long : Bytes → ℤ → ℕ → Result Bytes
put_u_long b offset value = do safe ← safe_int64 uint64 (pos value); put_long b offset safe

module _ (lib : Libraries) where
  unfoldable pub put_uuid : Bytes → ℤ → Bytes → Result Bytes
  put_uuid b offset input = do
    fail_if (is_uuid_nil input) nil_input
    fail_if (outside_last b offset (pos uuid_length)) offset_outside
    uuid_bytes ← lib.uuid_marshal_binary input
    low ← slice uuid_bytes (pos long_length) (pos (long_length + long_length))
    least_significant_long ← bytes_to_long low
    high ← slice uuid_bytes (pos 0) (pos long_length)
    most_significant_long ← bytes_to_long high
    c ← put_long b offset least_significant_long
    put_long c (offset +ℤ pos long_length) most_significant_long
