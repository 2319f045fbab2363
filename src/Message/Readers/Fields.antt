-- ===== src/Message/Readers/Fields.antt =====
-- What each reader of message/readers.go returns of a field that stands in the slice.
use ecstoolkit.Base.{
  ℕ, ◌+◌, ◌≤◌, ◌<◌, ◌^◌, ◌≡◌, ◌++◌, ℤ, pos, of_word, to_word, half32, half64, ok, arith, length,
  All, false, to_word-of_word_64, length-append, pos_add, ◌+ℤ◌, ◌-ℤ◌,
}
use ecstoolkit.Buffer.{Bytes, IsByte, be_value, be_bytes, trim_nul, trim_space}
use ecstoolkit.Buffer.Fields.{At, At-le, At-left, At-right, slice-At}
use ecstoolkit.Buffer.BigEndian.{be_value-lt, be_bytes-be_value, length-be_bytes}
use ecstoolkit.Message.Types.{Libraries, Documented, IsUuid}
use ecstoolkit.Message.Readers.{
  outside, outside_last, get_string, get_integer, get_u_integer, get_long, get_u_long, get_uuid,
  get_bytes, bytes_to_integer, bytes_to_long, long_to_bytes,
}

pub outside_in :
    (b : Bytes) (off n : ℕ) → off + n ≤ length b → 0 < n → outside b (pos off) (pos n) ≡ false
unfolding outside ◌+ℤ◌
outside_in b off n h p = ground arith

pub outside_last_in :
    (b : Bytes) (off n : ℕ) → off + n ≤ length b → 0 < n → outside_last b (pos off) (pos n) ≡ false
unfolding outside_last ◌+ℤ◌ ◌-ℤ◌
outside_last_in b off n h p = ground arith

module _ (b f : Bytes) (off : ℕ) (a : At b off f) where
  pub get_string-At :
      (n : ℕ) → length f ≡ n → 0 < n → get_string b (pos off) (pos n) ≡ ok (trim_space (trim_nul f))
  unfolding get_string
  get_string-At n l p =
      rw (outside_last_in b off n (omega (arith, At-le b f off a)) p, pos_add off n)
        (rw (slice-At b f off (off + n) a (omega arith)))

  pub get_bytes-At : (n : ℕ) → length f ≡ n → 0 < n → get_bytes b (pos off) (pos n) ≡ ok f
  unfolding get_bytes
  get_bytes-At n l p =
      rw (outside_last_in b off n (omega (arith, At-le b f off a)) p, pos_add off n)
        (slice-At b f off (off + n) a (omega arith))

  get_integer-At : length f ≡ 4 → get_integer b (pos off) ≡ ok (of_word half32 (be_value f))
  unfolding get_integer bytes_to_integer
  get_integer-At l =
      rw (outside_in b off 4 (omega (arith, At-le b f off a)) (omega arith), pos_add off 4)
        (rw (slice-At b f off (off + 4) a (omega arith)) (rw l))

  pub get_long-At : length f ≡ 8 → get_long b (pos off) ≡ ok (of_word half64 (be_value f))
  unfolding get_long bytes_to_long
  get_long-At l =
      rw (outside_in b off 8 (omega (arith, At-le b f off a)) (omega arith), pos_add off 8)
        (rw (slice-At b f off (off + 8) a (omega arith)) (rw l))

  pub get_u_integer-At :
      length f ≡ 4 → be_value f < 2 ^ 31 → get_u_integer b (pos off) ≡ ok (be_value f)
  unfolding get_u_integer
  get_u_integer-At l h = rw (get_integer-At l) (ground arith)

  pub get_u_long-At : length f ≡ 8 → be_value f < 2 ^ 63 → get_u_long b (pos off) ≡ ok (be_value f)
  unfolding get_u_long
  get_u_long-At l h = rw (get_long-At l) (ground arith)

pub long_to_bytes_lem : (z : ℤ) → long_to_bytes z ≡ ok (be_bytes 8 (to_word half64 z))
unfolding long_to_bytes
long_to_bytes_lem z = rw (length-be_bytes 8 (to_word half64 z))

long_round_trip :
    (f : Bytes) → length f ≡ 8 → All IsByte f → long_to_bytes (of_word half64 (be_value f)) ≡ ok f
unfolding long_to_bytes
long_round_trip f l h =
    let e : be_bytes 8 (to_word half64 (of_word half64 (be_value f))) ≡ f =
      rw (to_word-of_word_64 (be_value f) (be_value-lt 8 f l h)) (be_bytes-be_value 8 f l h) in
    rw e (rw l)

-- The low half stands first.
pub get_uuid-At :
    (lib : Libraries) (b high low : Bytes) (off : ℕ)
    → Documented lib
    → At b off (low ++ high)
    → length low ≡ 8
    → length high ≡ 8
    → All IsByte low
    → All IsByte high
    → IsUuid (high ++ low)
    → get_uuid lib b (pos off) ≡ ok (high ++ low)
unfolding get_uuid
get_uuid-At lib b high low off d a l h lb hb u =
    rw
      (outside_last_in b off 16 (omega (arith, At-le b (low ++ high) off a, length-append low high))
        (omega arith))
      (rw (get_long-At b low off (At-left b low high off a) l, pos_add off 8)
        (rw (long_round_trip low l lb) (
          rw (get_long-At b high (off + 8) (At-right b low high off (off + 8) a (omega arith)) h)
            (rw (long_round_trip high h hb) (d.from_bytes _ u)))))
