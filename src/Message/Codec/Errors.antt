-- ===== src/Message/Codec/Errors.antt =====
-- Client messages that `SerializeClientMessage` refuses.

use ecstoolkit.Base.{
  ℕ, ◌+◌, ◌≤◌, ◌<◌, ◌^◌, ◌≡◌, refl, ap, [], ◌++◌, ℤ, pos, ok, err, offset_outside, overflow, arith,
  length, length-append, true, ◌+ℤ◌, ◌-ℤ◌,
}
use ecstoolkit.Buffer.{Bytes, be_bytes, zeros}
use ecstoolkit.Buffer.Writes.{Filled, Filled-resize, zeros-Filled, length-Filled}
use ecstoolkit.Buffer.BigEndian.{length-be_bytes}
use ecstoolkit.Util.{safe_uint32, safe_int32}
use ecstoolkit.Util.Bounds.{safe_uint32_lem, safe_int32_lem}
use ecstoolkit.Message.Types.{ClientMessage, Libraries, Documented}
use ecstoolkit.Message.Writers.{put_bytes, put_u_integer, outside_ends}
use ecstoolkit.Message.Writers.Fields.{put_u_integer-Puts, put_bytes-Puts}
use ecstoolkit.Message.Codec.{put_payload, serialize_bytes}
use ecstoolkit.Message.Codec.Layout.{HasFields, header_lem, header_size, header_bytes}

-- A uint32 from 2^31 on is refused wherever it is put.
pub put_u_integer_overflow :
    (b : Bytes) (offset : ℤ) (v : ℕ)
    → 2 ^ 31 ≤ v
    → v < 2 ^ 32
    → put_u_integer b offset v ≡ err overflow
unfolding put_u_integer
put_u_integer_overflow b offset v h l =
    let e : safe_int32 (pos v) ≡ err overflow = ground (arith, safe_int32_lem (pos v)) in rw e

-- With no payload the place of the payload lies outside the slice.
put_bytes_outside :
    (b xs : Bytes)
    → length b ≡ 120
    → put_bytes b (pos 120) (pos 120 +ℤ pos 0 -ℤ pos 1) xs ≡ err offset_outside
unfolding put_bytes outside_ends ◌+ℤ◌ ◌-ℤ◌
put_bytes_outside b xs l =
    let e : outside_ends b (pos 120) (pos 120 +ℤ pos 0 -ℤ pos 1) ≡ true = ground arith in rw e

module _ (lib : Libraries) (d : Documented lib) (m : ClientMessage) (v : HasFields m) where
  payload_fails :
      (b pre : Bytes)
      → length pre ≡ 80
      → Filled b pre (32 + (4 + (4 + 0)))
      → put_payload lib m 0 b ≡ err offset_outside
  unfolding put_payload
  payload_fails b pre l0 fl0 =
      let p1 =
        put_bytes-Puts b pre 80 8 l0 (lib.sha256 m.payload) 32 111 (d.digest_size m.payload)
          (omega arith) refl fl0 in
      let l1 : length (pre ++ lib.sha256 m.payload) ≡ 112 =
        omega (arith, length-append pre (lib.sha256 m.payload), d.digest_size m.payload) in
      let p2 =
        put_u_integer-Puts p1.after _ 112 4 l1 m.payload_type v.payload_type_fits p1.filled in
      let l2 : length ((pre ++ lib.sha256 m.payload) ++ be_bytes 4 m.payload_type) ≡ 116 = omega (
        arith,
        length-append (pre ++ lib.sha256 m.payload) (be_bytes 4 m.payload_type),
        l1,
        length-be_bytes 4 m.payload_type,
      ) in
      let p3 = put_u_integer-Puts p2.after _ 116 0 l2 0 (omega arith) p2.filled in
      let size : length p3.after ≡ 120 = omega (
        arith,
        length-Filled p3.after _ 0 p3.filled,
        length-append ((pre ++ lib.sha256 m.payload) ++ be_bytes 4 m.payload_type) (be_bytes 4 0),
        l2,
        length-be_bytes 4 0,
      ) in
      rw p1.returns (rw p2.returns (rw p3.returns (put_bytes_outside p3.after m.payload size)))

  -- A message with an empty payload is refused, whatever its other fields.
  pub serialize-empty : m.payload ≡ [] → serialize_bytes lib m ≡ err offset_outside
  unfolding serialize_bytes
  serialize-empty e =
      let n : length m.payload ≡ 0 = ap (length {0}) e in
      let h =
        header_lem lib d m v (zeros (116 + 4 + 0)) (32 + (4 + (4 + 0)))
          (Filled-resize _ [] (116 + 4 + 0) _ (zeros-Filled (116 + 4 + 0)) (omega arith)) in
      let s : safe_uint32 (pos (length m.payload)) ≡ ok 0 =
        ground (arith, safe_uint32_lem (pos (length m.payload))) in
      rw s (rw h.returns (payload_fails h.after (header_bytes m) (header_size m v) h.filled))
