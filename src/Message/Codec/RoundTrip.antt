-- ===== src/Message/Codec/RoundTrip.antt =====
-- Deserializing what was serialized.
use ecstoolkit.Base.{
  ℕ, ◌+◌, ◌-◌, ◌<◌, ◌^◌, ◌%◌, ◌≡◌, refl, ap, ◌∙◌, ◌++◌, ℤ, pos, to_word, half64, ok, panic, arith,
  length, take, drop, IsInt64, All-take, All-drop, take-append-drop, length-take, length-drop,
  ◌>>=◌, of_word-to_word_64, to_word_64_lt, of_word,
}
use ecstoolkit.Buffer.{Bytes, IsByte, be_bytes, be_value, slice}
use ecstoolkit.Buffer.Fields.{
  At, Suffix, Suffix-whole, Suffix-skip, Suffix-length, Suffix-At, Suffix-last, slice-At,
}
use ecstoolkit.Buffer.BigEndian.{length-be_bytes, be_value-be_bytes}
use ecstoolkit.Buffer.Trim.{trim-padding}
use ecstoolkit.Message.Types.{ClientMessage, Libraries, Documented, IsUuid}
use ecstoolkit.Message.Readers.{get_u_integer, get_u_long, get_long, get_uuid}
use ecstoolkit.Message.Readers.Fields.{
  get_string-At, get_u_integer-At, get_u_long-At, get_long-At, get_uuid-At, get_bytes-At,
}
use ecstoolkit.Message.Codec.{serialize_bytes, deserialize_client_message}
use ecstoolkit.Message.Codec.Layout.{
  IsSendable, HasFields, layout, layout_with, padded, swapped, length-padded, length-swapped,
  serialize-layout,
}

module _ (lib : Libraries) where
  -- The message that arrives: header length, digest and payload length are those of the wire.
  unfoldable pub received : ClientMessage → ClientMessage
  received m = record m {
    header_length = 116;
    payload_digest = lib.sha256 m.payload;
    payload_length = length m.payload;
  }

slice_beyond : (b : Bytes) (n : ℕ) → length b < n → slice b (pos n) (pos (length b)) ≡ panic
unfolding slice
slice_beyond b n h = ground arith

u_integer_field :
    (b : Bytes) (off v : ℕ)
    → v < 2 ^ 31
    → At b off (be_bytes 4 v)
    → get_u_integer b (pos off) ≡ ok v
u_integer_field b off v h a =
    let e : be_value (be_bytes 4 v) ≡ v = be_value-be_bytes 4 v (omega arith) in
    get_u_integer-At b _ off a (length-be_bytes 4 v) (omega (arith, e)) ∙ ap ok e

u_long_field :
    (b : Bytes) (off v : ℕ) → v < 2 ^ 63 → At b off (be_bytes 8 v) → get_u_long b (pos off) ≡ ok v
u_long_field b off v h a =
    let e : be_value (be_bytes 8 v) ≡ v = be_value-be_bytes 8 v (omega arith) in
    get_u_long-At b _ off a (length-be_bytes 8 v) (omega (arith, e)) ∙ ap ok e

long_field :
    (b : Bytes) (off : ℕ) (z : ℤ)
    → IsInt64 z
    → At b off (be_bytes 8 (to_word half64 z))
    → get_long b (pos off) ≡ ok z
long_field b off z h a =
    let e : be_value (be_bytes 8 (to_word half64 z)) ≡ to_word half64 z =
      be_value-be_bytes 8 _ (to_word_64_lt z) in
    get_long-At b _ off a (length-be_bytes 8 _)
    ∙ ap ok (ap (of_word half64) e ∙ of_word-to_word_64 z h)

uuid_field :
    (lib : Libraries) (b u : Bytes) (off : ℕ)
    → Documented lib
    → IsUuid u
    → At b off (swapped u)
    → get_uuid lib b (pos off) ≡ ok u
uuid_field lib b u off d v a =
    let e : take 8 u ++ drop 8 u ≡ u = take-append-drop 8 u in
    get_uuid-At lib b (take 8 u) (drop 8 u) off d a (omega (arith, length-drop 8 u, v.size))
      (omega (arith, length-take 8 u, v.size)) (All-drop IsByte 8 u v.bytes)
      (All-take IsByte 8 u v.bytes) (rw e v)
    ∙ ap ok e

module _ (lib : Libraries) (d : Documented lib) (m : ClientMessage) (v : HasFields m) (h : ℕ)
    (hh : h < 2 ^ 31) where
  -- Where each field stands in the wire format.
  record Places (b : Bytes) : Type 0 where
    hl : At b 0 (be_bytes 4 h)
    kind : At b 4 (padded m.message_type)
    schema : At b 36 (be_bytes 4 m.schema_version)
    date : At b 40 (be_bytes 8 m.created_date)
    sequence : At b 48 (be_bytes 8 (to_word half64 m.sequence_number))
    flags : At b 56 (be_bytes 8 m.flags)
    id : At b 64 (swapped m.message_id)
    digest : At b 80 (lib.sha256 m.payload)
    payload_type : At b 112 (be_bytes 4 m.payload_type)
    payload_length : At b 116 (be_bytes 4 (length m.payload))

  layout-Suffix : Suffix (layout_with lib h m) 120 m.payload × Places (layout_with lib h m)
  unfolding layout_with
  layout-Suffix =
      let s0 = Suffix-whole (layout_with lib h m) in
      let s1 = Suffix-skip _ (be_bytes 4 h) _ 0 4 4 s0 (length-be_bytes 4 _) refl in
      let s2 =
        Suffix-skip _ (padded m.message_type) _ 4 32 36 s1 (length-padded _ v.type_fits) refl in
      let s3 =
        Suffix-skip _ (be_bytes 4 m.schema_version) _ 36 4 40 s2 (length-be_bytes 4 _) refl in
      let s4 = Suffix-skip _ (be_bytes 8 m.created_date) _ 40 8 48 s3 (length-be_bytes 8 _) refl in
      let s5 =
        Suffix-skip _ (be_bytes 8 (to_word half64 m.sequence_number)) _ 48 8 56 s4
          (length-be_bytes 8 _) refl in
      let s6 = Suffix-skip _ (be_bytes 8 m.flags) _ 56 8 64 s5 (length-be_bytes 8 _) refl in
      let s7 =
        Suffix-skip _ (swapped m.message_id) _ 64 16 80 s6 (length-swapped _ v.id_uuid.size) refl in
      let s8 = Suffix-skip _ (lib.sha256 m.payload) _ 80 32 112 s7 (d.digest_size m.payload) refl in
      let s9 =
        Suffix-skip _ (be_bytes 4 m.payload_type) _ 112 4 116 s8 (length-be_bytes 4 _) refl in
      let s10 =
        Suffix-skip _ (be_bytes 4 (length m.payload)) _ 116 4 120 s9 (length-be_bytes 4 _) refl in
      (
        s10,
        record {
          hl = Suffix-At _ _ _ 0 s0;
          kind = Suffix-At _ _ _ 4 s1;
          schema = Suffix-At _ _ _ 36 s2;
          date = Suffix-At _ _ _ 40 s3;
          sequence = Suffix-At _ _ _ 48 s4;
          flags = Suffix-At _ _ _ 56 s5;
          id = Suffix-At _ _ _ 64 s6;
          digest = Suffix-At _ _ _ 80 s7;
          payload_type = Suffix-At _ _ _ 112 s8;
          payload_length = Suffix-At _ _ _ 116 s9;
        },
      )

  -- All but the last step: what is left is the slice of the payload.
  deserialize-Places :
      (b : Bytes)
      → Places b
      → deserialize_client_message lib b ≡ (
          slice b (pos ((h + 4) % 2 ^ 32)) (pos (length b)) >>= λ payload.
          ok (record (received lib m) { header_length = h; payload = payload }))
  unfolding deserialize_client_message received
  deserialize-Places b p =
      rw
        (
          get_string-At b _ 4 p.kind 32 (length-padded _ v.type_fits) (omega arith),
          trim-padding m.message_type (32 - length m.message_type) v.type_token,
        )
        (rw (u_integer_field b 36 _ v.schema_fits p.schema, u_long_field b 40 _ v.date_fits p.date)
          (rw
            (long_field b 48 _ v.sequence_fits p.sequence, u_long_field b 56 _ v.flags_fit p.flags)
            (rw
              (
                uuid_field lib b _ 64 d v.id_uuid p.id,
                get_bytes-At b _ 80 p.digest 32 (d.digest_size m.payload) (omega arith),
              )
              (rw
                (
                  u_integer_field b 112 _ v.payload_type_fits p.payload_type,
                  u_integer_field b 116 _ v.payload_fits p.payload_length,
                )
                (rw (u_integer_field b 0 h hh p.hl))))))

  length-layout_with : length (layout_with lib h m) ≡ 120 + length m.payload
  length-layout_with = Suffix-length _ _ 120 layout-Suffix.0

  -- An input in the wire format, all of whose fields fit, makes the reader panic if its header length, below
  -- 2^31, points behind its end.
  pub deserialize_panics :
      120 + length m.payload < h + 4 → deserialize_client_message lib (layout_with lib h m) ≡ panic
  deserialize_panics far =
      deserialize-Places _ layout-Suffix.1
      ∙ rw (
          slice_beyond (layout_with lib h m) ((h + 4) % 2 ^ 32) (omega (arith, length-layout_with)))

module _ (lib : Libraries) (d : Documented lib) (m : ClientMessage) (v : HasFields m) where
  -- Reading the wire format of a message gives back every field of the message.
  pub deserialize-layout : deserialize_client_message lib (layout lib m) ≡ ok (received lib m)
  unfolding layout received
  deserialize-layout =
      let (s, p) = layout-Suffix lib d m v 116 (omega arith) in
      deserialize-Places lib d m v 116 (omega arith) _ p
      ∙ rw (
          slice-At _ m.payload 120 (length (layout_with lib 116 m)) (Suffix-last _ _ 120 s)
            (Suffix-length _ _ 120 s))

-- What `SerializeClientMessage` writes `DeserializeClientMessage` reads back, for every message whose
-- fields fit their places and whose payload is not empty: only the header length, the digest and the
-- payload length are those of the wire.
pub deserialize-serialize :
    (lib : Libraries) (m : ClientMessage)
    → Documented lib
    → IsSendable m
    → (serialize_bytes lib m >>= deserialize_client_message lib) ≡ ok (received lib m)
deserialize-serialize lib m d v =
    rw (serialize-layout lib d m v) (deserialize-layout lib d m v.fields)
