-- ===== src/Message/Codec/Layout.antt =====
-- The wire format of a client message, and that `SerializeClientMessage` produces it.
use native.Mathlib.Nat.{mod-eq_of_lt}
use ecstoolkit.Base.{
  ℕ, ◌+◌, ◌-◌, ◌≤◌, ◌<◌, ◌^◌, ◌%◌, ◌≡◌, ◌≢◌, refl, ap, ◌∙◌, [], ◌++◌, append_assoc, pos, to_word,
  half64, ok, arith, length, length-append, length-take, length-drop, length-replicate, take, drop,
  replicate, IsInt64, pos_add, pos_sub,
}
use ecstoolkit.Buffer.{Bytes, be_bytes, zeros}
use ecstoolkit.Buffer.Writes.{Filled, Filled-resize, Filled-end, zeros-Filled}
use ecstoolkit.Buffer.BigEndian.{length-be_bytes}
use ecstoolkit.Buffer.Trim.{IsToken}
use ecstoolkit.Util.{safe_uint32}
use ecstoolkit.Util.Bounds.{safe_uint32_lem}
use ecstoolkit.Message.Types.{ClientMessage, Libraries, Documented, IsUuid, uuid_nil}
use ecstoolkit.Message.Writers.Fields.{
  Puts, Puts-bind, put_u_integer-Puts, put_long-Puts, put_u_long-Puts, put_bytes-Puts,
  put_string-Puts, put_uuid-Puts,
}
use ecstoolkit.Message.Codec.{put_header, put_payload, serialize_bytes}

-- The text field: the message type, padded with spaces to 32 bytes.
abbrev pub padded : Bytes → Bytes
padded s = s ++ replicate (32 - length s) 32

-- The two halves of a UUID change places on the wire.
abbrev pub swapped : Bytes → Bytes
swapped u = drop 8 u ++ take 8 u

module _ (lib : Libraries) where
  -- The eleven fields in the order of the wire, the first of which states the header's length.
  unfoldable pub layout_with : ℕ → ClientMessage → Bytes
  layout_with header_length m =
      be_bytes 4 header_length
      ++ (padded m.message_type
          ++ (be_bytes 4 m.schema_version
              ++ (be_bytes 8 m.created_date
                  ++ (be_bytes 8 (to_word half64 m.sequence_number)
                      ++ (be_bytes 8 m.flags
                          ++ (swapped m.message_id
                              ++ (lib.sha256 m.payload
                                  ++ (be_bytes 4 m.payload_type
                                      ++ (be_bytes 4 (length m.payload) ++ m.payload)))))))))

  -- The format that is written: the header ends before the payload length, at 116.
  unfoldable pub layout : ClientMessage → Bytes
  unfolding layout_with
  layout m = layout_with 116 m

-- The fields that `put_header` writes, and those that `put_payload` writes.
abbrev pub header_bytes : ClientMessage → Bytes
header_bytes m =
    be_bytes 4 116
    ++ (padded m.message_type
        ++ (be_bytes 4 m.schema_version
            ++ (be_bytes 8 m.created_date
                ++ (be_bytes 8 (to_word half64 m.sequence_number)
                    ++ (be_bytes 8 m.flags ++ swapped m.message_id)))))

abbrev body_bytes : Libraries → ClientMessage → Bytes
body_bytes lib m =
    lib.sha256 m.payload
    ++ (be_bytes 4 m.payload_type ++ (be_bytes 4 (length m.payload) ++ m.payload))

-- Each field fits its place, and the id is not the nil UUID.
pub record HasFields (m : ClientMessage) : Type 0 where
  pub type_token : IsToken m.message_type
  pub type_fits : length m.message_type ≤ 32
  pub schema_fits : m.schema_version < 2 ^ 31
  pub date_fits : m.created_date < 2 ^ 63
  pub sequence_fits : IsInt64 m.sequence_number
  pub flags_fit : m.flags < 2 ^ 63
  pub id_uuid : IsUuid m.message_id
  pub id_not_nil : m.message_id ≢ uuid_nil
  pub payload_type_fits : m.payload_type < 2 ^ 31
  pub payload_fits : length m.payload < 2 ^ 31

-- What a message needs to go through: its fields fit, and there is a payload.
pub record IsSendable (m : ClientMessage) : Type 0 where
  pub fields : HasFields m
  pub open fields use *
  pub payload_some : 0 < length m.payload

pub length-padded : (s : Bytes) → length s ≤ 32 → length (padded s) ≡ 32
length-padded s h = omega (
  arith,
  length-append s (replicate (32 - length s) 32),
  length-replicate {0} {A = ℕ} (32 - length s) 32,
)

pub length-swapped : (u : Bytes) → length u ≡ 16 → length (swapped u) ≡ 16
length-swapped u h =
    omega (arith, length-append (drop 8 u) (take 8 u), length-drop 8 u, length-take 8 u)

-- One field more.
grow : (pre f : Bytes) (off n : ℕ) → length pre ≡ off → length f ≡ n → length (pre ++ f) ≡ off + n
grow pre f off n p q = omega (arith, length-append pre f)

append_seven :
    (a b c d e f g r : Bytes)
    → (a ++ (b ++ (c ++ (d ++ (e ++ (f ++ g)))))) ++ r
      ≡ a ++ (b ++ (c ++ (d ++ (e ++ (f ++ (g ++ r))))))
append_seven a b c d e f g r = simp append_assoc

length_seven :
    (a b c d e f g : Bytes)
    → length (a ++ (b ++ (c ++ (d ++ (e ++ (f ++ g))))))
      ≡ length a + (length b + (length c + (length d + (length e + (length f + length g)))))
length_seven a b c d e f g = simp length-append

pub header_size : (m : ClientMessage) → HasFields m → length (header_bytes m) ≡ 80
header_size m v =
    length_seven (be_bytes 4 116) (padded m.message_type) (be_bytes 4 m.schema_version)
      (be_bytes 8 m.created_date) (be_bytes 8 (to_word half64 m.sequence_number))
      (be_bytes 8 m.flags) (swapped m.message_id)
    ∙ omega (
      arith,
      length-be_bytes 4 116,
      length-padded m.message_type v.type_fits,
      length-be_bytes 4 m.schema_version,
      length-be_bytes 8 m.created_date,
      length-be_bytes 8 (to_word half64 m.sequence_number),
      length-be_bytes 8 m.flags,
      length-swapped m.message_id v.id_uuid.size,
    )

module _ (lib : Libraries) (d : Documented lib) (m : ClientMessage) (v : HasFields m) where
  pub header_lem :
      (b : Bytes) (k : ℕ)
      → Filled b [] (4 + (32 + (4 + (8 + (8 + (8 + (16 + k)))))))
      → Puts (put_header lib m 116 b) [] (header_bytes m) k
  unfolding put_header
  header_lem b k fl0 =
      let l1 : length ([] ++ be_bytes 4 116) ≡ 4 = length-be_bytes 4 116 in
      let l2 = grow _ (padded m.message_type) 4 32 l1 (length-padded _ v.type_fits) in
      let l3 = grow _ (be_bytes 4 m.schema_version) 36 4 l2 (length-be_bytes 4 _) in
      let l4 = grow _ (be_bytes 8 m.created_date) 40 8 l3 (length-be_bytes 8 _) in
      let l5 =
        grow _ (be_bytes 8 (to_word half64 m.sequence_number)) 48 8 l4 (length-be_bytes 8 _) in
      let l6 = grow _ (be_bytes 8 m.flags) 56 8 l5 (length-be_bytes 8 _) in
      Puts-bind _ _ _ _ _ _ _ (put_u_integer-Puts b [] 0 _ refl 116 (omega arith) fl0) λ c1 f1.
        Puts-bind _ _ _ _ _ _ _
          (put_string-Puts c1 _ 4 _ l1 m.message_type 32 35 v.type_fits (omega arith) refl f1)
          λ c2 f2.
            Puts-bind _ _ _ _ _ _ _
              (put_u_integer-Puts c2 _ 36 _ l2 m.schema_version v.schema_fits f2)
              λ c3 f3.
                Puts-bind _ _ _ _ _ _ _ (put_u_long-Puts c3 _ 40 _ l3 m.created_date v.date_fits f3)
                  λ c4 f4.
                    Puts-bind _ _ _ _ _ _ _ (put_long-Puts c4 _ 48 _ l4 m.sequence_number f4)
                      λ c5 f5.
                        Puts-bind _ _ _ _ _ _ _
                          (put_u_long-Puts c5 _ 56 _ l5 m.flags v.flags_fit f5)
                          λ c6 f6.
                            put_uuid-Puts lib c6 _ m.message_id 64 k d v.id_uuid v.id_not_nil l6 f6

module _ (lib : Libraries) (d : Documented lib) (m : ClientMessage) (v : IsSendable m) where
  payload_lem :
      (b pre : Bytes)
      → length pre ≡ 80
      → Filled b pre (32 + (4 + (4 + (length m.payload + 0))))
      → Puts (put_payload lib m (length m.payload) b) pre (body_bytes lib m) 0
  unfolding put_payload
  payload_lem b pre l0 fl0 =
      let l1 = grow pre (lib.sha256 m.payload) 80 32 l0 (d.digest_size m.payload) in
      let l2 = grow _ (be_bytes 4 m.payload_type) 112 4 l1 (length-be_bytes 4 _) in
      let l3 = grow _ (be_bytes 4 (length m.payload)) 116 4 l2 (length-be_bytes 4 _) in
      Puts-bind _ _ _ _ _ _ _
        (put_bytes-Puts b pre 80 _ l0 (lib.sha256 m.payload) 32 111 (d.digest_size m.payload)
          (omega arith) refl fl0)
        λ c1 f1.
          Puts-bind _ _ _ _ _ _ _
            (put_u_integer-Puts c1 _ 112 _ l1 m.payload_type v.payload_type_fits f1)
            λ c2 f2.
              Puts-bind _ _ _ _ _ _ _
                (put_u_integer-Puts c2 _ 116 _ l2 (length m.payload) v.payload_fits f2)
                λ c3 f3.
                  rw
                    (
                      pos_add 120 (length m.payload),
                      pos_sub (120 + length m.payload) 1 (omega arith),
                    )
                    (put_bytes-Puts c3 _ 120 0 l3 m.payload (length m.payload)
                      (120 + length m.payload - 1) refl v.payload_some refl f3)

  -- A message whose fields fit and whose payload is not empty is serialized to exactly the eleven fields in
  -- the order that message/types.go documents, with their widths, but for the id: it takes 16 bytes, with its
  -- halves swapped, where the comment there says 40.
  pub serialize-layout : serialize_bytes lib m ≡ ok (layout lib m)
  unfolding serialize_bytes layout
  serialize-layout =
      let n = length m.payload in
      let e : safe_uint32 (pos n) ≡ ok n = ground (arith, safe_uint32_lem (pos n)) in
      let t : (116 + 4 + n) % 2 ^ 32 ≡ 116 + 4 + n = mod-eq_of_lt (omega arith) in
      let h =
        header_lem lib d m v.fields (zeros (116 + 4 + n)) (32 + (4 + (4 + (n + 0))))
          (Filled-resize _ [] (116 + 4 + n) _ (zeros-Filled (116 + 4 + n)) (omega arith)) in
      let p = payload_lem h.after (header_bytes m) (header_size m v.fields) h.filled in
      rw (e, t)
        (rw h.returns
          (p.returns ∙ ap ok (Filled-end _ (header_bytes m ++ body_bytes lib m) p.filled ∙ whole)))
    where
      whole : header_bytes m ++ body_bytes lib m ≡ layout lib m
      whole =
          append_seven (be_bytes 4 116) (padded m.message_type) (be_bytes 4 m.schema_version)
            (be_bytes 8 m.created_date) (be_bytes 8 (to_word half64 m.sequence_number))
            (be_bytes 8 m.flags) (swapped m.message_id) (body_bytes lib m)
