-- ===== src/Message/Writers/Fields.antt =====
-- What each writer of message/writers.go does to a slice that is filled up to the field's offset.
use native.Mathlib.Nat.{mod-eq_of_lt}
use ecstoolkit.Base.{
  ℕ, ◌+◌, ◌-◌, ◌≤◌, ◌<◌, ◌^◌, ◌≡◌, ◌≢◌, refl, sym, ◌∙◌, ◌++◌, ℤ, pos, of_word, to_word, half32,
  half64, ok, arith, length, All, false, true, bind-ok, length-append, Result, replicate, take,
  drop, [], append-nil, append_assoc, length-take, length-drop, All-take, All-drop, ◌>>=◌, pos_add,
  ◌+ℤ◌, ◌-ℤ◌, ltb_ℤ, eq_of_eq_bytes, Bool-cases, inl, inr, take-append-drop, to_word-of_word_64,
  eqb_ℤ,
}
use ecstoolkit.Buffer.{Bytes, IsByte, be_value, be_bytes}
use ecstoolkit.Buffer.Fields.{At, slice-At}
use ecstoolkit.Buffer.Writes.{
  Filled, Filled-resize, length-Filled, copy_slice-Filled, fill-copy_slice-Filled,
}
use ecstoolkit.Buffer.BigEndian.{be_value-lt, be_bytes-be_value, length-be_bytes}
use ecstoolkit.Util.{uint64, safe_int32, safe_int64}
use ecstoolkit.Util.Bounds.{safe_int32_lem, safe_int64_lem}
use ecstoolkit.Message.Types.{Libraries, Documented, IsUuid, uuid_nil, is_uuid_nil}
use ecstoolkit.Message.Readers.{bytes_to_long}
use ecstoolkit.Message.Readers.Fields.{long_to_bytes_lem, outside_in, outside_last_in}
use ecstoolkit.Message.Writers.{
  integer_to_bytes, put_integer, put_u_integer, outside_ends, put_string, put_bytes, put_long,
  put_u_long, put_uuid,
}

-- `p` writes `f` behind `pre`, and leaves `m` bytes to be written.
pub record Puts (p : Result Bytes) (pre f : Bytes) (m : ℕ) : Type 0 where
  pub after : Bytes
  pub returns : p ≡ ok after
  pub filled : Filled after (pre ++ f) m

to_Puts :
    {p : Result Bytes} {pre f : Bytes} {m : ℕ}
    → (c : Bytes) × (p ≡ ok c) × Filled c (pre ++ f) m
    → Puts p pre f m
to_Puts t = record { after = t.0; returns = t.1; filled = t.2 }

-- Two writes in a row.
pub Puts-bind :
    (p : Result Bytes) (k : Bytes → Result Bytes) (pre f g : Bytes) (m n : ℕ)
    → Puts p pre f m
    → ((c : Bytes) → Filled c (pre ++ f) m → Puts (k c) (pre ++ f) g n)
    → Puts (p >>= k) pre (f ++ g) n
Puts-bind p k pre f g m n first next =
    let second = next first.after first.filled in
    record {
      after = second.after;
      returns = bind-ok k first.returns ∙ second.returns;
      filled = rw (← append_assoc pre f g) second.filled;
    }

integer_to_bytes_lem : (z : ℤ) → integer_to_bytes z ≡ ok (be_bytes 4 (to_word half32 z))
unfolding integer_to_bytes
integer_to_bytes_lem z = rw (length-be_bytes 4 (to_word half32 z))

outside_ends_in :
    (b : Bytes) (start n : ℕ)
    → start + n ≤ length b
    → 0 < n
    → outside_ends b (pos start) (pos (start + n - 1)) ≡ false
unfolding outside_ends
outside_ends_in b start n h p = ground arith

-- `offsetEnd-offsetStart+1`
span : (start end n : ℕ) → end ≡ start + n - 1 → 0 < n → pos end -ℤ pos start +ℤ pos 1 ≡ pos n
unfolding ◌+ℤ◌ ◌-ℤ◌
span start end n e p = ground arith

module _ (b pre : Bytes) (off m : ℕ) (o : length pre ≡ off) where
  put_integer-Puts :
      (z : ℤ)
      → Filled b pre (4 + m)
      → Puts (put_integer b (pos off) z) pre (be_bytes 4 (to_word half32 z)) m
  unfolding put_integer
  put_integer-Puts z fl =
      let f = be_bytes 4 (to_word half32 z) in
      rw
        (
          outside_in b off 4 (omega (arith, length-Filled b pre (4 + m) fl)) (omega arith),
          pos_add off 4,
        )
        (rw (integer_to_bytes_lem z)
          (to_Puts (copy_slice-Filled b pre f off (off + 4) 4 m fl o (length-be_bytes 4 _) refl)))

  pub put_u_integer-Puts :
      (v : ℕ)
      → v < 2 ^ 31
      → Filled b pre (4 + m)
      → Puts (put_u_integer b (pos off) v) pre (be_bytes 4 v) m
  unfolding put_u_integer
  put_u_integer-Puts v h fl =
      let e : safe_int32 (pos v) ≡ ok (pos v) = ground (arith, safe_int32_lem (pos v)) in
      let w : to_word half32 (pos v) ≡ v = mod-eq_of_lt (omega arith) in
      rw e (rw w at (put_integer-Puts (pos v) fl))

  pub put_long-Puts :
      (z : ℤ)
      → Filled b pre (8 + m)
      → Puts (put_long b (pos off) z) pre (be_bytes 8 (to_word half64 z)) m
  unfolding put_long
  put_long-Puts z fl =
      let f = be_bytes 8 (to_word half64 z) in
      rw
        (
          outside_in b off 8 (omega (arith, length-Filled b pre (8 + m) fl)) (omega arith),
          pos_add off 8,
        )
        (rw (long_to_bytes_lem z)
          (to_Puts (copy_slice-Filled b pre f off (off + 8) 8 m fl o (length-be_bytes 8 _) refl)))

  pub put_u_long-Puts :
      (v : ℕ)
      → v < 2 ^ 63
      → Filled b pre (8 + m)
      → Puts (put_u_long b (pos off) v) pre (be_bytes 8 v) m
  unfolding put_u_long
  put_u_long-Puts v h fl =
      let e : safe_int64 uint64 (pos v) ≡ ok (pos v) =
        ground (arith, safe_int64_lem uint64 (pos v)) in
      let w : to_word half64 (pos v) ≡ v = mod-eq_of_lt (omega arith) in
      rw e (rw w at (put_long-Puts (pos v) fl))

  pub put_bytes-Puts :
      (xs : Bytes) (n end : ℕ)
      → length xs ≡ n
      → 0 < n
      → end ≡ off + n - 1
      → Filled b pre (n + m)
      → Puts (put_bytes b (pos off) (pos end) xs) pre xs m
  unfolding put_bytes
  put_bytes-Puts xs n end l p e fl =
      let g : outside_ends b (pos off) (pos end) ≡ false =
        rw e (outside_ends_in b off n (omega (arith, length-Filled b pre (n + m) fl)) p) in
      let q : eqb_ℤ (pos n) (pos (length xs)) ≡ true = ground arith in
      rw (g, span off end n e p)
        (rw (q, pos_add end 1)
          (to_Puts (copy_slice-Filled b pre xs off (end + 1) n m fl o l (omega arith))))

  pub put_string-Puts :
      (s : Bytes) (n end : ℕ)
      → length s ≤ n
      → 0 < n
      → end ≡ off + n - 1
      → Filled b pre (n + m)
      → Puts (put_string b (pos off) (pos end) s) pre (s ++ replicate (n - length s) 32) m
  unfolding put_string
  put_string-Puts s n end l p e fl =
      let g : outside_ends b (pos off) (pos end) ≡ false =
        rw e (outside_ends_in b off n (omega (arith, length-Filled b pre (n + m) fl)) p) in
      let q : ltb_ℤ (pos n) (pos (length s)) ≡ false = ground arith in
      rw (g, span off end n e p)
        (rw (q, pos_add end 1)
          (to_Puts (fill-copy_slice-Filled b pre s off (end + 1) n m 32 fl o l (omega arith))))

bytes_to_long_lem : (f : Bytes) → length f ≡ 8 → bytes_to_long f ≡ ok (of_word half64 (be_value f))
unfolding bytes_to_long
bytes_to_long_lem f l = rw l

-- Eight bytes that are read as a long are written as they were.
put_long-same :
    (b pre f : Bytes) (off m : ℕ)
    → length pre ≡ off
    → length f ≡ 8
    → All IsByte f
    → Filled b pre (8 + m)
    → Puts (put_long b (pos off) (of_word half64 (be_value f))) pre f m
put_long-same b pre f off m o l h fl =
    let e : be_bytes 8 (to_word half64 (of_word half64 (be_value f))) ≡ f =
      rw (to_word-of_word_64 (be_value f) (be_value-lt 8 f l h)) (be_bytes-be_value 8 f l h) in
    rw e at (put_long-Puts b pre off m o (of_word half64 (be_value f)) fl)

halves : (u : Bytes) → length u ≡ 16 → At u 0 (take 8 u) × At u 8 (drop 8 u)
halves u l = (
  record { before = []; after = drop 8 u; parts = sym (take-append-drop 8 u); place = refl },
  record {
    before = take 8 u;
    after = [];
    parts = rw append-nil (sym (take-append-drop 8 u));
    place = omega (arith, length-take 8 u);
  },
)

-- A UUID goes in with its low half first.
pub put_uuid-Puts :
    (lib : Libraries) (b pre u : Bytes) (off m : ℕ)
    → Documented lib
    → IsUuid u
    → u ≢ uuid_nil
    → length pre ≡ off
    → Filled b pre (16 + m)
    → Puts (put_uuid lib b (pos off) u) pre (drop 8 u ++ take 8 u) m
unfolding put_uuid
put_uuid-Puts lib b pre u off m d v ne o fl =
    let low = drop 8 u in
    let high = take 8 u in
    let nl : length low ≡ 8 = omega (arith, length-drop 8 u, v.size) in
    let nh : length high ≡ 8 = omega (arith, length-take 8 u, v.size) in
    let first =
      put_long-same b pre low off (8 + m) o nl (All-drop IsByte 8 u v.bytes)
        (Filled-resize b pre (16 + m) (8 + (8 + m)) fl (omega arith)) in
    let second =
      put_long-same first.after (pre ++ low) high (off + 8) m (omega (arith, length-append pre low))
        nh (All-take IsByte 8 u v.bytes) first.filled in
    to_Puts (
      second.after,
      (rw
          (
            not_nil,
            outside_last_in b off 16 (omega (arith, length-Filled b pre (16 + m) fl)) (omega arith),
          )
          (rw (d.marshal_binary u v) (
            rw (slice-At u low 8 16 (halves u v.size).1 (omega arith), bytes_to_long_lem low nl)
              (rw (slice-At u high 0 8 (halves u v.size).0 (omega arith), bytes_to_long_lem high nh)
                (rw (first.returns, pos_add off 8) second.returns))))),
      rw (← append_assoc pre low high) second.filled,
    )
  where
    not_nil : is_uuid_nil u ≡ false
    not_nil = elim (Bool-cases (is_uuid_nil u)) [
      | inl e ↦ absurd (ne (eq_of_eq_bytes u uuid_nil e))
      | inr e ↦ e
    ]
