-- ===== src/Message/Readers/Safety.antt =====
-- No reader of message/readers.go panics, whatever the slice and the offset.
use ecstoolkit.Base.{
  ℕ, ◌≡◌, refl, ℤ, pos, negsuc, ok, err, panic, blocked, offset_outside, negative, arith, length,
  Bool, true, false, Result, Returns, bind-Returns, ◌>>=◌, fail_if, relabel, ◌+ℤ◌, ◌-ℤ◌,
  length-take, length-drop, take, drop,
}
use ecstoolkit.Buffer.{Bytes, slice}
use ecstoolkit.Message.Types.{Libraries}
use ecstoolkit.Message.Readers.{
  outside, outside_last, get_string, get_integer, get_u_integer, get_long, get_u_long, get_uuid,
  get_bytes, bytes_to_integer, bytes_to_long, long_to_bytes,
}
use ecstoolkit.Message.Readers.Fields.{long_to_bytes_lem}

-- A guard that lets the call go on has established its negation.
guard-Returns {ℓ} :
    {A : Type ℓ} (t : Bool) (m : Result A)
    → (t ≡ false → Returns m)
    → Returns (fail_if t offset_outside >>= λ _. m)
guard-Returns true m h = tt
guard-Returns false m h = h refl

slice_ok :
    (b : Bytes) (off : ℤ) (n : ℕ)
    → outside_last b off (pos n) ≡ false
    → (s : Bytes) × (slice b off (off +ℤ pos n) ≡ ok s) × (length s ≡ n)
unfolding outside_last slice ◌+ℤ◌ ◌-ℤ◌
slice_ok b (pos off) n h = (
  take n (drop off b),
  ground arith,
  ground (arith, length-take n (drop off b), length-drop off b),
)
slice_ok b (negsuc off) n h = absurd (ground arith)

-- Both guards refuse the same offsets.
outside-outside_last :
    (b : Bytes) (off : ℤ) (n : ℕ)
    → outside b off (pos n) ≡ false
    → outside_last b off (pos n) ≡ false
unfolding outside outside_last ◌+ℤ◌ ◌-ℤ◌
outside-outside_last b (pos off) n h = ground arith
outside-outside_last b (negsuc off) n h = absurd (ground arith)

pub get_string-Returns : (b : Bytes) (off : ℤ) (n : ℕ) → Returns (get_string b off (pos n))
unfolding get_string
get_string-Returns b off n =
    guard-Returns (outside_last b off (pos n)) _ λ h. let (s, e, l) = slice_ok b off n h in rw e tt

pub get_bytes-Returns : (b : Bytes) (off : ℤ) (n : ℕ) → Returns (get_bytes b off (pos n))
unfolding get_bytes
get_bytes-Returns b off n =
    guard-Returns (outside_last b off (pos n)) _ λ h. let (s, e, l) = slice_ok b off n h in rw e tt

pub get_integer-Returns : (b : Bytes) (off : ℤ) → Returns (get_integer b off)
unfolding get_integer bytes_to_integer
get_integer-Returns b off =
    guard-Returns (outside b off (pos 4)) _
      λ h. let (s, e, l) = slice_ok b off 4 (outside-outside_last b off 4 h) in rw e (rw l tt)

pub get_long-Returns : (b : Bytes) (off : ℤ) → Returns (get_long b off)
unfolding get_long bytes_to_long
get_long-Returns b off =
    guard-Returns (outside b off (pos 8)) _
      λ h. let (s, e, l) = slice_ok b off 8 (outside-outside_last b off 8 h) in rw e (rw l tt)

negative-Returns {ℓ} : {A : Type ℓ} (t : Bool) (a : A) → Returns (fail_if t negative >>= λ _. ok a)
negative-Returns true a = tt
negative-Returns false a = tt

pub get_u_integer-Returns : (b : Bytes) (off : ℤ) → Returns (get_u_integer b off)
unfolding get_u_integer
get_u_integer-Returns b off =
    bind-Returns (get_integer b off) _ (get_integer-Returns b off) λ z _. negative-Returns _ _

pub get_u_long-Returns : (b : Bytes) (off : ℤ) → Returns (get_u_long b off)
unfolding get_u_long
get_u_long-Returns b off =
    bind-Returns (get_long b off) _ (get_long-Returns b off) λ z _. negative-Returns _ _

relabel-Returns {ℓ} : {A : Type ℓ} (m : Result A) → Returns m → Returns (relabel offset_outside m)
relabel-Returns (ok a) h = tt
relabel-Returns (err e) h = tt
relabel-Returns panic h = h
relabel-Returns blocked h = h

-- `uuid.FromBytes` returns a UUID or an error.
pub get_uuid-Returns :
    (lib : Libraries) (b : Bytes) (off : ℤ)
    → ((u : Bytes) → Returns (lib.uuid_from_bytes u))
    → Returns (get_uuid lib b off)
unfolding get_uuid
get_uuid-Returns lib b off h = guard-Returns (outside_last b off (pos 16)) _ λ _.
    bind-Returns _ _ (relabel-Returns _ (get_long-Returns b off)) λ low _.
      bind-Returns _ _ (relabel-Returns _ (long-Returns low)) λ low_bytes _.
        bind-Returns _ _ (relabel-Returns _ (get_long-Returns b (off +ℤ pos 8)))
          λ high _. bind-Returns _ _ (relabel-Returns _ (long-Returns high)) λ high_bytes _. h _
  where
    long-Returns : (z : ℤ) → Returns (long_to_bytes z)
    long-Returns z = rw (long_to_bytes_lem z) tt
