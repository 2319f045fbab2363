-- ===== src/Buffer/Fields.antt =====
-- Reading a field of known place and length out of a byte slice.
use ecstoolkit.Base.{
  ℕ, ◌+◌, ◌-◌, ◌≤◌, ◌≡◌, refl, sym, ap, ◌∙◌, [], ◌++◌, append_assoc, append-nil, pos, ok, arith,
  length, length-append, take, drop, take-append, drop-append,
}
use ecstoolkit.Buffer.{Bytes, slice}

-- `f` stands in `b` from index `off` on.
pub record At (b : Bytes) (off : ℕ) (f : Bytes) : Type 0 where
  pub before : Bytes
  pub after : Bytes
  pub parts : b ≡ before ++ (f ++ after)
  pub place : length before ≡ off

-- `r` is what `b` holds from index `off` to its end.
pub record Suffix (b : Bytes) (off : ℕ) (r : Bytes) : Type 0 where
  pub before : Bytes
  pub parts : b ≡ before ++ r
  pub place : length before ≡ off

pub Suffix-whole : (b : Bytes) → Suffix b 0 b
Suffix-whole b = record { before = []; parts = refl; place = refl }

pub Suffix-skip :
    (b f r : Bytes) (off n off' : ℕ)
    → Suffix b off (f ++ r)
    → length f ≡ n
    → off' ≡ off + n
    → Suffix b off' r
Suffix-skip b f r off n off' s l e = record {
  before = s.before ++ f;
  parts = s.parts ∙ sym (append_assoc s.before f r);
  place = omega (arith, length-append s.before f, s.place);
}

pub Suffix-length : (b r : Bytes) (off : ℕ) → Suffix b off r → length b ≡ off + length r
Suffix-length b r off s = omega (arith, ap (length {0}) s.parts, length-append s.before r, s.place)

pub Suffix-At : (b f r : Bytes) (off : ℕ) → Suffix b off (f ++ r) → At b off f
Suffix-At b f r off s = record { before = s.before; after = r; parts = s.parts; place = s.place }

pub Suffix-last : (b r : Bytes) (off : ℕ) → Suffix b off r → At b off r
Suffix-last b r off s = record {
  before = s.before;
  after = [];
  parts = rw append-nil s.parts;
  place = s.place;
}

pub At-le : (b f : Bytes) (off : ℕ) → At b off f → off + length f ≤ length b
At-le b f off a = omega (
  arith,
  ap (length {0}) a.parts,
  length-append a.before (f ++ a.after),
  length-append f a.after,
  a.place,
)

slice_in :
    (b : Bytes) (lo hi : ℕ)
    → lo ≤ hi
    → hi ≤ length b
    → slice b (pos lo) (pos hi) ≡ ok (take (hi - lo) (drop lo b))
unfolding slice
slice_in b lo hi h k = ground arith

pub slice-At :
    (b f : Bytes) (off hi : ℕ)
    → At b off f
    → hi ≡ off + length f
    → slice b (pos off) (pos hi) ≡ ok f
slice-At b f off hi a e =
    slice_in b off hi (omega arith) (omega (arith, At-le b f off a))
    ∙ rw a.parts (
        rw (drop-append off a.before (f ++ a.after) a.place)
          (ap ok (take-append (hi - off) f a.after (omega arith))))

-- The two parts of a field.
pub At-left : (b f g : Bytes) (off : ℕ) → At b off (f ++ g) → At b off f
At-left b f g off a = record {
  before = a.before;
  after = g ++ a.after;
  parts = a.parts ∙ ap (◌++◌ a.before) (append_assoc f g a.after);
  place = a.place;
}

pub At-right :
    (b f g : Bytes) (off off' : ℕ) → At b off (f ++ g) → off' ≡ off + length f → At b off' g
At-right b f g off off' a e = record {
  before = a.before ++ f;
  after = a.after;
  parts =
      a.parts
      ∙ ap (◌++◌ a.before) (append_assoc f g a.after)
      ∙ sym (append_assoc a.before f (g ++ a.after));
  place = omega (arith, length-append a.before f, a.place);
}
