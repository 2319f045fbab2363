-- ===== src/Buffer/Writes.antt =====
-- Filling a slice from the front: the bytes `pre` are written and `m` bytes are still to be written.
use ecstoolkit.Base.{
  ℕ, zero, suc, ◌+◌, ◌-◌, ◌≤◌, ◌≡◌, refl, ap, sym, ◌∙◌, [], ◌∷◌, ◌++◌, append_assoc, append-nil,
  eq_nil_of_length, pos, ok, arith, length, length-append, length-drop, length-replicate, take,
  drop, set, replicate, take-append, take-all,
}
use ecstoolkit.Buffer.{Bytes, write, copy_slice, fill, zeros}

abbrev pub Filled : Bytes → Bytes → ℕ → Type 0
Filled b pre m = (rest : Bytes) × (b ≡ pre ++ rest) × (length rest ≡ m)

pub length-Filled : (b pre : Bytes) (m : ℕ) → Filled b pre m → length b ≡ length pre + m
length-Filled b pre m (rest, e, l) = omega (arith, ap (length {0}) e, length-append pre rest)

length-zeros : (n : ℕ) → length (zeros n) ≡ n
length-zeros zero = refl
length-zeros (suc k) = ap suc (length-zeros k)

pub Filled-resize : (b pre : Bytes) (m m' : ℕ) → Filled b pre m → m ≡ m' → Filled b pre m'
Filled-resize b pre m m' (rest, e, l) h = (rest, e, l ∙ h)

pub zeros-Filled : (n : ℕ) → Filled (zeros n) [] n
zeros-Filled n = (zeros n, refl, length-zeros n)

pub Filled-end : (b pre : Bytes) → Filled b pre 0 → b ≡ pre
Filled-end b pre (rest, e, l) = rw (e, eq_nil_of_length rest l, append-nil)

drop-append_add : (n k : ℕ) (xs ys : Bytes) → length xs ≡ n → drop (n + k) (xs ++ ys) ≡ drop k ys
drop-append_add zero k [] ys e = let z : zero + k ≡ k = omega arith in rw z
drop-append_add zero k (x ∷ xs) ys e = absurd (omega arith)
drop-append_add (suc n) k [] ys e = absurd (omega arith)
drop-append_add (suc n) k (x ∷ xs) ys e =
    let z : suc n + k ≡ suc (n + k) = omega arith in rw z (drop-append_add n k xs ys (omega arith))

write-append :
    (pre rest xs : Bytes) (off : ℕ)
    → length pre ≡ off
    → write (pre ++ rest) off xs ≡ pre ++ (xs ++ drop (length xs) rest)
write-append pre rest xs off e =
    rw (take-append off pre rest e, drop-append_add off (length xs) pre rest e)

copy_slice_in :
    (b src : Bytes) (lo hi : ℕ)
    → lo ≤ hi
    → hi ≤ length b
    → copy_slice b (pos lo) (pos hi) src ≡ ok (write b lo (take (hi - lo) src))
unfolding copy_slice
copy_slice_in b src lo hi h k = ground arith

-- Copying exactly the next `k` bytes.
pub copy_slice-Filled :
    (b pre xs : Bytes) (off hi k m : ℕ)
    → Filled b pre (k + m)
    → length pre ≡ off
    → length xs ≡ k
    → hi ≡ off + k
    → (c : Bytes) × (copy_slice b (pos off) (pos hi) xs ≡ ok c) × Filled c (pre ++ xs) m
copy_slice-Filled b pre xs off hi k m (rest, e, l) o x h = (
  pre ++ (xs ++ drop (length xs) rest),
  copy_slice_in b xs off hi (omega arith) (omega (arith, length-Filled b pre (k + m) (rest, e, l)))
      ∙ rw (e, take-all (hi - off) xs (omega arith)) (ap ok (write-append pre rest xs off o)),
  (drop (length xs) rest, sym (append_assoc pre xs _), omega (arith, length-drop (length xs) rest)),
)

set-append :
    (pre : Bytes) (b v off : ℕ) (rest : Bytes)
    → length pre ≡ off
    → set (pre ++ (b ∷ rest)) off v ≡ (pre ++ (v ∷ [])) ++ rest
set-append [] b v zero rest e = refl
set-append [] b v (suc off) rest e = absurd (omega arith)
set-append (x ∷ pre) b v zero rest e = absurd (omega arith)
set-append (x ∷ pre) b v (suc off) rest e = ap (◌∷◌ x) (set-append pre b v off rest (omega arith))

fill-append :
    (rounds v off : ℕ) (pre rest : Bytes)
    → length pre ≡ off
    → rounds ≤ length rest
    → fill rounds off v (pre ++ rest) ≡ pre ++ (replicate rounds v ++ drop rounds rest)
unfolding fill
fill-append zero v off pre rest e h = refl
fill-append (suc n) v off pre [] e h = absurd (omega arith)
fill-append (suc n) v off pre (b ∷ rest) e h = rw (set-append pre b v off rest e) (
    fill-append n v (off + 1) (pre ++ (v ∷ [])) rest (omega (arith, length-append pre (v ∷ [])))
      (omega arith)
    ∙ append_assoc pre (v ∷ []) _)

drop-replicate :
    (n k v : ℕ) (ys : Bytes) → n ≤ k → drop n (replicate k v ++ ys) ≡ replicate (k - n) v ++ ys
drop-replicate zero k v ys h = let z : k - zero ≡ k = omega arith in rw z
drop-replicate (suc n) zero v ys h = absurd (omega arith)
drop-replicate (suc n) (suc k) v ys h =
    let z : suc k - suc n ≡ k - n = omega arith in rw z (drop-replicate n k v ys (omega arith))

-- Wiping the next `k` bytes and copying at most as many over them.
pub fill-copy_slice-Filled :
    (b pre xs : Bytes) (off hi k m v : ℕ)
    → Filled b pre (k + m)
    → length pre ≡ off
    → length xs ≤ k
    → hi ≡ off + k
    → (c : Bytes) × (copy_slice (fill k off v b) (pos off) (pos hi) xs ≡ ok c)
      × Filled c (pre ++ (xs ++ replicate (k - length xs) v)) m
fill-copy_slice-Filled b pre xs off hi k m v (rest, e, l) o x h =
    let wiped : fill k off v b ≡ pre ++ (replicate k v ++ drop k rest) =
      rw e (fill-append k v off pre rest o (omega arith)) in
    let size : length (pre ++ (replicate k v ++ drop k rest)) ≡ off + (k + m) = omega (
      arith,
      length-append pre (replicate k v ++ drop k rest),
      length-append (replicate k v) (drop k rest),
      length-replicate k v,
      length-drop k rest,
    ) in
    (
      pre ++ (xs ++ (replicate (k - length xs) v ++ drop k rest)),
      rw wiped (
          copy_slice_in _ xs off hi (omega arith) (omega arith)
          ∙ rw (take-all (hi - off) xs (omega arith)) (
              ap ok (
                write-append pre _ xs off o
                ∙ rw (drop-replicate (length xs) k v (drop k rest) x)))),
      (drop k rest, simp append_assoc, omega (arith, length-drop k rest)),
    )
