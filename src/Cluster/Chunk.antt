-- ===== src/Cluster/Chunk.antt =====
-- cluster/cluster.go: chunk, which cuts a slice into slices of at most a size.
use ecstoolkit.Base.{
  ℕ, zero, suc, ◌+◌, ◌-◌, ◌≤◌, ◌<ℤ◌, min, ℤ, pos, true, List, [], ◌∷◌, ◌++◌, ◌≡◌, refl, arith,
  if◌then◌else◌, length, take, drop, drop-all, take-all, take-append-drop, length-take, length-drop,
  append-nil, Bool-cases, inl, inr, sym, leb, ltb, ltb_ℤ, pos_part,
}

module _ {A : Type 0} where
  -- The loop from `i`.
  unfoldable pub chunks_from : List A → ℕ → ℕ → ℕ → List (List A)
  chunks_from slice size zero i = []
  chunks_from slice size (suc fuel) i =
      let rest = chunks_from slice size fuel (i + size) in
      let end = min (i + size) (length slice) in
      if ltb i (length slice) then take (end - i) (drop i slice) ∷ rest else []

  -- The fuel is the length: each round advances by at least one.
  unfoldable pub chunk : List A → ℤ → List (List A)
  chunk slice size =
      if ltb_ℤ (pos 0) size then chunks_from slice (pos_part size) (length slice) 0 else slice ∷ []

  abbrev pub concat : List (List A) → List A
  concat [] = []
  concat (xs ∷ xss) = xs ++ concat xss

  -- Every slice has an element, and at most `size`.
  abbrev pub Sized : ℕ → List (List A) → Type 0
  Sized size [] = Unit {0}
  Sized size (xs ∷ xss) = (1 ≤ length xs) × (length xs ≤ size) × Sized size xss

  drop_add : (i n : ℕ) (xs : List A) → drop (i + n) xs ≡ drop n (drop i xs)
  drop_add zero n xs = let e : 0 + n ≡ n = ground arith in rw e refl
  drop_add (suc i) zero [] = let e : suc i + 0 ≡ suc i = ground arith in rw e refl
  drop_add (suc i) (suc n) [] = let e : suc i + suc n ≡ suc (i + suc n) = ground arith in rw e refl
  drop_add (suc i) n (x ∷ xs) =
      let e : suc i + n ≡ suc (i + n) = ground arith in rw e (drop_add i n xs)

  -- A slice of the loop, and what comes after it.
  cut :
      (slice : List A) (size i : ℕ)
      → take (min (i + size) (length slice) - i) (drop i slice) ++ drop (i + size) slice
        ≡ drop i slice
  cut slice size i = elim (Bool-cases (leb (i + size) (length slice))) [
    | inl e ↦
        let n : min (i + size) (length slice) - i ≡ size = ground (arith, e) in
        rw (n, drop_add i size slice) (take-append-drop size (drop i slice))
    | inr e ↦
        let n : length (drop i slice) ≤ min (i + size) (length slice) - i =
          ground (arith, e, length-drop i slice) in
        let m : length slice ≤ i + size = ground (arith, e) in
        rw (take-all _ (drop i slice) n, drop-all (i + size) slice m) (append-nil _)
  ]

  chunks_from-concat :
      (slice : List A) (size fuel i : ℕ)
      → 1 ≤ size
      → length slice ≤ i + fuel
      → concat (chunks_from slice size fuel i) ≡ drop i slice
  unfolding chunks_from
  chunks_from-concat slice size zero i h k = sym (drop-all i slice (ground (arith, k)))
  chunks_from-concat slice size (suc fuel) i h k =
      let rec = chunks_from-concat slice size fuel (i + size) h (ground (arith, k, h)) in
      ground (arith, rec, cut slice size i, drop-all i slice)

  chunks_from-Sized :
      (slice : List A) (size fuel i : ℕ) → 1 ≤ size → Sized size (chunks_from slice size fuel i)
  unfolding chunks_from
  chunks_from-Sized slice size zero i h = tt
  chunks_from-Sized slice size (suc fuel) i h =
      let rec = chunks_from-Sized slice size fuel (i + size) h in
      ground (
        arith,
        rec,
        h,
        length-take (min (i + size) (length slice) - i) (drop i slice),
        length-drop i slice,
      )

  -- Cut at a positive size, the slices put together are the slice that was cut, and every one of them has an
  -- element, and at most as many as the size.
  pub chunk-concat :
      (slice : List A) (size : ℤ)
      → pos 0 <ℤ size
      → (concat (chunk slice size) ≡ slice) × Sized (pos_part size) (chunk slice size)
  unfolding chunk
  chunk-concat slice size h =
      let n : 1 ≤ pos_part size = ground (arith, h) in
      let e : ltb_ℤ (pos 0) size ≡ true = ground (arith, h) in
      rw e (
        chunks_from-concat slice (pos_part size) (length slice) 0 n (ground arith),
        chunks_from-Sized slice (pos_part size) (length slice) 0 n,
      )
