-- ===== src/Buffer/BigEndian.antt =====
-- `be_bytes` and `be_value` are inverse to one another.
use native.Mathlib.Nat.{pow-suc}
use ecstoolkit.Base.{
  ℕ, zero, suc, ◌+◌, ◌*◌, ◌/◌, ◌%◌, ◌^◌, ◌<◌, ◌≡◌, refl, ◌∙◌, [], ◌∷◌, ◌++◌, length, length-append,
  All, All-append, arith,
}
use ecstoolkit.Buffer.{Bytes, IsByte, be_bytes, be_value, be_value_from}

pub length-be_bytes : (n x : ℕ) → length (be_bytes n x) ≡ n
unfolding be_bytes
length-be_bytes zero x = refl
length-be_bytes (suc n) x =
    omega
      (arith, length-append (be_bytes n (x / 256)) ((x % 256) ∷ []), length-be_bytes n (x / 256))

pub be_bytes-All : (n x : ℕ) → All IsByte (be_bytes n x)
unfolding be_bytes
be_bytes-All zero x = tt
be_bytes-All (suc n) x =
    All-append IsByte (be_bytes n (x / 256)) _ (be_bytes-All n (x / 256)) (omega arith, tt)

be_value_from-append :
    (acc : ℕ) (bs : Bytes) (b : ℕ)
    → be_value_from acc (bs ++ (b ∷ [])) ≡ be_value_from acc bs * 256 + b
unfolding be_value_from
be_value_from-append acc [] b = refl
be_value_from-append acc (c ∷ bs) b = be_value_from-append (acc * 256 + c) bs b

be_value-append : (bs : Bytes) (b : ℕ) → be_value (bs ++ (b ∷ [])) ≡ be_value bs * 256 + b
unfolding be_value
be_value-append bs b = be_value_from-append 0 bs b

pub be_value-be_bytes : (n x : ℕ) → x < 256 ^ n → be_value (be_bytes n x) ≡ x
unfolding be_bytes be_value be_value_from
be_value-be_bytes zero x h = omega arith
be_value-be_bytes (suc n) x h =
    be_value-append (be_bytes n (x / 256)) (x % 256)
    ∙ omega (arith, be_value-be_bytes n (x / 256) (omega (arith, pow-suc 256 n)))

-- A list that is not empty has a last element.
snoc_cases :
    (n : ℕ) (bs : Bytes)
    → length bs ≡ suc n
    → (ys : Bytes) × (y : ℕ) × (bs ≡ ys ++ (y ∷ [])) × (length ys ≡ n)
snoc_cases n [] h = absurd (omega arith)
snoc_cases zero (b ∷ []) h = ([], b, refl, refl)
snoc_cases zero (b ∷ c ∷ bs) h = absurd (omega arith)
snoc_cases (suc n) (b ∷ bs) h =
    let (ys, y, e, l) = snoc_cases n bs (omega arith) in (b ∷ ys, y, rw e, omega arith)

All-front : (ys zs : Bytes) → All IsByte (ys ++ zs) → All IsByte ys × All IsByte zs
All-front [] zs h = (tt, h)
All-front (y ∷ ys) zs h = let (a, b) = All-front ys zs h.1 in ((h.0, a), b)

pub be_bytes-be_value :
    (n : ℕ) (bs : Bytes) → length bs ≡ n → All IsByte bs → be_bytes n (be_value bs) ≡ bs
unfolding be_bytes
be_bytes-be_value zero [] l h = refl
be_bytes-be_value zero (b ∷ bs) l h = absurd (omega arith)
be_bytes-be_value (suc n) bs l h =
    let (ys, y, e, k) = snoc_cases n bs l in
    rw e (last_step n ys y (All-front ys (y ∷ []) (rw e at h)) (be_bytes-be_value n ys k))
  where
    last_step :
        (n : ℕ) (ys : Bytes) (y : ℕ)
        → All IsByte ys × All IsByte (y ∷ [])
        → (All IsByte ys → be_bytes n (be_value ys) ≡ ys)
        → be_bytes (suc n) (be_value (ys ++ (y ∷ []))) ≡ ys ++ (y ∷ [])
    last_step n ys y h ih =
        let q : be_value (ys ++ (y ∷ [])) / 256 ≡ be_value ys =
          omega (arith, be_value-append ys y) in
        let r : be_value (ys ++ (y ∷ [])) % 256 ≡ y = omega (arith, be_value-append ys y) in
        rw (q, r, ih h.0)

be_value-lt_step : (n : ℕ) (bs : Bytes) → length bs ≡ n → All IsByte bs → be_value bs < 256 ^ n
unfolding be_value be_value_from
be_value-lt_step zero [] l h = omega arith
be_value-lt_step zero (b ∷ bs) l h = absurd (omega arith)
be_value-lt_step (suc n) bs l h =
    let (ys, y, e, k) = snoc_cases n bs l in
    let p = All-front ys (y ∷ []) (rw e at h) in
    rw e (omega (arith, be_value-append ys y, be_value-lt_step n ys k p.0, pow-suc 256 n, p.1.0))

pub be_value-lt : (n : ℕ) (bs : Bytes) → length bs ≡ n → All IsByte bs → be_value bs < 256 ^ n
be_value-lt n bs l h = be_value-lt_step n bs l h
