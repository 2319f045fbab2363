-- ===== src/Buffer/Trim.antt =====
-- Trimming takes the padding off a token, that is, a text of visible ASCII characters.
use mathlib.Core.List.{reverse, reverse-reverse, reverse-append, reverse-cons}
use ecstoolkit.Base.{
  ℕ, zero, suc, ◌≤◌, ◌≡◌, refl, ap, ◌∙◌, [], ◌∷◌, ◌++◌, append-nil, arith, All, All-append,
  replicate,
}
use ecstoolkit.Buffer.{
  Bytes, trim_nul, trim_left_nul, trim_front, trim_space, space_width, space_width_back,
}

abbrev pub IsVisible : ℕ → Type 0
IsVisible b = (33 ≤ b) × (b ≤ 126)

abbrev pub IsToken : Bytes → Type 0
IsToken = All IsVisible

IsNonzero : ℕ → Type 0
IsNonzero b = 1 ≤ b

All-reverse {κ} : (P : ℕ → Type κ) (xs : Bytes) → All P xs → All P (reverse xs)
All-reverse P [] h = tt
All-reverse P (x ∷ xs) h =
    rw (reverse-cons x xs) (All-append P (reverse xs) (x ∷ []) (All-reverse P xs h.1) (h.0, tt))

trim_left_nul_id : (xs : Bytes) → All IsNonzero xs → trim_left_nul xs ≡ xs
unfolding trim_left_nul IsNonzero
trim_left_nul_id [] h = refl
trim_left_nul_id (x ∷ xs) h = ground arith

trim_nul_id : (xs : Bytes) → All IsNonzero xs → trim_nul xs ≡ xs
unfolding trim_nul
trim_nul_id xs h =
    rw (trim_left_nul_id xs h, trim_left_nul_id (reverse xs) (All-reverse IsNonzero xs h))
      (reverse-reverse xs)

-- A width function that takes a space for one byte of white space and stops at a visible character.
IsWidth : (Bytes → ℕ) → Type 0
IsWidth width =
    ((t : Bytes) → width (32 ∷ t) ≡ 1) × ((b : ℕ) (t : Bytes) → IsVisible b → width (b ∷ t) ≡ 0)

space_width-IsWidth : IsWidth space_width
unfolding IsWidth space_width
space_width-IsWidth = (λ t. at_space t, λ b t h. at_visible b t h)
  where
    at_space : (t : Bytes) → space_width (32 ∷ t) ≡ 1
    at_space [] = refl
    at_space (x ∷ []) = refl
    at_space (x ∷ y ∷ t) = refl

    at_visible : (b : ℕ) (t : Bytes) → IsVisible b → space_width (b ∷ t) ≡ 0
    at_visible b [] h = ground arith
    at_visible b (x ∷ []) h = ground arith
    at_visible b (x ∷ y ∷ t) h = ground arith

space_width_back-IsWidth : IsWidth space_width_back
unfolding IsWidth space_width_back
space_width_back-IsWidth = (λ t. at_space t, λ b t h. at_visible b t h)
  where
    at_space : (t : Bytes) → space_width_back (32 ∷ t) ≡ 1
    at_space [] = refl
    at_space (x ∷ []) = refl
    at_space (x ∷ y ∷ t) = refl

    at_visible : (b : ℕ) (t : Bytes) → IsVisible b → space_width_back (b ∷ t) ≡ 0
    at_visible b [] h = ground arith
    at_visible b (x ∷ []) h = ground arith
    at_visible b (x ∷ y ∷ t) h = ground arith

trim_front-spaces :
    (width : Bytes → ℕ) (n : ℕ) (t : Bytes)
    → IsWidth width
    → trim_front width 0 (replicate n 32 ++ t) ≡ trim_front width 0 t
unfolding trim_front IsWidth
trim_front-spaces width zero t w = refl
trim_front-spaces width (suc n) t w =
    rw (w.0 (replicate n 32 ++ t), trim_front) (trim_front-spaces width n t w)

trim_front-token :
    (width : Bytes → ℕ) (s : Bytes) → IsWidth width → IsToken s → trim_front width 0 s ≡ s
unfolding trim_front IsWidth
trim_front-token width [] w h = refl
trim_front-token width (x ∷ s) w h = rw (w.1 x s h.0, trim_front)

trim_front-stop :
    (width : Bytes → ℕ) (x : ℕ) (s : Bytes)
    → IsWidth width
    → IsVisible x
    → trim_front width 0 (x ∷ s) ≡ x ∷ s
unfolding trim_front IsWidth
trim_front-stop width x s w h = rw (w.1 x s h, trim_front)

reverse-replicate : (n v : ℕ) → reverse (replicate n v) ≡ replicate n v
reverse-replicate zero v = refl
reverse-replicate (suc n) v = reverse-cons v (replicate n v) ∙ rw (reverse-replicate n v) (snoc n v)
  where
    snoc : (n v : ℕ) → replicate n v ++ (v ∷ []) ≡ v ∷ replicate n v
    snoc zero v = refl
    snoc (suc n) v = ap (◌∷◌ v) (snoc n v)

trim_space-padding : (s : Bytes) (n : ℕ) → IsToken s → trim_space (s ++ replicate n 32) ≡ s
unfolding trim_space
trim_space-padding [] n h = rw (blanks n)
  where
    blanks : (n : ℕ) → trim_front space_width 0 (replicate n 32) ≡ []
    blanks n =
        rw (← append-nil {A = ℕ} (replicate n 32))
          (trim_front-spaces space_width n [] space_width-IsWidth)
trim_space-padding (x ∷ s) n h =
    rw (trim_front-stop space_width x (s ++ replicate n 32) space_width-IsWidth h.0) (
      rw (reverse-append (x ∷ s) (replicate n 32), reverse-replicate n 32)
        (rw (trim_front-spaces space_width_back n (reverse (x ∷ s)) space_width_back-IsWidth) (
          rw
            (trim_front-token space_width_back (reverse (x ∷ s)) space_width_back-IsWidth
              (All-reverse IsVisible (x ∷ s) h))
            (reverse-reverse (x ∷ s)))))

-- What `GetString` makes of a token that `PutString` has padded with spaces.
pub trim-padding : (s : Bytes) (n : ℕ) → IsToken s → trim_space (trim_nul (s ++ replicate n 32)) ≡ s
unfolding IsNonzero
trim-padding s n h =
    rw
      (trim_nul_id (s ++ replicate n 32)
        (All-append IsNonzero s (replicate n 32) (nonzero s h) (spaces n)))
      (trim_space-padding s n h)
  where
    nonzero : (s : Bytes) → IsToken s → All IsNonzero s
    nonzero [] h = tt
    nonzero (x ∷ s) h = (omega arith, nonzero s h.1)

    spaces : (n : ℕ) → All IsNonzero (replicate n 32)
    spaces zero = tt
    spaces (suc n) = (omega arith, spaces n)
