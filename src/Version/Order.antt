-- ===== src/Version/Order.antt =====
-- The comparison of versions as an order.
use mathlib.Core.Path.{subst}
use ecstoolkit.Base.{
  ℤ, pos, negsuc, ltb_ℤ, eqb_ℤ_iff, true, false, List, [], ◌∷◌, Result, ok, err, length_mismatch,
  ◌≡◌, ◌≢◌, refl, ◌∙◌, ◌↔◌, length, arith, if◌then◌else◌, Bool-cases, inl, inr, sym, ◌==◌,
}
use ecstoolkit.Buffer.{Bytes}
use ecstoolkit.Version.{compare_parts, compare}

-- The first list is greater at the first place where the two differ.
pub data Newer : List ℤ → List ℤ → Type 0 where
  greater : (a b : ℤ) (as' bs : List ℤ) → ltb_ℤ b a ≡ true → Newer (a ∷ as') (b ∷ bs)
  equal : (a : ℤ) (as' bs : List ℤ) → Newer as' bs → Newer (a ∷ as') (a ∷ bs)

module _ (atoi : Bytes → Result ℤ) where
  -- The parts of a version are the numbers of a list.
  pub data Parses : List Bytes → List ℤ → Type 0 where
    none : Parses [] []
    more :
        (x : Bytes) (xs : List Bytes) (n : ℤ) (ns : List ℤ)
        → atoi x ≡ ok n
        → Parses xs ns
        → Parses (x ∷ xs) (n ∷ ns)

  part :
      (x y : Bytes) (a b : ℤ) (xs ys : List Bytes)
      → atoi x ≡ ok a
      → atoi y ≡ ok b
      → compare_parts atoi (x ∷ xs) (y ∷ ys) ≡ (
          if ltb_ℤ b a
          then ok (pos 1)
          else if ltb_ℤ a b
          then ok (negsuc 0)
          else compare_parts atoi xs ys)
  unfolding compare_parts
  part x y a b xs ys p q = rw p (rw q refl)

  same : (a b : ℤ) → ltb_ℤ a b ≡ false → ltb_ℤ b a ≡ false → a ≡ b
  same a b p q = (eqb_ℤ_iff a b).0 (ground arith)

  not_self : (a : ℤ) → ltb_ℤ a a ≡ false
  not_self a = ground arith

  parts-Newer :
      (xs ys : List Bytes) (ms ns : List ℤ)
      → Parses xs ms
      → Parses ys ns
      → length xs ≡ length ys
      → compare_parts atoi xs ys ≡ ok (pos 1)
      → Newer ms ns
  unfolding compare_parts
  parts-Newer _ _ _ _ none none l e = absurd (ground arith)
  parts-Newer _ _ _ _ none (more y ys b bs q qs) l e = absurd (omega arith)
  parts-Newer _ _ _ _ (more x xs a as' p ps) none l e = absurd (omega arith)
  parts-Newer _ _ _ _ (more x xs a as' p ps) (more y ys b bs q qs) l e =
      let e' = sym (part x y a b xs ys p q) ∙ e in
      elim (Bool-cases (ltb_ℤ b a)) [
        | inl g ↦ greater a b as' bs g
        | inr g ↦ elim (Bool-cases (ltb_ℤ a b)) [
          | inl h ↦ absurd (ground (arith, e', g, h))
          | inr h ↦
              let r : compare_parts atoi xs ys ≡ ok (pos 1) = ground (arith, e', g, h) in
              subst (λ c. Newer (a ∷ as') (c ∷ bs)) (same a b h g)
                (equal a as' bs (parts-Newer xs ys as' bs ps qs (omega arith) r))
        ]
      ]

  Newer-parts :
      (xs ys : List Bytes) (ms ns : List ℤ)
      → Parses xs ms
      → Parses ys ns
      → Newer ms ns
      → compare_parts atoi xs ys ≡ ok (pos 1)
  Newer-parts _ ys _ ns none _ g = elim g [ ]
  Newer-parts _ _ _ _ (more x xs n ns p ps) none g = elim g [ ]
  Newer-parts _ _ _ _ (more x xs _ _ p ps) (more y ys _ _ q qs) (greater a b as' bs g) =
      part x y a b xs ys p q ∙ rw g refl
  Newer-parts _ _ _ _ (more x xs _ _ p ps) (more y ys _ _ q qs) (equal a as' bs g) =
      part x y a a xs ys p q ∙ rw (not_self a) (Newer-parts xs ys as' bs ps qs g)

  -- Two versions with equally many parts, all of which are numbers, compare as 1 exactly if the first is
  -- greater at the first place where they differ.
  pub compare_iff :
      (xs ys : List Bytes) (ms ns : List ℤ)
      → Parses xs ms
      → Parses ys ns
      → length xs ≡ length ys
      → (compare atoi xs ys ≡ ok (pos 1)) ↔ Newer ms ns
  unfolding compare
  compare_iff xs ys ms ns p q l =
      let t : (length xs == length ys) ≡ true = ground arith in
      rw t (parts-Newer xs ys ms ns p q l, Newer-parts xs ys ms ns p q)

  -- Versions with different numbers of parts do not compare, whatever their parts are.
  pub compare-length :
      (xs ys : List Bytes) → length xs ≢ length ys → compare atoi xs ys ≡ err length_mismatch
  unfolding compare
  compare-length xs ys l = ground arith
