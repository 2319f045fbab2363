-- ===== src/DataChannel/Receiving/Aside.antt =====
-- The messages put aside, as the numbers that they stand under.
use mathlib.Core.Path.{subst}
use ecstoolkit.Base.{
  ℕ, suc, ◌+◌, ◌<◌, ◌≡◌, refl, sym, ap, All, ℤ, pos, pos_part, eqb_ℤ, eqb_ℤ_iff, Bool-cases, inl,
  inr, true, false, List, [], ◌∷◌, some, none, arith, length, half64,
}
use ecstoolkit.Buffer.{Bytes}
use ecstoolkit.DataChannel.MapBuffer.{lookup, assign, delete}
use ecstoolkit.DataChannel.State.{StreamingMessage, int64_comparable}
use ecstoolkit.DataChannel.Receiving.Reference.{member, put, take_out}

abbrev pub number_of : ℤ × StreamingMessage → ℕ
number_of e = pos_part e.0

unfoldable pub numbers_of : List (ℤ × StreamingMessage) → List ℕ
numbers_of [] = []
numbers_of (e ∷ es) = number_of e ∷ numbers_of es

pub length-numbers_of : (es : List (ℤ × StreamingMessage)) → length (numbers_of es) ≡ length es
unfolding numbers_of
length-numbers_of [] = refl
length-numbers_of (e ∷ es) = ap suc (length-numbers_of es)

module _ (wire : ℕ → Bytes) where
  -- An entry holds the bytes of the peer's message with the number that it stands under.
  pub record IsEntry (e : ℤ × StreamingMessage) : Type 0 where
    pub key : e.0 ≡ pos (number_of e)
    pub number : e.1.sequence_number ≡ e.0
    pub content : e.1.content ≡ wire (number_of e)
    pub small : number_of e + 1 < half64

  pub lookup-member :
      (k : ℕ) (es : List (ℤ × StreamingMessage))
      → All IsEntry es
      → member k (numbers_of es) ≡ false
      → lookup (pos k) es ≡ none
  unfolding lookup member numbers_of
  lookup-member k [] a m = refl
  lookup-member k (e ∷ es) a m = ground (arith, a.0.key, lookup-member k es a.1)

  pub record Found (k : ℕ) (es : List (ℤ × StreamingMessage)) : Type 0 where
    pub message : StreamingMessage
    pub found : lookup (pos k) es ≡ some message
    pub entry : IsEntry (pos k, message)

  pub member-Found :
      (k : ℕ) (es : List (ℤ × StreamingMessage))
      → All IsEntry es
      → member k (numbers_of es) ≡ true
      → Found k es
  unfolding lookup member numbers_of
  member-Found k [] a m = cc
  member-Found k (e ∷ es) a m = elim (Bool-cases (eqb_ℤ e.0 (pos k))) [
    | inl q ↦ record {
      message = e.1;
      found = rw q refl;
      entry = subst (λ j. IsEntry (j, e.1)) ((eqb_ℤ_iff e.0 (pos k)).0 q) a.0;
    }
    | inr q ↦
        let rest = member-Found k es a.1 (ground (arith, a.0.key)) in
        record { message = rest.message; found = rw q rest.found; entry = rest.entry }
  ]

  pub numbers_of-delete :
      (k : ℕ) (es : List (ℤ × StreamingMessage))
      → All IsEntry es
      → numbers_of (delete (pos k) es) ≡ take_out k (numbers_of es)
  unfolding delete take_out numbers_of
  numbers_of-delete k [] a = refl
  numbers_of-delete k (e ∷ es) a = ground (arith, a.0.key, numbers_of-delete k es a.1)

  pub numbers_of-assign :
      (k : ℕ) (v : StreamingMessage) (es : List (ℤ × StreamingMessage))
      → All IsEntry es
      → numbers_of (assign (pos k) v es) ≡ put k (numbers_of es)
  unfolding assign put numbers_of
  numbers_of-assign k v [] a = refl
  numbers_of-assign k v (e ∷ es) a = ground (arith, a.0.key, numbers_of-assign k v es a.1)

  pub delete-entries :
      (k : ℕ) (es : List (ℤ × StreamingMessage)) → All IsEntry es → All IsEntry (delete (pos k) es)
  unfolding delete
  delete-entries k [] a = tt
  delete-entries k (e ∷ es) a = ground (arith, a, delete-entries k es a.1)

  pub assign-entries :
      (k : ℕ) (v : StreamingMessage) (es : List (ℤ × StreamingMessage))
      → All IsEntry es
      → IsEntry (pos k, v)
      → All IsEntry (assign (pos k) v es)
  unfolding assign
  assign-entries k v [] a n = (n, tt)
  assign-entries k v (e ∷ es) a n = elim (Bool-cases (eqb_ℤ e.0 (pos k))) [
    | inl q ↦ rw q (subst (λ j. IsEntry (j, v)) (sym ((eqb_ℤ_iff e.0 (pos k)).0 q)) n, a.1)
    | inr q ↦ rw q (a.0, assign-entries k v es a.1 n)
  ]
