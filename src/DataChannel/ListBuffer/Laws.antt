-- ===== src/DataChannel/ListBuffer/Laws.antt =====
-- The buffer as a queue that forgets its oldest element when it is full.
use ecstoolkit.Base.{
  ℕ, suc, ◌≤◌, ◌<◌, ◌≡◌, refl, Bool, true, false, List, [], ◌∷◌, ◌++◌, Option, some, none, ok,
  arith, length, ◌-◌, ◌==◌, All, length-append, length-drop, drop, Bool-cases, inl, inr,
}
use ecstoolkit.DataChannel.ListBuffer.{ListMessageBuffer, force_push_back, remove_if, remove_first}

module _ {ℓ} {T : Type ℓ} where
  -- The elements that a push leaves room beside.
  abbrev pub kept : ListMessageBuffer T → List T
  kept b = drop (suc (length b.messages) - b.capacity) b.messages

  push_lem :
      (xs : List T) (n : ℕ) (item : T)
      → 0 < n
      → length xs ≤ n
      → force_push_back (record { messages = xs; capacity = n }) item
        ≡ ok (record { messages = drop (suc (length xs) - n) xs ++ (item ∷ []); capacity = n })
  unfolding force_push_back
  push_lem [] n item p h =
      let e : (0 == n) ≡ false = ground arith in let z : 1 - n ≡ 0 = omega arith in rw e (rw z refl)
  push_lem (x ∷ xs) n item p h = elim (Bool-cases (suc (length xs) == n)) [
    | inl e ↦ let z : suc (suc (length xs)) - n ≡ 1 = ground arith in rw e (rw z refl)
    | inr e ↦ let z : suc (suc (length xs)) - n ≡ 0 = ground arith in rw e (rw z refl)
  ]

  -- With some capacity a push does not fail: it puts the element at the end, and if the buffer is full the
  -- oldest element makes room.
  pub force_push_back_lem :
      (b : ListMessageBuffer T) (item : T)
      → 0 < b.capacity
      → length b.messages ≤ b.capacity
      → force_push_back b item ≡ ok (record b { messages = kept b ++ (item ∷ []) })
  force_push_back_lem b item p h = push_lem b.messages b.capacity item p h

  -- The buffer stays within its capacity.
  pub force_push_back_bounded :
      (b : ListMessageBuffer T) (item : T)
      → 0 < b.capacity
      → length b.messages ≤ b.capacity
      → length (kept b ++ (item ∷ [])) ≤ b.capacity
  force_push_back_bounded b item p h = omega (
    arith,
    length-append (kept b) (item ∷ []),
    length-drop (suc (length b.messages) - b.capacity) b.messages,
  )

  -- No element of the list satisfies the predicate.
  abbrev pub NoneOf : (T → Bool) → List T → Type 0
  NoneOf p = All (λ x. p x ≡ false)

  -- How a search splits the list.
  pub data Search (p : T → Bool) : List T → Option T × List T → Type ℓ where
    missing : (xs : List T) → NoneOf p xs → Search p xs (none, xs)
    hit :
        (xs : List T) (x : T) (ys : List T)
        → NoneOf p xs
        → p x ≡ true
        → Search p (xs ++ (x ∷ ys)) (some x, xs ++ ys)

  later :
      (p : T → Bool) (x : T) (xs : List T) (r : Option T × List T)
      → p x ≡ false
      → Search p xs r
      → Search p (x ∷ xs) (r.0, x ∷ r.1)
  later p x _ _ e (missing xs h) = missing (x ∷ xs) (e, h)
  later p x _ _ e (hit xs y ys h q) = hit (x ∷ xs) y ys (e, h) q

  remove_first_lem : (p : T → Bool) (xs : List T) → Search p xs (remove_first p xs)
  unfolding remove_first
  remove_first_lem p [] = missing [] tt
  remove_first_lem p (x ∷ xs) = elim (Bool-cases (p x)) [
    | inl e ↦ rw e (hit [] x xs tt e)
    | inr e ↦ rw e (later p x xs (remove_first p xs) e (remove_first_lem p xs))
  ]

  -- `RemoveIf` takes out the first element that the predicate holds of, and nothing else; if there is none
  -- the buffer stays as it is. The capacity stays.
  pub remove_if_lem :
      (b : ListMessageBuffer T) (p : T → Bool)
      → Search p b.messages ((remove_if b p).0, (remove_if b p).1.messages)
        × ((remove_if b p).1.capacity ≡ b.capacity)
  unfolding remove_if
  remove_if_lem b p = (remove_first_lem p b.messages, refl)
