-- ===== src/DataChannel/MapBuffer/Laws.antt =====
-- The buffer as a partial map of bounded size.
use ecstoolkit.Base.{
  ◌≤◌, ◌≡◌, refl, sym, ◌∙◌, ◌≢◌, false, List, [], ◌∷◌, some, none, arith, length, if◌then◌else◌,
  Option-cases, inl, inr, Bool-cases, ◌==◌, not, ◌&&◌, ◌⊎◌, suc,
}
use ecstoolkit.DataChannel.MapBuffer.{
  Comparable, MapMessageBuffer, lookup, assign, delete, get, set_unless_full, remove, is_full,
}

module _ {ℓ κ} {K : Type ℓ} {V : Type κ} ⦃c : Comparable K⦄ where
  -- No key stands twice.
  abbrev pub Distinct : List (K × V) → Type κ
  Distinct [] = Unit
  Distinct ((k, v) ∷ m) = (lookup k m ≡ none) × Distinct m

  pub record IsValid (b : MapMessageBuffer K V) : Type κ where
    pub distinct : Distinct b.messages
    pub bounded : length b.messages ≤ b.capacity

  pub lookup-assign :
      (j k : K) (v : V) (m : List (K × V))
      → lookup j (assign k v m) ≡ (if c.eqb k j then some v else lookup j m)
  unfolding lookup assign
  lookup-assign j k v [] = refl
  lookup-assign j k v ((i, w) ∷ m) =
      ground (arith, c.eqb_iff i k, c.eqb_iff i j, c.eqb_iff k j, lookup-assign j k v m)

  pub lookup-delete :
      (j k : K) (m : List (K × V))
      → Distinct m
      → lookup j (delete k m) ≡ (if c.eqb k j then none else lookup j m)
  unfolding lookup delete
  lookup-delete j k [] d = ground arith
  lookup-delete j k ((i, w) ∷ m) d =
      ground (arith, c.eqb_iff i k, c.eqb_iff i j, c.eqb_iff k j, lookup-delete j k m d.1, d.0)

  -- Without the key there is nothing to take from it.
  absent :
      (j k : K) (m : List (K × V))
      → lookup k m ≡ none
      → lookup j m ≡ (if c.eqb k j then none else lookup j m)
  unfolding lookup
  absent j k [] e = ground arith
  absent j k ((i, w) ∷ m) e =
      ground (arith, c.eqb_iff i k, c.eqb_iff i j, c.eqb_iff k j, absent j k m)

  length-assign :
      (k : K) (v : V) (m : List (K × V))
      → (lookup k m ≡ none × length (assign k v m) ≡ suc (length m))
        ⊎ (lookup k m ≢ none × length (assign k v m) ≡ length m)
  unfolding lookup assign
  length-assign k v [] = inl (refl, refl)
  length-assign k v ((i, w) ∷ m) = ground (arith, length-assign k v m)

  assign-Distinct : (k : K) (v : V) (m : List (K × V)) → Distinct m → Distinct (assign k v m)
  unfolding lookup assign
  assign-Distinct k v [] d = (refl, tt)
  assign-Distinct k v ((i, w) ∷ m) d =
      ground
        (arith, c.eqb_iff i k, c.eqb_iff k i, assign-Distinct k v m d.1, lookup-assign i k v m, d)

  delete-Distinct : (k : K) (m : List (K × V)) → Distinct m → Distinct (delete k m)
  unfolding delete
  delete-Distinct k [] d = tt
  delete-Distinct k ((i, w) ∷ m) d =
      ground
        (arith, c.eqb_iff i k, c.eqb_iff k i, delete-Distinct k m d.1, lookup-delete i k m d.1, d)

  -- A key that is there takes one element with it.
  pub length-delete :
      (k : K) (v : V) (m : List (K × V))
      → lookup k m ≡ some v
      → suc (length (delete k m)) ≡ length m
  unfolding lookup delete
  length-delete k v [] e = cc
  length-delete k v ((i, w) ∷ m) e = ground (arith, length-delete k v m)

  -- `SetUnlessFull` keeps the keys distinct and the length within the capacity.
  set_unless_full-IsValid :
      (b : MapMessageBuffer K V) (k : K) (v : V) → IsValid b → IsValid (set_unless_full b k v).1
  unfolding set_unless_full
  set_unless_full-IsValid b k v h = elim (Bool-cases (length b.messages == b.capacity)) [
    | inl e ↦ rw e h
    | inr e ↦ rw e (record {
      distinct = assign-Distinct k v b.messages h.distinct;
      bounded = ground (arith, length-assign k v b.messages, h.bounded);
    })
  ]

  remove-none :
      (b : MapMessageBuffer K V) (k : K) → lookup k b.messages ≡ none → remove b k ≡ (none, b)
  unfolding remove
  remove-none b k e = rw (e, remove) refl

  pub remove-some :
      (b : MapMessageBuffer K V) (k : K) (v : V)
      → lookup k b.messages ≡ some v
      → remove b k ≡ (some v, record b { messages = delete k b.messages })
  unfolding remove
  remove-some b k v e = rw (e, remove) refl

  -- `Remove` keeps the keys distinct and the length within the capacity.
  remove-IsValid : (b : MapMessageBuffer K V) (k : K) → IsValid b → IsValid (remove b k).1
  remove-IsValid b k h = elim (Option-cases (lookup k b.messages)) [
    | inl e ↦ rw (remove-none b k e) h
    | inr (v, e) ↦ rw (remove-some b k v e) (record {
      distinct = delete-Distinct k b.messages h.distinct;
      bounded = omega (arith, length-delete k v b.messages e, h.bounded);
    })
  ]

  -- Both operations that change a valid buffer leave it valid, whether they find room, or the key, or not:
  -- its keys stay distinct and its length stays within its capacity.
  pub change-IsValid :
      (b : MapMessageBuffer K V) (k : K) (v : V)
      → IsValid b
      → IsValid (set_unless_full b k v).1 × IsValid (remove b k).1
  change-IsValid b k v h = (set_unless_full-IsValid b k v h, remove-IsValid b k h)

  -- What `SetUnlessFull` says is whether there was room. With room the key then has the item, without it
  -- nothing changes, and no other key does either way.
  pub set_unless_full_lem :
      (b : MapMessageBuffer K V) (k : K) (v : V) (j : K)
      → ((set_unless_full b k v).0 ≡ not (is_full b))
        × (get (set_unless_full b k v).1 j
            ≡ (if not (is_full b) && c.eqb k j then some v else get b j))
  unfolding set_unless_full is_full get
  set_unless_full_lem b k v j = elim (Bool-cases (length b.messages == b.capacity)) [
    | inl e ↦ rw e (refl, refl)
    | inr e ↦ rw e (refl, lookup-assign j k v b.messages)
  ]

  pub set-room :
      (b : MapMessageBuffer K V) (k : K) (v : V) (j : K)
      → is_full b ≡ false
      → get (set_unless_full b k v).1 j ≡ (if c.eqb k j then some v else get b j)
  set-room b k v j e = (set_unless_full_lem b k v j).1 ∙ rw e refl

  -- `Remove` returns what the key had, after which the key has nothing and the others what they had.
  pub remove_lem :
      (b : MapMessageBuffer K V) (k j : K)
      → IsValid b
      → ((remove b k).0 ≡ get b k) × (get (remove b k).1 j ≡ (if c.eqb k j then none else get b j))
  unfolding get
  remove_lem b k j h = elim (Option-cases (lookup k b.messages)) [
    | inl e ↦ rw (remove-none b k e) (sym e, absent j k b.messages e)
    | inr (v, e) ↦ rw (remove-some b k v e) (sym e, lookup-delete j k b.messages h.distinct)
  ]
