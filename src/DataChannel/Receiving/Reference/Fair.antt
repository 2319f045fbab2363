-- ===== src/DataChannel/Receiving/Reference/Fair.antt =====
-- The reference takes exactly the numbers that have come without a gap.
use ecstoolkit.Base.{
  ℕ, zero, suc, ◌+◌, ◌-◌, ◌≤◌, ◌<◌, ◌≡◌, refl, sym, ◌∙◌, ap, true, false, ◌||◌, List, [], ◌∷◌,
  arith, length, ◌==◌, ltb, Bool-cases, inl, inr,
}
use ecstoolkit.DataChannel.Receiving.Reference.{
  Receiver, member, put, take_out, take_up, arrive, arrive_all, biggest, gapless, in_order,
  member-put, member-take_out, member-le-biggest, length-take_out, length-put,
}

-- The state `r` after the numbers from `n` on that were aside have been taken up.
record IsTakenUp (n : ℕ) (aside : List ℕ) (r : Receiver) : Type 0 where
  pub low : n ≤ r.next
  pub stop : member r.next r.aside ≡ false
  pub taken : (k : ℕ) → n ≤ k → k < r.next → member k aside ≡ true
  pub kept : (k : ℕ) → member k aside ≡ true → n ≤ k → (ltb k r.next || member k r.aside) ≡ true
  pub left : (k : ℕ) → member k r.aside ≡ true → member k aside ≡ true
  pub size : length r.aside ≤ length aside

member_of_taken : (j k : ℕ) (xs : List ℕ) → member j (take_out k xs) ≡ true → member j xs ≡ true
unfolding member take_out
member_of_taken j k [] h = h
member_of_taken j k (x ∷ xs) h = ground (arith, member_of_taken j k xs)

stopped :
    (n : ℕ) (aside : List ℕ)
    → member n aside ≡ false
    → IsTakenUp n aside (record { next = n; aside = aside })
stopped n aside e = record {
  low = omega arith;
  stop = e;
  taken = λ k l u. absurd (omega arith);
  kept = λ k m l. ground arith;
  left = λ k m. m;
  size = omega arith;
}

more :
    (n : ℕ) (aside : List ℕ) (r : Receiver)
    → member n aside ≡ true
    → IsTakenUp (suc n) (take_out n aside) r
    → IsTakenUp n aside r
more n aside r e t = record {
  low = omega (arith, t.low);
  stop = t.stop;
  taken = λ k l u. ground (arith, e, t.taken k, member_of_taken k n aside);
  kept = λ k m l. ground (arith, t.kept k, t.low, member-take_out k n aside);
  left = λ k m. member_of_taken k n aside (t.left k m);
  size = omega (arith, t.size, length-take_out n aside e);
}

take_up-IsTakenUp :
    (fuel n : ℕ) (aside : List ℕ) → length aside < fuel → IsTakenUp n aside (take_up fuel n aside)
unfolding take_up
take_up-IsTakenUp zero n aside h = absurd (omega arith)
take_up-IsTakenUp (suc fuel) n aside h = elim (Bool-cases (member n aside)) [
  | inl e ↦ rw e (
      more n aside _ e (
        take_up-IsTakenUp fuel (suc n) (take_out n aside)
          (omega (arith, length-take_out n aside e))))
  | inr e ↦ rw e (stopped n aside e)
]

-- Of what has come, `seen`, the numbers from `n` on without a gap are taken, and the others are aside.
pub record IsFair (n : ℕ) (seen : List ℕ) (r : Receiver) : Type 0 where
  pub low : n ≤ r.next
  pub stop : member r.next r.aside ≡ false
  pub taken : (k : ℕ) → n ≤ k → k < r.next → member k seen ≡ true
  pub kept : (k : ℕ) → member k seen ≡ true → (ltb k r.next || member k r.aside) ≡ true
  pub left : (k : ℕ) → member k r.aside ≡ true → member k seen ≡ true
  pub size : length r.aside ≤ length seen

next-IsFair :
    (n k : ℕ) (seen : List ℕ) (r : Receiver)
    → k ≡ r.next
    → IsFair n seen r
    → IsFair n (k ∷ seen) (take_up (suc (length r.aside)) (suc r.next) r.aside)
unfolding member
next-IsFair n k seen r e f =
    let t = take_up-IsTakenUp (suc (length r.aside)) (suc r.next) r.aside (omega arith) in
    record {
      low = omega (arith, t.low, f.low);
      stop = t.stop;
      taken = λ j l u. ground (arith, e, f.taken j, t.taken j, f.left j);
      kept = λ j m. ground (arith, e, f.kept j, t.kept j, t.low);
      left = λ j m. ground (arith, t.left j m, f.left j);
      size = omega (arith, t.size, f.size);
    }

put-IsFair :
    (n k : ℕ) (seen : List ℕ) (r : Receiver)
    → r.next < k
    → IsFair n seen r
    → IsFair n (k ∷ seen) (record { next = r.next; aside = put k r.aside })
unfolding member
put-IsFair n k seen r l f = record {
  low = f.low;
  stop = ground (arith, f.stop, member-put r.next k r.aside);
  taken = λ j a b. ground (arith, f.taken j);
  kept = λ j m. ground (arith, f.kept j, member-put j k r.aside);
  left = λ j m. ground (arith, f.left j, member-put j k r.aside);
  size = omega (arith, f.size, length-put k r.aside);
}

old-IsFair :
    (n k : ℕ) (seen : List ℕ) (r : Receiver) → k < r.next → IsFair n seen r → IsFair n (k ∷ seen) r
unfolding member
old-IsFair n k seen r l f = record {
  low = f.low;
  stop = f.stop;
  taken = λ j a b. ground (arith, f.taken j);
  kept = λ j m. ground (arith, f.kept j);
  left = λ j m. ground (arith, f.left j);
  size = omega (arith, f.size);
}

arrive-IsFair :
    (capacity n k : ℕ) (seen : List ℕ) (r : Receiver)
    → length seen < capacity
    → IsFair n seen r
    → IsFair n (k ∷ seen) (arrive capacity k r)
unfolding arrive
arrive-IsFair capacity n k seen r room f = elim (Bool-cases (k == r.next)) [
  | inl e ↦ rw e (next-IsFair n k seen r (ground arith) f)
  | inr e ↦
      let full : (length r.aside == capacity) ≡ false = ground (arith, f.size, room) in
      elim (Bool-cases (ltb r.next k)) [
        | inl l ↦ rw (e, l, full) (put-IsFair n k seen r (ground arith) f)
        | inr l ↦ rw (e, l) (old-IsFair n k seen r (ground arith) f)
      ]
]

-- What has been seen when `ks` have come after `seen`.
abbrev after : List ℕ → List ℕ → List ℕ
after [] seen = seen
after (k ∷ ks) seen = after ks (k ∷ seen)

member-after :
    (j : ℕ) (ks seen : List ℕ) → member j (after ks seen) ≡ (member j ks || member j seen)
unfolding member
member-after j [] seen = refl
member-after j (k ∷ ks) seen = ground (arith, member-after j ks (k ∷ seen))

arrive_all-IsFair :
    (capacity n : ℕ) (ks seen : List ℕ) (r : Receiver)
    → length seen + length ks ≤ capacity
    → IsFair n seen r
    → IsFair n (after ks seen) (arrive_all capacity ks r)
unfolding arrive_all
arrive_all-IsFair capacity n [] seen r room f = f
arrive_all-IsFair capacity n (k ∷ ks) seen r room f =
    arrive_all-IsFair capacity n ks (k ∷ seen) (arrive capacity k r) (omega arith)
      (arrive-IsFair capacity n k seen r (omega arith) f)

gapless_lem :
    (fuel n d : ℕ) (ks : List ℕ)
    → d ≤ fuel
    → ((k : ℕ) → n ≤ k → k < n + d → member k ks ≡ true)
    → member (n + d) ks ≡ false
    → gapless fuel n ks ≡ d
unfolding gapless
gapless_lem zero n d ks l h e = omega arith
gapless_lem (suc fuel) n zero ks l h e =
    let z : n + 0 ≡ n = omega arith in let e' = rw z at e in rw e' refl
gapless_lem (suc fuel) n (suc d) ks l h e =
    let m = h n (omega arith) (omega arith) in
    let q : n + suc d ≡ suc n + d = omega arith in
    rw m (
      ap suc (
        gapless_lem fuel (suc n) d ks (omega arith) (λ k a b. h k (omega arith) (omega arith))
          (rw q at e)))

-- The numbers without a gap end below the fuel.
below :
    (n d : ℕ) (ks : List ℕ)
    → ((k : ℕ) → n ≤ k → k < n + d → member k ks ≡ true)
    → d ≤ suc (biggest ks)
below n zero ks h = omega arith
below n (suc d) ks h =
    omega (arith, member-le-biggest (n + d) ks (h (n + d) (omega arith) (omega arith)))

-- If there is room for all that come, in whatever order and however often, the receiver goes on by exactly as
-- many numbers as have come without a gap.
pub arrive_all-in_order :
    (capacity n : ℕ) (ks : List ℕ)
    → length ks ≤ capacity
    → (arrive_all capacity ks (record { next = n; aside = [] })).next ≡ n + in_order n ks
unfolding member in_order
arrive_all-in_order capacity n ks room =
    let r = arrive_all capacity ks (record { next = n; aside = [] }) in
    let start : IsFair n [] (record { next = n; aside = [] }) = record {
      low = omega arith;
      stop = refl;
      taken = λ k a b. absurd (omega arith);
      kept = λ k m. cc;
      left = λ k m. m;
      size = omega arith;
    } in
    let f = arrive_all-IsFair capacity n ks [] _ (omega arith) start in
    let d = r.next - n in
    let q : n + d ≡ r.next = omega (arith, f.low) in
    let taken : (k : ℕ) → n ≤ k → k < n + d → member k ks ≡ true =
      λ k a b. ground (arith, f.taken k a (omega (arith, q)), member-after k ks []) in
    let free : member (n + d) ks ≡ false =
      ground (arith, f.kept r.next, f.stop, member-after r.next ks [], q) in
    sym
      (ap (λ x. n + x) (gapless_lem (suc (biggest ks)) n d ks (below n d ks taken) taken free) ∙ q)
