-- ===== src/DataChannel/Sending/Replay/Numbers.antt =====
-- The numbers of the messages in the outgoing buffer.
use mathlib.Core.List.{map-append}
use ecstoolkit.Base.{
  ℕ, zero, suc, ◌-◌, ◌<◌, ◌≤◌, ◌≡◌, refl, sym, ap, ℤ, eqb_ℤ, true, List, [], ◌∷◌, ◌++◌, map, Option,
  arith, length, length-append, drop,
}
use ecstoolkit.DataChannel.ListBuffer.Laws.{Search, missing, hit, kept, NoneOf}
use ecstoolkit.DataChannel.State.{StreamingMessage}
use ecstoolkit.DataChannel.ListBuffer.{ListMessageBuffer}
use ecstoolkit.DataChannel.Sending.Replay.{latest, without}

abbrev pub number_of : StreamingMessage → ℤ
number_of m = m.sequence_number

missing-without :
    (z : ℤ) (ms : List StreamingMessage)
    → NoneOf (λ m. eqb_ℤ m.sequence_number z) ms
    → without z (map number_of ms) ≡ map number_of ms
unfolding without
missing-without z [] h = refl
missing-without z (m ∷ ms) h = rw h.0 (ap (λ ks. m.sequence_number ∷ ks) (missing-without z ms h.1))

hit-without :
    (z : ℤ) (xs : List StreamingMessage) (x : StreamingMessage) (ys : List StreamingMessage)
    → NoneOf (λ m. eqb_ℤ m.sequence_number z) xs
    → eqb_ℤ x.sequence_number z ≡ true
    → without z (map number_of (xs ++ (x ∷ ys))) ≡ map number_of (xs ++ ys)
unfolding without
hit-without z [] x ys h e = rw e refl
hit-without z (m ∷ xs) x ys h e =
    rw h.0 (ap (λ ks. m.sequence_number ∷ ks) (hit-without z xs x ys h.1 e))

pub Search-without :
    (z : ℤ) (ms : List StreamingMessage) (r : Option StreamingMessage × List StreamingMessage)
    → Search (λ m. eqb_ℤ m.sequence_number z) ms r
    → (map number_of r.1 ≡ without z (map number_of ms)) × (length r.1 ≤ length ms)
Search-without z _ _ (missing xs h) = (sym (missing-without z xs h), omega arith)
Search-without z _ _ (hit xs x ys h e) =
    (sym (hit-without z xs x ys h e), omega (arith, length-append xs (x ∷ ys), length-append xs ys))

drop-snoc :
    (n : ℕ) (xs : List StreamingMessage) (x : StreamingMessage)
    → n ≤ length xs
    → drop n (map number_of xs ++ (number_of x ∷ [])) ≡ map number_of (drop n xs ++ (x ∷ []))
drop-snoc zero xs x h = sym (map-append number_of xs (x ∷ []))
drop-snoc (suc n) [] x h = absurd (omega arith)
drop-snoc (suc n) (y ∷ xs) x h = drop-snoc n xs x (omega arith)

length-numbers : (xs : List StreamingMessage) → length (map number_of xs) ≡ length xs
length-numbers [] = refl
length-numbers (x ∷ xs) = ap suc (length-numbers xs)

pub kept-latest :
    (b : ListMessageBuffer StreamingMessage) (m : StreamingMessage)
    → 0 < b.capacity
    → map number_of (kept b ++ (m ∷ []))
      ≡ latest b.capacity (map number_of b.messages ++ (number_of m ∷ []))
unfolding latest
kept-latest b m h =
    let ks = map number_of b.messages in
    let e : length (ks ++ (number_of m ∷ [])) ≡ suc (length b.messages) =
      omega (arith, length-append ks (number_of m ∷ []), length-numbers b.messages) in
    rw e (sym (drop-snoc (suc (length b.messages) - b.capacity) b.messages m (omega arith)))
