-- ===== src/DataChannel/Receiving/Reference.antt =====
-- What the receiving side promises, on sequence numbers alone: the next number, and the numbers put aside.
pub mod Fair
use ecstoolkit.Base.{
  ℕ, zero, suc, ◌+◌, ◌-◌, ◌≤◌, ◌<◌, ◌≡◌, ◌≢◌, refl, sym, ◌∙◌, ap, Bool, true, false, not, ◌&&◌,
  ◌||◌, List, [], ◌∷◌, ◌++◌, All, arith, length, if◌then◌else◌, ◌==◌, ltb, leb, Bool-cases, inl,
  inr,
}

-- `next` is expected, and `aside` are the numbers above it that have come.
pub record Receiver : Type 0 where
  pub next : ℕ
  pub aside : List ℕ

unfoldable pub member : ℕ → List ℕ → Bool
member k [] = false
member k (x ∷ xs) = x == k || member k xs

-- A number that is there already stays in its place.
unfoldable pub put : ℕ → List ℕ → List ℕ
put k [] = k ∷ []
put k (x ∷ xs) = if x == k then x ∷ xs else x ∷ put k xs

unfoldable pub take_out : ℕ → List ℕ → List ℕ
take_out k [] = []
take_out k (x ∷ xs) = if x == k then xs else x ∷ take_out k xs

-- Takes the numbers put aside up, as far as they follow one another.
unfoldable pub take_up : ℕ → ℕ → List ℕ → Receiver
take_up zero n aside = record { next = n; aside = aside }
take_up (suc fuel) n aside =
    let more = take_up fuel (suc n) (take_out n aside) in
    if member n aside then more else record { next = n; aside = aside }

unfoldable pub arrive : ℕ → ℕ → Receiver → Receiver
arrive capacity k r =
    if k == r.next
    then take_up (suc (length r.aside)) (suc r.next) r.aside
    else if ltb r.next k && not (length r.aside == capacity)
    then record { next = r.next; aside = put k r.aside }
    else r

unfoldable pub arrive_all : ℕ → List ℕ → Receiver → Receiver
arrive_all capacity [] r = r
arrive_all capacity (k ∷ ks) r = arrive_all capacity ks (arrive capacity k r)

-- The `d` numbers from `n` on.
unfoldable pub numbers : ℕ → ℕ → List ℕ
numbers n zero = []
numbers n (suc d) = n ∷ numbers (suc n) d

abbrev pub biggest : List ℕ → ℕ
biggest [] = 0
biggest (k ∷ ks) = k + biggest ks

-- How many of the numbers from `n` on are in the list without a gap.
unfoldable pub gapless : ℕ → ℕ → List ℕ → ℕ
gapless zero n ks = 0
gapless (suc fuel) n ks = let rest = gapless fuel (suc n) ks in if member n ks then suc rest else 0

-- No number of the list is above its sum, which bounds the fuel.
unfoldable pub in_order : ℕ → List ℕ → ℕ
in_order n ks = gapless (suc (biggest ks)) n ks

pub member-put : (j k : ℕ) (xs : List ℕ) → member j (put k xs) ≡ (k == j || member j xs)
unfolding member put
member-put j k [] = refl
member-put j k (x ∷ xs) = ground (arith, member-put j k xs)

pub member-take_out : (j k : ℕ) (xs : List ℕ) → j ≢ k → member j (take_out k xs) ≡ member j xs
unfolding member take_out
member-take_out j k [] h = refl
member-take_out j k (x ∷ xs) h = ground (arith, member-take_out j k xs h)

pub member-le-biggest : (k : ℕ) (ks : List ℕ) → member k ks ≡ true → k ≤ biggest ks
unfolding member
member-le-biggest k [] h = cc
member-le-biggest k (x ∷ xs) h = ground (arith, member-le-biggest k xs)

pub length-take_out :
    (k : ℕ) (xs : List ℕ) → member k xs ≡ true → suc (length (take_out k xs)) ≡ length xs
unfolding member take_out
length-take_out k [] h = cc
length-take_out k (x ∷ xs) h = ground (arith, length-take_out k xs)

pub length-put : (k : ℕ) (xs : List ℕ) → length (put k xs) ≤ suc (length xs)
unfolding put
length-put k [] = omega arith
length-put k (x ∷ xs) = ground (arith, length-put k xs)
