-- ===== src/DataChannel/Sending/Race.antt =====
-- Two goroutines in `SendInputDataMessage` at the same time: the keyboard and the size of the terminal, or
-- a stream and the control signals. Each atomic operation on the sequence number, and the sending between
-- them, is a step.
use ecstoolkit.Base.{ℤ, List, [], ◌∷◌}
use ecstoolkit.DataChannel.Sending.{next_int64}

-- Where a goroutine is: before `Load`, with the number that it loaded, or after `SendMessage`.
pub data Place : Type 0 where
  before : Place
  loaded : ℤ → Place
  sent : Place

-- The counter, the numbers that went out with the last one first, and the two goroutines.
pub record Senders : Type 0 where
  pub stream_data_sequence_number : ℤ
  pub wire : List ℤ
  pub left : Place
  pub right : Place

-- What one goroutine does to the counter and the wire.
pub data Move : ℤ → List ℤ → Place → ℤ → List ℤ → Place → Type 0 where
  load : (c : ℤ) (wire : List ℤ) → Move c wire before c wire (loaded c)
  transmit : (c : ℤ) (wire : List ℤ) (n : ℤ) → Move c wire (loaded n) c (n ∷ wire) sent
  add : (c : ℤ) (wire : List ℤ) → Move c wire sent (next_int64 c) wire before

pub data Step : Senders → Senders → Type 0 where
  left_moves :
      (c c' : ℤ) (wire wire' : List ℤ) (l l' r : Place)
      → Move c wire l c' wire' l'
      → Step
          (record { stream_data_sequence_number = c; wire = wire; left = l; right = r })
          (record { stream_data_sequence_number = c'; wire = wire'; left = l'; right = r })
  right_moves :
      (c c' : ℤ) (wire wire' : List ℤ) (l r r' : Place)
      → Move c wire r c' wire' r'
      → Step
          (record { stream_data_sequence_number = c; wire = wire; left = l; right = r })
          (record { stream_data_sequence_number = c'; wire = wire'; left = l; right = r' })

pub data Reach (s : Senders) : Senders → Type 0 where
  here : Reach s s
  next : (t u : Senders) → Reach s t → Step t u → Reach s u

-- Both goroutines are about to load a number.
abbrev pub ready : ℤ → Senders
ready c = record { stream_data_sequence_number = c; wire = []; left = before; right = before }

-- From any number, the two can send a message each with that number, after which the number that comes two
-- later is the next: one of the two numbers is used twice and the other not at all.
pub duplicate :
    (c : ℤ)
    → Reach (ready c) (record {
      stream_data_sequence_number = next_int64 (next_int64 c);
      wire = c ∷ c ∷ [];
      left = before;
      right = before;
    })
duplicate c =
    let s1 = next _ _ here (left_moves c c [] [] before (loaded c) before (load c [])) in
    let s2 = next _ _ s1 (right_moves c c [] [] (loaded c) before (loaded c) (load c [])) in
    let s3 =
      next _ _ s2 (left_moves c c [] (c ∷ []) (loaded c) sent (loaded c) (transmit c [] c)) in
    let s4 =
      next _ _ s3
        (right_moves c c (c ∷ []) (c ∷ c ∷ []) sent (loaded c) sent (transmit c (c ∷ []) c)) in
    let s5 = next _ _ s4 (
      left_moves c (next_int64 c) (c ∷ c ∷ []) (c ∷ c ∷ []) sent before sent
        (add c (c ∷ c ∷ []))) in
    next _ _ s5 (
      right_moves (next_int64 c) (next_int64 (next_int64 c)) (c ∷ c ∷ []) (c ∷ c ∷ []) before sent
        before (add (next_int64 c) (c ∷ c ∷ [])))
