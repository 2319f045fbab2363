-- ===== src/DataChannel/Sending/Order.antt =====
-- The sequence numbers of the messages that wait for their acknowledgement.
use ecstoolkit.Base.{
  ℕ, zero, suc, ◌+◌, ◌-◌, ◌<◌, ◌≤◌, ◌≡◌, ◌∙◌, ℤ, pos, eqb_ℤ, Bool, ◌&&◌, ◌==◌, Option, List, [],
  ◌∷◌, ◌++◌, arith, length, drop, half64, ◌+ℤ◌, Bool-cases, inl, inr,
}
use ecstoolkit.Buffer.{Bytes}
use ecstoolkit.Message.PayloadType
use ecstoolkit.Message.Types.{AcknowledgeContent}
use ecstoolkit.DataChannel.ListBuffer.Laws.{Search, missing, hit, kept, force_push_back_lem}
use ecstoolkit.DataChannel.State.{State, DataChannel, Env, StreamingMessage}
use ecstoolkit.DataChannel.Sending.{
  process_acknowledged_message, push_outgoing, send_input_data_message, encrypt_data, encrypt_by,
  send_message, next_int64, timeout_of, calculate_retransmission_timeout,
}
use ecstoolkit.DataChannel.Sending.Bounds.{IsBounded, acknowledged-removed}

-- The numbers ascend, from `lo` on and below `hi`.
abbrev pub Ascending : ℕ → ℕ → List StreamingMessage → Type 0
Ascending lo hi [] = lo ≤ hi
Ascending lo hi (m ∷ ms) =
    (k : ℕ) × (m.sequence_number ≡ pos k) × (lo ≤ k) × Ascending (suc k) hi ms

-- They ascend, and the next number is above them all.
pub record IsSequenced {F : Type 0} (c : DataChannel F) : Type 0 where
  pub next : ℕ
  pub number : c.stream_data_sequence_number ≡ pos next
  pub ascending : Ascending 0 next c.outgoing_message_buffer.messages

Ascending-lower :
    (l lo hi : ℕ) (ms : List StreamingMessage) → l ≤ lo → Ascending lo hi ms → Ascending l hi ms
Ascending-lower l lo hi [] h a = omega arith
Ascending-lower l lo hi (m ∷ ms) h a = (a.0, a.1, omega (arith, a.2), a.3)

Ascending-drop :
    (n lo hi : ℕ) (ms : List StreamingMessage) → Ascending lo hi ms → Ascending lo hi (drop n ms)
Ascending-drop zero lo hi ms a = a
Ascending-drop (suc n) lo hi [] a = a
Ascending-drop (suc n) lo hi (m ∷ ms) a =
    Ascending-drop n lo hi ms (Ascending-lower lo (suc a.0) hi ms (omega (arith, a.2)) a.3)

Ascending-append :
    (lo hi : ℕ) (ms : List StreamingMessage) (m : StreamingMessage)
    → Ascending lo hi ms
    → m.sequence_number ≡ pos hi
    → Ascending lo (hi + 1) (ms ++ (m ∷ []))
Ascending-append lo hi [] m a e = (hi, e, a, omega arith)
Ascending-append lo hi (x ∷ ms) m a e = (a.0, a.1, a.2, Ascending-append (suc a.0) hi ms m a.3 e)

Ascending-remove :
    (lo hi : ℕ) (xs ys : List StreamingMessage) (x : StreamingMessage)
    → Ascending lo hi (xs ++ (x ∷ ys))
    → Ascending lo hi (xs ++ ys)
Ascending-remove lo hi [] ys x a = Ascending-lower lo (suc a.0) hi ys (omega (arith, a.2)) a.3
Ascending-remove lo hi (z ∷ xs) ys x a = (a.0, a.1, a.2, Ascending-remove (suc a.0) hi xs ys x a.3)

Search-Ascending :
    (p : StreamingMessage → Bool) (lo hi : ℕ) (ms : List StreamingMessage)
    (r : Option StreamingMessage × List StreamingMessage)
    → Search p ms r
    → Ascending lo hi ms
    → Ascending lo hi r.1
Search-Ascending p lo hi _ _ (missing xs h) a = a
Search-Ascending p lo hi _ _ (hit xs x ys h e) a = Ascending-remove lo hi xs ys x a

module _ {W F : Type 0} (env : Env W F) where
  pub acknowledged-number :
      (content : AcknowledgeContent) (s : State W F)
      → (process_acknowledged_message env content s).1.channel.stream_data_sequence_number
        ≡ s.channel.stream_data_sequence_number
  unfolding process_acknowledged_message timeout_of calculate_retransmission_timeout
  acknowledged-number content s = ground arith

  -- An acknowledgement keeps the numbers in the outgoing buffer ascending and below the next one.
  pub acknowledged-IsSequenced :
      (content : AcknowledgeContent) (s : State W F)
      → IsSequenced s.channel
      → IsSequenced (process_acknowledged_message env content s).1.channel
  acknowledged-IsSequenced content s h = record {
    next = h.next;
    number = acknowledged-number content s ∙ h.number;
    ascending =
        Search-Ascending (λ m. eqb_ℤ m.sequence_number content.sequence_number) 0 h.next _ _
          (acknowledged-removed env content s) h.ascending;
  }

  next_int64-pos : (z : ℤ) (n : ℕ) → z ≡ pos n → n + 1 < half64 → next_int64 z ≡ pos (n + 1)
  unfolding ◌+ℤ◌
  next_int64-pos z n e h = rw e (ground arith)

  -- The two last steps of a sending that succeeds.
  push-IsSequenced :
      (c : DataChannel F) (w : W) (content : Bytes) (t : ℕ) (h : IsSequenced c)
      → IsBounded c
      → h.next + 1 < half64
      → IsSequenced
          (push_outgoing env
            (record {
              content = content;
              sequence_number = c.stream_data_sequence_number;
              last_sent_time = t;
              resend_attempt = 0;
            })
            (record {
              channel = record c {
                stream_data_sequence_number = next_int64 c.stream_data_sequence_number;
              };
              world = w;
            })).1.channel
  unfolding push_outgoing
  push-IsSequenced c w content t h b l =
      let b' = c.outgoing_message_buffer in
      rw (force_push_back_lem b' _ b.some_room b.within) (record {
        next = h.next + 1;
        number = next_int64-pos c.stream_data_sequence_number h.next h.number l;
        ascending =
            Ascending-append 0 h.next (kept b') _
              (Ascending-drop (suc (length b'.messages) - b'.capacity) 0 h.next b'.messages
                h.ascending)
              h.number;
      })

  -- A sending leaves the channel as it was, or has come to its two last steps.
  send_cases :
      (P : DataChannel F → Type 0) (payload_type : ℕ) (input : Bytes) (s : State W F)
      → P s.channel
      → ((content : Bytes) (t : ℕ) (w : W)
          → P
              (push_outgoing env
                (record {
                  content = content;
                  sequence_number = s.channel.stream_data_sequence_number;
                  last_sent_time = t;
                  resend_attempt = 0;
                })
                (record {
                  channel = record s.channel {
                    stream_data_sequence_number = next_int64 s.channel.stream_data_sequence_number;
                  };
                  world = w;
                })).1.channel)
      → P (send_input_data_message env payload_type input s).1.channel
  unfolding send_input_data_message encrypt_data encrypt_by send_message
  send_cases P payload_type input s h k =
      elim (Bool-cases (s.channel.encryption_enabled && payload_type == PayloadType.output)) [
        | inl e ↦ rw e (grind (arith, k))
        | inr e ↦ rw e (grind (arith, k))
      ]

  -- Sending keeps the numbers in the outgoing buffer ascending and below the next one, whatever fails on the
  -- way, while the buffer is within its capacity of at least one and the next number below 2^63 - 1.
  pub send_input-IsSequenced :
      (payload_type : ℕ) (input : Bytes) (s : State W F) (h : IsSequenced s.channel)
      → IsBounded s.channel
      → h.next + 1 < half64
      → IsSequenced (send_input_data_message env payload_type input s).1.channel
  send_input-IsSequenced payload_type input s h b l =
      send_cases IsSequenced payload_type input s h
        (λ content t w. push-IsSequenced s.channel w content t h b l)
