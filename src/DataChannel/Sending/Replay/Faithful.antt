-- ===== src/DataChannel/Sending/Replay/Faithful.antt =====
-- The outgoing buffer holds the numbers that the reference has waiting.

use ecstoolkit.Base.{
  ℕ, suc, ◌+◌, ◌<◌, ◌≤◌, ◌≡◌, ◌≢◌, refl, ◌∙◌, ap, pos, List, [], ◌∷◌, ◌++◌, map, Result, ok, err,
  panic, blocked, arith, length, half64,
}
use ecstoolkit.Buffer.{Bytes}
use ecstoolkit.Message.Types.{AcknowledgeContent}
use ecstoolkit.DataChannel.ListBuffer.Laws.{kept, force_push_back_lem, force_push_back_bounded}
use ecstoolkit.DataChannel.State.{State, DataChannel, Env}
use ecstoolkit.DataChannel.Sending.{
  process_acknowledged_message, push_outgoing, send_input_data_message, next_int64,
}
use ecstoolkit.DataChannel.Sending.Bounds.{acknowledged-removed}
use ecstoolkit.DataChannel.Sending.Order.{acknowledged-number}
use ecstoolkit.DataChannel.Receiving.Sequence.{next_int64-pos}
use ecstoolkit.DataChannel.Sending.Outcome.{push_sent, send_outcome}
use ecstoolkit.DataChannel.ListBuffer.{remove_if}
use ecstoolkit.DataChannel.Sending.{timeout_of, calculate_retransmission_timeout}
use ecstoolkit.DataChannel.Sending.Replay.Numbers.{number_of, kept-latest, Search-without}
use ecstoolkit.DataChannel.Sending.Replay.{
  Call, send, acknowledge, Event, sent, acknowledged, Sender, latest, without, step, replay,
  events_of, perform, run, events,
}

-- The channel has the sender's next number and waits for its numbers.
record IsSender {F : Type 0} (capacity : ℕ) (c : DataChannel F) (r : Sender) : Type 0 where
  pub next : c.stream_data_sequence_number ≡ pos r.next
  pub waiting : map number_of c.outgoing_message_buffer.messages ≡ r.waiting
  pub room : c.outgoing_message_buffer.capacity ≡ capacity
  pub some_room : 0 < c.outgoing_message_buffer.capacity
  pub within : length c.outgoing_message_buffer.messages ≤ c.outgoing_message_buffer.capacity

module _ {W F : Type 0} (env : Env W F) where
  acknowledged-capacity :
      (content : AcknowledgeContent) (s : State W F)
      → (process_acknowledged_message env content s).1.channel.outgoing_message_buffer.capacity
        ≡ s.channel.outgoing_message_buffer.capacity
  unfolding process_acknowledged_message timeout_of calculate_retransmission_timeout remove_if
  acknowledged-capacity content s = ground arith

  acknowledged-IsSender :
      (capacity : ℕ) (content : AcknowledgeContent) (s : State W F) (r : Sender)
      → IsSender capacity s.channel r
      → IsSender capacity
          (process_acknowledged_message env content s).1.channel
          (step capacity (acknowledged content.sequence_number) r)
  unfolding step
  acknowledged-IsSender capacity content s r h =
      let c = acknowledged-capacity content s in
      let w = Search-without content.sequence_number _ _ (acknowledged-removed env content s) in
      record {
        next = acknowledged-number env content s ∙ h.next;
        waiting = w.0 ∙ ap (without content.sequence_number) h.waiting;
        room = c ∙ h.room;
        some_room = rw c h.some_room;
        within = rw c (omega (arith, w.1, h.within));
      }

  -- The state after the last steps of a sending.
  push_lem :
      (content : Bytes) (t : ℕ) (c : DataChannel F) (w : W)
      → 0 < c.outgoing_message_buffer.capacity
      → length c.outgoing_message_buffer.messages ≤ c.outgoing_message_buffer.capacity
      → push_sent env content t c w ≡ (
        ok tt,
        record {
          channel = record c {
            stream_data_sequence_number = next_int64 c.stream_data_sequence_number;
            outgoing_message_buffer = record c.outgoing_message_buffer {
              messages =
                  kept c.outgoing_message_buffer
                  ++ (record {
                    content = content;
                    sequence_number = c.stream_data_sequence_number;
                    last_sent_time = t;
                    resend_attempt = 0;
                  }
                      ∷ []);
            };
          };
          world = w;
        },
      )
  unfolding push_outgoing
  push_lem content t c w p h = rw (force_push_back_lem c.outgoing_message_buffer _ p h) refl

  pushed-IsSender :
      (capacity : ℕ) (content : Bytes) (t : ℕ) (c : DataChannel F) (w : W) (r : Sender)
      → r.next + 1 < half64
      → IsSender capacity c r
      → IsSender capacity (push_sent env content t c w).1.channel (step capacity sent r)
  unfolding step latest
  pushed-IsSender capacity content t c w r l h =
      let b = c.outgoing_message_buffer in
      rw (push_lem content t c w h.some_room h.within) (record {
        next = rw h.next (next_int64-pos r.next l ∙ ap pos (omega arith));
        waiting =
            kept-latest b _ h.some_room
            ∙ ap (λ k. latest k (map number_of b.messages ++ (c.stream_data_sequence_number ∷ [])))
                h.room
            ∙ ap (λ ks. latest capacity (ks ++ (c.stream_data_sequence_number ∷ []))) h.waiting
            ∙ ap (λ k. latest capacity (r.waiting ++ (k ∷ []))) h.next;
        room = h.room;
        some_room = h.some_room;
        within = force_push_back_bounded b _ h.some_room h.within;
      })

  not_sent :
      (payload_type : ℕ) (input : Bytes) (r : Result (Unit {0}))
      → r ≢ ok tt
      → events_of (send payload_type input) r ≡ []
  unfolding events_of
  not_sent payload_type input (ok x) h = absurd (h refl)
  not_sent payload_type input (err e) h = refl
  not_sent payload_type input panic h = refl
  not_sent payload_type input blocked h = refl

  sent-IsSender :
      (capacity payload_type : ℕ) (input : Bytes) (s : State W F) (r : Sender)
      → r.next + 1 < half64
      → IsSender capacity s.channel r
      → let p = send_input_data_message env payload_type input s in
        IsSender capacity p.1.channel (replay capacity (events_of (send payload_type input) p.0) r)
  unfolding replay events_of
  sent-IsSender capacity payload_type input s r l h =
      send_outcome env
        (λ p.
          IsSender capacity p.1.channel
            (replay capacity (events_of (send payload_type input) p.0) r))
        payload_type input s (λ q w ne. rw (not_sent payload_type input q ne) h)
        (λ content t w.
          let e = ap (λ p. p.0) (push_lem content t s.channel w h.some_room h.within) in
          rw e (pushed-IsSender capacity content t s.channel w r l h))

  next_le :
      (capacity : ℕ) (call : Call) (q : Result (Unit {0})) (r : Sender)
      → (replay capacity (events_of call q) r).next ≤ suc r.next
  unfolding events_of replay step
  next_le capacity (send payload_type input) (ok x) r = omega arith
  next_le capacity (send payload_type input) (err e) r = omega arith
  next_le capacity (send payload_type input) panic r = omega arith
  next_le capacity (send payload_type input) blocked r = omega arith
  next_le capacity (acknowledge content) q r = omega arith

  replay-append :
      (capacity : ℕ) (es fs : List Event) (r : Sender)
      → replay capacity (es ++ fs) r ≡ replay capacity fs (replay capacity es r)
  unfolding replay
  replay-append capacity [] fs r = refl
  replay-append capacity (e ∷ es) fs r = replay-append capacity es fs (step capacity e r)

  perform-IsSender :
      (capacity : ℕ) (call : Call) (s : State W F) (r : Sender)
      → r.next + 1 < half64
      → IsSender capacity s.channel r
      → IsSender capacity
          (perform env call s).1.channel
          (replay capacity (events_of call (perform env call s).0) r)
  unfolding perform events_of replay
  perform-IsSender capacity (send payload_type input) s r l h =
      sent-IsSender capacity payload_type input s r l h
  perform-IsSender capacity (acknowledge content) s r l h =
      acknowledged-IsSender capacity content s r h

  run-IsSender :
      (capacity : ℕ) (calls : List Call) (s : State W F) (r : Sender)
      → r.next + length calls < half64
      → IsSender capacity s.channel r
      → IsSender capacity (run env calls s).channel (replay capacity (events env calls s) r)
  unfolding run events replay
  run-IsSender capacity [] s r l h = h
  run-IsSender capacity (call ∷ calls) s r l h =
      let q = (perform env call s).0 in
      rw (replay-append capacity (events_of call q) (events env calls (perform env call s).1) r) (
        run-IsSender capacity calls (perform env call s).1 (replay capacity (events_of call q) r)
          (omega (arith, next_le capacity call q r))
          (perform-IsSender capacity call s r (omega arith) h))

  -- A channel has nothing outstanding and some room, and its next number is n. Whatever calls to send and
  -- acknowledgements follow, in whatever order and whatever fails, as long as the number does not reach 2^63: the
  -- numbers in the outgoing buffer are, in this order, those that the reference has waiting after the
  -- sendings that succeeded and the acknowledgements, and the next number is that of the reference.
  pub run-replay :
      (calls : List Call) (s : State W F) (n : ℕ)
      → s.channel.stream_data_sequence_number ≡ pos n
      → s.channel.outgoing_message_buffer.messages ≡ []
      → 0 < s.channel.outgoing_message_buffer.capacity
      → n + length calls < half64
      → let c' = (run env calls s).channel in
        let r' =
          replay s.channel.outgoing_message_buffer.capacity
            (events env calls s)
            (record { next = n; waiting = [] }) in
        (map number_of c'.outgoing_message_buffer.messages ≡ r'.waiting)
        × (c'.stream_data_sequence_number ≡ pos r'.next)
  run-replay calls s n number empty room l =
      let start : IsSender s.channel.outgoing_message_buffer.capacity s.channel
          (record { next = n; waiting = [] }) =
        record {
          next = number;
          waiting = ap (map number_of) empty;
          room = refl;
          some_room = room;
          within = rw empty (omega arith);
        } in
      let e = run-IsSender s.channel.outgoing_message_buffer.capacity calls s _ l start in
      (e.waiting, e.next)
