-- ===== src/DataChannel/Receiving/Arrival.antt =====
-- A message that arrives changes the channel as the reference says.
use mathlib.Core.Path.{subst}
use ecstoolkit.Base.{
  ℕ, suc, ◌+◌, ◌<◌, ◌≡◌, refl, sym, ◌∙◌, ap, pos, eqb_ℤ, true, false, List, [], ◌∷◌, Result, arith,
  length, half64, eq_bytes, ◌==◌, ltb, ltb_ℤ, ◌&&◌, not, Bool-cases, inl, inr,
}
use ecstoolkit.Buffer.{Bytes}
use ecstoolkit.Message.Types.{ClientMessage, output_stream_message}
use ecstoolkit.DataChannel.MapBuffer.{is_full}
use ecstoolkit.DataChannel.State.{State, Env, int64_comparable}
use ecstoolkit.DataChannel.State.Monad.{M, pure, ◌>>◌}
use ecstoolkit.DataChannel.Sending.{next_int64, send_acknowledge_message}
use ecstoolkit.DataChannel.Receiving.{
  advance, process_buffer_loop, process_incoming_message_buffer_items, process_payload,
  handle_output_message, dispatch, output_message_handler,
}
use ecstoolkit.DataChannel.Receiving.Sequence.{higher, ignored}
use ecstoolkit.DataChannel.Receiving.TakenUp.{loop-Goes}
use ecstoolkit.DataChannel.Receiving.Reference.{Receiver, put, take_up, arrive}
use ecstoolkit.DataChannel.Receiving.Aside.{length-numbers_of}
use ecstoolkit.DataChannel.Receiving.Working.{
  IsWorking, process_payload-IsHandedOn, acknowledge-world, acknowledge-success,
}
use ecstoolkit.DataChannel.Receiving.Delivery.{
  IsPeerMessage, Related, IsInStep, moved, advanced, stored,
}

module _ {W F : Type 0} (env : Env W F) (log : W → List ClientMessage) (h : ℕ)
    (works : IsWorking env log h) (sent : ℕ → ClientMessage) (wire : ℕ → Bytes)
    (stream : (k : ℕ) → k + 1 < half64 → IsPeerMessage env.lib k (sent k) (wire k)) (n capacity : ℕ)
    (before : List ClientMessage) where
  abbrev InStep : State W F → Receiver → Type 0
  InStep s r = Related sent wire h n capacity before s.channel (log s.world) r

  abbrev Goes : Result (Unit {0}) × State W F → Receiver → Type 0
  Goes p r = IsInStep sent wire h n capacity before log p r

  size_of :
      (s : State W F) (r : Receiver)
      → InStep s r
      → length s.channel.incoming_message_buffer.messages ≡ length r.aside
  size_of s r e =
      sym (length-numbers_of s.channel.incoming_message_buffer.messages) ∙ ap length e.aside

  next-Goes :
      (s : State W F) (r : Receiver)
      → InStep s r
      → r.next + 1 < half64
      → Goes
          (handle_output_message env (sent r.next) (wire r.next) s)
          (take_up (suc (length r.aside)) (suc r.next) r.aside)
  unfolding handle_output_message advance process_incoming_message_buffer_items
  next-Goes s r e l =
      let p = stream r.next l in
      let d =
        process_payload-IsHandedOn env log h works (sent r.next) s p.no_request p.no_complete
          p.no_challenge e.serving in
      let t = process_payload env (sent r.next) s in
      let u : State W F = record t.1 {
        channel = record t.1.channel {
          expected_sequence_number = next_int64 t.1.channel.expected_sequence_number;
        };
      } in
      let e' : InStep u (record { next = suc r.next; aside = r.aside }) =
        moved sent wire h n capacity before _ _ _ _ _ refl (sym d.logged) (
          advanced sent wire h n capacity before t.1.channel (log s.world) r l
            (moved sent wire h n capacity before _ _ _ _ _ (sym d.channel) refl e)) in
      let q : eqb_ℤ (sent r.next).sequence_number s.channel.expected_sequence_number ≡ true =
        rw (p.number, e.expected) (ground arith) in
      rw (q, d.returns)
        (subst
          (λ i.
            Goes
              (process_buffer_loop env (suc (length u.channel.incoming_message_buffer.messages)) u)
              (take_up (suc i) (suc r.next) r.aside))
          (size_of _ _ e')
          (loop-Goes env log h works sent wire stream n capacity before _ _ _ e'
            (omega (arith, size_of _ _ e'))))

  ahead-Goes :
      (k : ℕ) (s : State W F) (r : Receiver)
      → InStep s r
      → k + 1 < half64
      → r.next < k
      → is_full s.channel.incoming_message_buffer ≡ false
      → Goes
          (handle_output_message env (sent k) (wire k) s)
          (record { next = r.next; aside = put k r.aside })
  ahead-Goes k s r e l a room =
      let p = stream k l in
      let w = (send_acknowledge_message env (sent k) s).1.world in
      let q : ltb_ℤ s.channel.expected_sequence_number (sent k).sequence_number ≡ true =
        rw (p.number, e.expected) (ground arith) in
      rw (higher env (sent k) (wire k) s w q room (acknowledge-world env log h works (sent k) s))
        (record {
          returns = refl;
          state =
              moved sent wire h n capacity before _ _ _ _ _ (rw p.number refl)
                (sym (works.clock_log w ∙ (acknowledge-success env log h works (sent k) s).1))
                (stored sent wire h n capacity before s.channel (log s.world) r k
                  (record {
                    content = wire k;
                    sequence_number = pos k;
                    last_sent_time = (env.now w).0;
                    resend_attempt = 0;
                  })
                  room (record { key = refl; number = refl; content = refl; small = l }) e);
        })

  late-Goes :
      (k : ℕ) (s : State W F) (r : Receiver)
      → InStep s r
      → k + 1 < half64
      → (k == r.next) ≡ false
      → (ltb r.next k && not (is_full s.channel.incoming_message_buffer)) ≡ false
      → Goes (handle_output_message env (sent k) (wire k) s) r
  late-Goes k s r e l ne no_room =
      let p = stream k l in
      rw
        (ignored env (sent k) (wire k) s (λ i. ground (arith, p.number, e.expected, i))
          (rw (p.number, e.expected) (ground (arith, no_room))))
        (record { returns = refl; state = e })

  handle-Goes :
      (k : ℕ) (s : State W F) (r : Receiver)
      → InStep s r
      → k + 1 < half64
      → Goes (handle_output_message env (sent k) (wire k) s) (arrive capacity k r)
  unfolding arrive is_full
  handle-Goes k s r e l =
      let f : is_full s.channel.incoming_message_buffer ≡ (length r.aside == capacity) =
        rw (e.room, size_of s r e) refl in
      elim (Bool-cases (k == r.next)) [
        | inl q ↦
            let i : k ≡ r.next = ground arith in
            rw q (
              subst
                (λ j.
                  Goes (handle_output_message env (sent j) (wire j) s)
                    (take_up (suc (length r.aside)) (suc r.next) r.aside))
                (sym i) (next-Goes s r e (omega arith)))
        | inr q ↦ elim (Bool-cases (ltb r.next k && not (length r.aside == capacity))) [
          | inl c ↦ rw (q, c) (ahead-Goes k s r e l (ground arith) (ground (arith, f)))
          | inr c ↦ rw (q, c) (late-Goes k s r e l q (rw f c))
        ]
      ]

  pub arrive-Goes :
      (k : ℕ) (s : State W F) (r : Receiver)
      → InStep s r
      → k + 1 < half64
      → Goes (output_message_handler env (wire k) s) (arrive capacity k r)
  unfolding output_message_handler dispatch
  arrive-Goes k s r e l =
      let p = stream k l in
      let q : eq_bytes (sent k).message_type output_stream_message ≡ true =
        rw p.kind (ground arith) in
      rw (p.parsed, p.valid, q) (handle-Goes k s r e l)

-- The handler of incoming messages, for one message after the other.
unfoldable pub handle_all : {W F : Type 0} → Env W F → List Bytes → M W F (Unit {0})
handle_all env [] = pure tt
handle_all env (raw ∷ raws) = do output_message_handler env raw; handle_all env raws
