-- ===== src/DataChannel/Receiving/TakenUp.antt =====
-- The loop over the buffer does what the reference does with the numbers aside.

use ecstoolkit.Base.{
  ℕ, zero, suc, ◌+◌, ◌<◌, ◌≡◌, refl, sym, ◌∙◌, ap, pos, true, false, List, [], Result, arith,
  length, half64, eq_bytes, some, none, Option, if◌then◌else◌, Bool-cases, inl, inr,
}
use ecstoolkit.Buffer.{Bytes}
use ecstoolkit.Message.Types.{ClientMessage}
use ecstoolkit.DataChannel.MapBuffer.{get, lookup}
use ecstoolkit.DataChannel.State.{State, Env, StreamingMessage, int64_comparable}
use ecstoolkit.DataChannel.Receiving.{
  advance, next_buffered, process_buffered_message, process_buffer_loop,
}
use ecstoolkit.DataChannel.Receiving.Buffered.{loop-none, loop-some}
use ecstoolkit.DataChannel.Receiving.Reference.{
  Receiver, member, take_out, take_up, length-take_out,
}
use ecstoolkit.DataChannel.Receiving.Aside.{IsEntry, member-Found, lookup-member}
use ecstoolkit.DataChannel.Receiving.Working.{IsWorking, handlers-success, decrypt-plain}
use ecstoolkit.DataChannel.Receiving.Delivery.{
  IsPeerMessage, Related, IsInStep, moved, advanced, removed,
}

module _ {W F : Type 0} (env : Env W F) (log : W → List ClientMessage) (h : ℕ)
    (works : IsWorking env log h) (sent : ℕ → ClientMessage) (wire : ℕ → Bytes)
    (stream : (k : ℕ) → k + 1 < half64 → IsPeerMessage env.lib k (sent k) (wire k)) (n capacity : ℕ)
    (before : List ClientMessage) where
  abbrev InStep : State W F → Receiver → Type 0
  InStep s r = Related sent wire h n capacity before s.channel (log s.world) r

  abbrev Goes : Result (Unit {0}) × State W F → Receiver → Type 0
  Goes p r = IsInStep sent wire h n capacity before log p r

  buffered-Goes :
      (b : StreamingMessage) (s : State W F) (r : Receiver)
      → InStep s r
      → member r.next r.aside ≡ true
      → IsEntry wire (pos r.next, b)
      → Goes
          (process_buffered_message env b s)
          (record { next = suc r.next; aside = take_out r.next r.aside })
  unfolding process_buffered_message advance
  buffered-Goes b s r e m i =
      let p = stream r.next i.small in
      let a =
        removed sent wire h n capacity before _ _ _ r.next m
          (advanced sent wire h n capacity before s.channel (log s.world) r i.small e) in
      rw (i.content, i.number, p.parsed)
        (rw (decrypt-plain env log h works (sent r.next) s e.serving) (
          rw (handlers-success env log h works (sent r.next) s e.serving) (record {
            returns = refl;
            state =
                moved sent wire h n capacity before _ _ _ _ _ refl
                  (sym (works.handling_log (sent r.next) s.world)) a;
          })))

  -- What is found, unless it is empty.
  abbrev picked : Option StreamingMessage → Option StreamingMessage
  picked o = elim o [ none ↦ none | some b ↦ if eq_bytes b.content [] then none else some b ]

  next_buffered-member :
      (s : State W F) (r : Receiver) (b : StreamingMessage)
      → InStep s r
      → get s.channel.incoming_message_buffer (pos r.next) ≡ some b
      → IsEntry wire (pos r.next, b)
      → next_buffered env s.channel ≡ some b
  unfolding next_buffered
  next_buffered-member s r b e f i =
      let g : get s.channel.incoming_message_buffer s.channel.expected_sequence_number ≡ some b =
        rw e.expected f in
      let q : eq_bytes b.content [] ≡ false = rw i.content (stream r.next i.small).some_bytes in
      ap picked g ∙ rw q refl

  next_buffered-absent :
      (s : State W F) (r : Receiver)
      → InStep s r
      → member r.next r.aside ≡ false
      → next_buffered env s.channel ≡ none
  unfolding next_buffered get
  next_buffered-absent s r e m =
      let es = s.channel.incoming_message_buffer.messages in
      let g : lookup s.channel.expected_sequence_number es ≡ none =
        rw e.expected (lookup-member wire r.next es e.entries (rw e.aside m)) in
      ap picked g

  pub loop-Goes :
      (fuel : ℕ) (s : State W F) (r : Receiver)
      → InStep s r
      → length r.aside < fuel
      → Goes (process_buffer_loop env fuel s) (take_up fuel r.next r.aside)
  unfolding take_up get
  loop-Goes zero s r e l = absurd (omega arith)
  loop-Goes (suc fuel) s r e l = elim (Bool-cases (member r.next r.aside)) [
    | inl m ↦
        let f =
          member-Found wire r.next s.channel.incoming_message_buffer.messages e.entries
            (rw e.aside m) in
        let g = buffered-Goes f.message s r e m f.entry in
        rw
          (
            m,
            loop-some env fuel s f.message (next_buffered-member s r f.message e f.found f.entry),
            g.returns,
          )
          (loop-Goes fuel _ _ g.state (omega (arith, length-take_out r.next r.aside m)))
    | inr m ↦
        rw (m, loop-none env fuel s (next_buffered-absent s r e m))
          (record { returns = refl; state = e })
  ]
