-- ===== src/DataChannel/Receiving/Buffered.antt =====
-- The loop that takes up the messages put aside: its rounds.
pub mod Termination
use mathlib.Core.Path.{subst}
use ecstoolkit.Base.{
  ℕ, zero, suc, ◌+◌, ◌<◌, ◌≡◌, refl, sym, ◌∙◌, ap, All, ℤ, eqb_ℤ_iff, Bool, true, false, List, [],
  ◌∷◌, Option, some, none, Result, ◌≢◌, ok, err, panic, blocked, arith, length, Option-cases, inl,
  inr,
}
use ecstoolkit.Message.Types.{ClientMessage}
use ecstoolkit.DataChannel.MapBuffer.{get, remove, lookup, delete}
use ecstoolkit.DataChannel.MapBuffer.Laws.{remove-some, length-delete}
use ecstoolkit.DataChannel.State.{
  State, DataChannel, Env, StreamingMessage, Handler, first_message, registered, int64_comparable,
}
use ecstoolkit.DataChannel.State.Monad.{M, ◌>>◌, pure, continue}
use ecstoolkit.DataChannel.Handlers.{
  deregister_output_stream_handler, send_type_set, send_display, set_shell, first_message_handler,
  call, call_handlers, process_output_message_with_handlers, handler_at, shared,
}
use ecstoolkit.DataChannel.Handshake.{decrypt_data, decrypt_by}
use ecstoolkit.DataChannel.Receiving.{
  advance, decrypt_payload, next_buffered, process_buffered_message, process_buffer_loop,
}

module _ {W F : Type 0} (env : Env W F) where
  call-incoming :
      (h : Handler) (m : ClientMessage) (s : State W F)
      → (call env h m s).1.channel.incoming_message_buffer ≡ s.channel.incoming_message_buffer
  unfolding call first_message_handler deregister_output_stream_handler set_shell send_type_set
      send_display
  call-incoming first_message m s = ground arith
  call-incoming (registered k) m s = refl

  -- The rest of the loop after a handler's answer.
  abbrev after_answer : ℕ → ℕ → List Handler → ClientMessage → Bool → M W F Bool
  after_answer rounds i view m is_ready s = elim is_ready [
    | true ↦
        call_handlers env rounds (suc i) (shared s.channel.output_stream_handlers view) true m s
    | false ↦ (ok false, s)
  ]

  call_handlers-step :
      (rounds i : ℕ) (view : List Handler) (ready : Bool) (m : ClientMessage) (s : State W F)
      (o : Option Handler)
      → handler_at view i ≡ o
      → call_handlers env (suc rounds) i view ready m s ≡ (elim o [
        | none ↦ (ok ready, s)
        | some h ↦ continue (call env h m s).0 (after_answer rounds i view m) (call env h m s).1
      ])
  unfolding call_handlers
  call_handlers-step rounds i view ready m s none e = rw (e, call_handlers) refl
  call_handlers-step rounds i view ready m s (some h) e =
      rw (e, call_handlers) (answered (call env h m s).0 (call env h m s).1)
    where
      answered :
          (r : Result Bool) (s' : State W F)
          → continue r
              (λ b. (λ t.
                (elim b as (λ _. M W F Bool) [
                  | true ↦
                      call_handlers env rounds
                        (suc i)
                        (shared t.channel.output_stream_handlers view)
                        true
                        m
                  | false ↦ pure false
                ])
                  t))
              s'
            ≡ continue r (after_answer rounds i view m) s'
      answered (ok true) s' = refl
      answered (ok false) s' = refl
      answered (err e') s' = refl
      answered panic s' = refl
      answered blocked s' = refl

  answer-incoming :
      (rounds i : ℕ) (view : List Handler) (m : ClientMessage)
      → ((i : ℕ) (view : List Handler) (ready : Bool) (m : ClientMessage) (s : State W F)
          → (call_handlers env rounds i view ready m s).1.channel.incoming_message_buffer
            ≡ s.channel.incoming_message_buffer)
      → (r : Result Bool) (s : State W F)
      → (continue r (after_answer rounds i view m) s).1.channel.incoming_message_buffer
        ≡ s.channel.incoming_message_buffer
  answer-incoming rounds i view m ih (ok true) s =
      ih (suc i) (shared s.channel.output_stream_handlers view) true m s
  answer-incoming rounds i view m ih (ok false) s = refl
  answer-incoming rounds i view m ih (err e) s = refl
  answer-incoming rounds i view m ih panic s = refl
  answer-incoming rounds i view m ih blocked s = refl

  call_handlers-incoming :
      (rounds i : ℕ) (view : List Handler) (ready : Bool) (m : ClientMessage) (s : State W F)
      → (call_handlers env rounds i view ready m s).1.channel.incoming_message_buffer
        ≡ s.channel.incoming_message_buffer
  unfolding call_handlers
  call_handlers-incoming zero i view ready m s = refl
  call_handlers-incoming (suc rounds) i view ready m s = elim (Option-cases (handler_at view i)) [
    | inl e ↦ rw (call_handlers-step rounds i view ready m s none e) refl
    | inr (h, e) ↦ rw (call_handlers-step rounds i view ready m s (some h) e) (
        answer-incoming rounds i view m (call_handlers-incoming rounds) (call env h m s).0
          (call env h m s).1
        ∙ call-incoming h m s)
  ]

  handlers-incoming :
      (m : ClientMessage) (s : State W F)
      → (process_output_message_with_handlers env m s).1.channel.incoming_message_buffer
        ≡ s.channel.incoming_message_buffer
  unfolding process_output_message_with_handlers
  handlers-incoming m s = ground (
    arith,
    call_handlers-incoming (length s.channel.output_stream_handlers) 0
        s.channel.output_stream_handlers false m s,
  )

  -- A round that succeeds takes the message out of the buffer.
  round-incoming :
      (b : StreamingMessage) (s : State W F)
      → (process_buffered_message env b s).0 ≡ ok tt
      → (process_buffered_message env b s).1.channel.incoming_message_buffer
        ≡ (remove s.channel.incoming_message_buffer b.sequence_number).1
  unfolding process_buffered_message advance decrypt_payload decrypt_data decrypt_by
  round-incoming b s h = grind (arith, handlers-incoming)

  -- Each message in the buffer stands under its own number.
  abbrev pub Keyed : List (ℤ × StreamingMessage) → Type 0
  Keyed = All (λ e. e.1.sequence_number ≡ e.0)

  lookup-Keyed :
      (k : ℤ) (v : StreamingMessage) (xs : List (ℤ × StreamingMessage))
      → Keyed xs
      → lookup k xs ≡ some v
      → v.sequence_number ≡ k
  unfolding lookup
  lookup-Keyed k v [] h e = cc
  lookup-Keyed k v ((j, w) ∷ xs) h e = ground (arith, eqb_ℤ_iff j k, h.0, lookup-Keyed k v xs h.1)

  delete-Keyed : (k : ℤ) (xs : List (ℤ × StreamingMessage)) → Keyed xs → Keyed (delete k xs)
  unfolding delete
  delete-Keyed k [] h = tt
  delete-Keyed k ((j, w) ∷ xs) h = ground (arith, delete-Keyed k xs h.1, h)

  -- What the loop finds is in the buffer under the expected number.
  next_buffered-lookup :
      (c : DataChannel F) (b : StreamingMessage)
      → next_buffered env c ≡ some b
      → lookup c.expected_sequence_number c.incoming_message_buffer.messages ≡ some b
  unfolding next_buffered get
  next_buffered-lookup c b e = ground arith

  -- The messages that a successful round leaves.
  round-left :
      (b : StreamingMessage) (s : State W F)
      → Keyed s.channel.incoming_message_buffer.messages
      → next_buffered env s.channel ≡ some b
      → (process_buffered_message env b s).0 ≡ ok tt
      → let left = (process_buffered_message env b s).1.channel.incoming_message_buffer.messages in
        Keyed left × (suc (length left) ≡ length s.channel.incoming_message_buffer.messages)
  round-left b s k n e =
      let xs = s.channel.incoming_message_buffer.messages in
      let l = next_buffered-lookup s.channel b n in
      let q : b.sequence_number ≡ s.channel.expected_sequence_number = lookup-Keyed _ b xs k l in
      let l' : lookup b.sequence_number xs ≡ some b = subst (λ j. lookup j xs ≡ some b) (sym q) l in
      let x =
        round-incoming b s e
        ∙ ap (λ p. p.1) (remove-some s.channel.incoming_message_buffer b.sequence_number b l') in
      rw x (delete-Keyed b.sequence_number xs k, length-delete b.sequence_number b xs l')

  abbrev round_of : ℕ → Option StreamingMessage → M W F (Unit {0})
  round_of n o = elim o as (λ _. M W F (Unit {0})) [
    | none ↦ pure tt
    | some b ↦ process_buffered_message env b >> process_buffer_loop env n
  ]

  pub loop-none :
      (n : ℕ) (s : State W F)
      → next_buffered env s.channel ≡ none
      → process_buffer_loop env (suc n) s ≡ (ok tt, s)
  unfolding process_buffer_loop
  loop-none n s e = ap (λ o. round_of n o s) e

  pub loop-some :
      (n : ℕ) (s : State W F) (b : StreamingMessage)
      → next_buffered env s.channel ≡ some b
      → process_buffer_loop env (suc n) s
        ≡ continue
            (process_buffered_message env b s).0
            (λ _. process_buffer_loop env n)
            (process_buffered_message env b s).1
  unfolding process_buffer_loop
  loop-some n s b e = ap (λ o. round_of n o s) e
