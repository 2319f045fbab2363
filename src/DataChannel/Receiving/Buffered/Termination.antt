-- ===== src/DataChannel/Receiving/Buffered/Termination.antt =====
-- That the loop over the messages put aside ends.
use ecstoolkit.Base.{
  ℕ, zero, suc, ◌+◌, ◌<◌, ◌≡◌, ◌≢◌, refl, sym, ◌∙◌, some, none, Result, ok, err, panic, blocked,
  arith, length, Option-cases, inl, inr,
}
use ecstoolkit.DataChannel.State.{State, Env, StreamingMessage}
use ecstoolkit.DataChannel.State.Monad.{M, continue}
use ecstoolkit.DataChannel.Receiving.{next_buffered, process_buffered_message, process_buffer_loop}
use ecstoolkit.DataChannel.Receiving.Buffered.{Keyed, round-left, loop-none, loop-some}

module _ {W F : Type 0} (env : Env W F) where
  -- Two continuations that agree where a result is.
  continue-agree :
      (r : Result (Unit {0})) (s : State W F) (f g : M W F (Unit {0}))
      → (r ≡ ok tt → f s ≡ g s)
      → continue r (λ _. f) s ≡ continue r (λ _. g) s
  continue-agree (ok tt) s f g h = h refl
  continue-agree (err e) s f g h = refl
  continue-agree panic s f g h = refl
  continue-agree blocked s f g h = refl

  -- With more fuel than there are messages, any more makes no difference.
  loop_fuel :
      (n k : ℕ) (s : State W F)
      → Keyed env s.channel.incoming_message_buffer.messages
      → length s.channel.incoming_message_buffer.messages < n
      → process_buffer_loop env (n + k) s ≡ process_buffer_loop env n s
  loop_fuel zero k s h l = absurd (omega arith)
  loop_fuel (suc n) k s h l =
      let q : suc n + k ≡ suc (n + k) = omega arith in
      rw q (elim (Option-cases (next_buffered env s.channel)) [
        | inl e ↦ loop-none env (n + k) s e ∙ sym (loop-none env n s e)
        | inr (b, e) ↦
            loop-some env (n + k) s b e
            ∙ continue-agree (process_buffered_message env b s).0
                (process_buffered_message env b s).1 _ _
                (λ r.
                  let left = round-left env b s h e r in
                  loop_fuel n k (process_buffered_message env b s).1 left.0 (omega (arith, left.1)))
            ∙ sym (loop-some env n s b e)
      ])

  -- The loop without fuel: it ends where no message is next, or where a round does not succeed, with what that
  -- round came to; after a round that succeeds it goes on. A derivation is a run of finitely many rounds.
  pub data Ends : State W F → Result (Unit {0}) → State W F → Type 0 where
    empty : (s : State W F) → next_buffered env s.channel ≡ none → Ends s (ok tt) s
    stops :
        (s t : State W F) (b : StreamingMessage) (r : Result (Unit {0}))
        → next_buffered env s.channel ≡ some b
        → process_buffered_message env b s ≡ (r, t)
        → r ≢ ok tt
        → Ends s r t
    goes_on :
        (s t u : State W F) (b : StreamingMessage) (r : Result (Unit {0}))
        → next_buffered env s.channel ≡ some b
        → process_buffered_message env b s ≡ (ok tt, t)
        → Ends t r u
        → Ends s r u

  -- What a round came to decides whether the run is over.
  after_round :
      (n : ℕ) (b : StreamingMessage) (s t : State W F) (r : Result (Unit {0}))
      → next_buffered env s.channel ≡ some b
      → process_buffered_message env b s ≡ (r, t)
      → (r ≡ ok tt → Ends t (process_buffer_loop env n t).0 (process_buffer_loop env n t).1)
      → let done = continue r (λ _. process_buffer_loop env n) t in Ends s done.0 done.1
  after_round n b s t (ok tt) e p ih = goes_on s t _ b _ e p (ih refl)
  after_round n b s t (err x) e p ih = stops s t b (err x) e p (λ q. ground arith)
  after_round n b s t panic e p ih = stops s t b panic e p (λ q. ground arith)
  after_round n b s t blocked e p ih = stops s t b blocked e p (λ q. ground arith)

  -- If each message in the buffer stands under its own number, then with more fuel than there are messages
  -- the loop without fuel ends, and its result and state are those of the loop on fuel; any more fuel makes
  -- no difference.
  pub loop-Ends :
      (n k : ℕ) (s : State W F)
      → Keyed env s.channel.incoming_message_buffer.messages
      → length s.channel.incoming_message_buffer.messages < n
      → Ends s (process_buffer_loop env n s).0 (process_buffer_loop env n s).1
        × (process_buffer_loop env (n + k) s ≡ process_buffer_loop env n s)
  loop-Ends zero k s h l = absurd (omega arith)
  loop-Ends (suc n) k s h l = (
    elim (Option-cases (next_buffered env s.channel)) [
      | inl e ↦ rw (loop-none env n s e) (empty s e)
      | inr (b, e) ↦ rw (loop-some env n s b e) (
          after_round n b s (process_buffered_message env b s).1
            (process_buffered_message env b s).0 e refl
            (λ r.
              let left = round-left env b s h e r in
              (loop-Ends n k (process_buffered_message env b s).1 left.0
                (omega (arith, left.1))).0))
    ],
    loop_fuel (suc n) k s h l,
  )
