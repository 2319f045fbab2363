-- ===== src/DataChannel/Sending/Resend.antt =====
-- What the scheduler of repetitions does to the channel.
use mathlib.Core.Path.{subst}
use ecstoolkit.Base.{
  if◌then◌else◌, Bool, ℕ, zero, suc, ◌≤◌, ◌<◌, ◌≡◌, ◌≢◌, refl, true, false, Option, some, none,
  Result, ok, err, panic, blocked, timed_out, arith, leb, ltb_ℤ, sub_ℕ,
}
use ecstoolkit.DataChannel.ListBuffer.{front}
use ecstoolkit.DataChannel.State.{State, DataChannel, Env, StreamingMessage, resend_max_attempt}
use ecstoolkit.DataChannel.State.Monad.{M, pure, continue}
use ecstoolkit.DataChannel.Sending.{
  send_message, resend_due, resend_front, resend_round, resend_rounds,
}

-- The call leaves the channel as it was, and does not end with an error.
pub record Idle {W F : Type 0} (c : DataChannel F) (r : Result (Unit {0}) × State W F)
    : Type 0 where
  pub unchanged : r.1.channel ≡ c
  pub no_error : (e : _) → r.0 ≢ err e

module _ {W F : Type 0} (env : Env W F) where
  due-Idle :
      (m : StreamingMessage) (s : State W F)
      → m.resend_attempt < resend_max_attempt
      → Idle s.channel (resend_due env m s)
  unfolding resend_due send_message
  due-Idle m s h =
      let e : leb resend_max_attempt m.resend_attempt ≡ false = ground arith in
      rw e (record { unchanged = ground arith; no_error = λ x q. ground arith })

  if-Idle :
      (c : DataChannel F) (b : Bool) (x y : M W F (Unit {0})) (s : State W F)
      → Idle c (x s)
      → Idle c (y s)
      → Idle c ((if b then x else y) s)
  if-Idle c true x y s hx hy = hx
  if-Idle c false x y s hx hy = hy

  then-Idle :
      (c : DataChannel F) (r : Result (Unit {0}) × State W F) (k : M W F (Unit {0}))
      → Idle c r
      → ((s : State W F) → s.channel ≡ c → Idle c (k s))
      → Idle c (continue r.0 (λ _. k) r.1)
  then-Idle c (ok tt, s) k h hk = hk s h.unchanged
  then-Idle c (err e, s) k h hk = h
  then-Idle c (panic, s) k h hk = h
  then-Idle c (blocked, s) k h hk = h

  front-Idle :
      (o : Option StreamingMessage) (s : State W F)
      → ((m : StreamingMessage) → o ≡ some m → m.resend_attempt < resend_max_attempt)
      → Idle s.channel (resend_front env o s)
  unfolding resend_front
  front-Idle none s h = record { unchanged = refl; no_error = λ x q. cc }
  front-Idle (some m) s h =
      if-Idle s.channel
        (ltb_ℤ s.channel.retransmission_timeout (sub_ℕ (env.now s.world).0 m.last_sent_time))
        (resend_due env m) (pure tt) (record s { world = (env.now s.world).1 })
        (due-Idle m (record s { world = (env.now s.world).1 }) (h m refl))
        (record { unchanged = refl; no_error = λ x q. cc })

  round-Idle :
      (c : DataChannel F) (s : State W F)
      → s.channel ≡ c
      → ((m : StreamingMessage)
          → front c.outgoing_message_buffer ≡ some m
          → m.resend_attempt < resend_max_attempt)
      → Idle c (resend_round env s)
  unfolding resend_round
  round-Idle c s e h =
      subst (λ d. Idle d (resend_round env s)) e
        (front-Idle (front s.channel.outgoing_message_buffer) s
          (λ m q. h m (subst (λ d. front d.outgoing_message_buffer ≡ some m) e q)))

  rounds-Idle :
      (n : ℕ) (c : DataChannel F) (s : State W F)
      → s.channel ≡ c
      → ((m : StreamingMessage)
          → front c.outgoing_message_buffer ≡ some m
          → m.resend_attempt < resend_max_attempt)
      → Idle c (resend_rounds env n s)
  unfolding resend_rounds
  rounds-Idle zero c s e h = record { unchanged = e; no_error = λ x q. cc }
  rounds-Idle (suc n) c s e h =
      then-Idle c (resend_round env s) (resend_rounds env n) (round-Idle c s e h)
        (λ s' e'. rounds-Idle n c s' e' h)

  -- If the message in front starts below the limit of attempts, then after any number of rounds of the
  -- scheduler the channel is what it was, the count of attempts and the time of the last sending included, and the scheduler
  -- has not given up with an error.
  pub resend_rounds-Idle :
      (n : ℕ) (s : State W F)
      → ((m : StreamingMessage)
          → front s.channel.outgoing_message_buffer ≡ some m
          → m.resend_attempt < resend_max_attempt)
      → Idle s.channel (resend_rounds env n s)
  resend_rounds-Idle n s h = rounds-Idle n s.channel s refl h

  -- The scheduler stops with `ErrTimedOut` in the first round if the message in front has reached the limit
  -- and its timeout has passed.
  pub resend_round-timed_out :
      (m : StreamingMessage) (s : State W F)
      → front s.channel.outgoing_message_buffer ≡ some m
      → resend_max_attempt ≤ m.resend_attempt
      → ltb_ℤ s.channel.retransmission_timeout (sub_ℕ (env.now s.world).0 m.last_sent_time) ≡ true
      → (resend_round env s).0 ≡ err timed_out
  unfolding resend_round resend_front resend_due
  resend_round-timed_out m s e h t =
      let l : leb resend_max_attempt m.resend_attempt ≡ true = ground arith in
      rw e (rw t (rw l refl))
