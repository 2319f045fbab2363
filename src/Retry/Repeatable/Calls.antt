-- ===== src/Retry/Repeatable/Calls.antt =====
-- How often the function is called.
use ecstoolkit.Base.{
  ℕ, zero, suc, ◌≡◌, ◌≤◌, ◌∙◌, ◌⊎◌, inl, inr, ok, err, Error, refl, ap, sym, arith,
}
use ecstoolkit.Retry.Repeatable.{Retryer, next_sleep_time, capped, call_loop, call}

module _ {S : Type 0} (r : Retryer S) where
  -- A number of calls that fail, each with the delay of its attempt after it.
  pub data Failures : ℕ → ℕ → S → S → Type 0 where
    none : (attempt : ℕ) (s : S) → Failures 0 attempt s s
    more :
        (n attempt : ℕ) (e : Error) (s s' : S)
        → (r.callable_func s).0 ≡ err e
        → Failures n
            (suc (capped r attempt))
            (r.sleep (next_sleep_time r (capped r attempt)) (r.callable_func s).1)
            s'
        → Failures (suc n) attempt s s'

  failing :
      (n attempt : ℕ) (e : Error) (s : S)
      → (r.callable_func s).0 ≡ err e
      → call_loop r (suc n) attempt s
        ≡ call_loop r n
            (suc (capped r attempt))
            (r.sleep (next_sleep_time r (capped r attempt)) (r.callable_func s).1)
  unfolding call_loop
  failing n attempt e s h = rw (h, call_loop) refl

  done :
      (n attempt : ℕ) (s : S)
      → (r.callable_func s).0 ≡ ok tt
      → call_loop r (suc n) attempt s ≡ (ok tt, (r.callable_func s).1)
  unfolding call_loop
  done n attempt s h = rw (h, call_loop) refl

  succeeding :
      (n attempt : ℕ) (s : S)
      → (r.callable_func s).0 ≡ ok tt
      → call_loop r n attempt s ≡ r.callable_func s
  unfolding call_loop
  succeeding zero attempt s h = refl
  succeeding (suc n) attempt s h = done n attempt s h ∙ ap (λ x. (x, (r.callable_func s).1)) (sym h)

  loop_lem :
      (n k attempt : ℕ) (s s' : S)
      → Failures k attempt s s'
      → ((k ≤ n) × ((r.callable_func s').0 ≡ ok tt)) ⊎ (k ≡ n)
      → call_loop r n attempt s ≡ r.callable_func s'
  unfolding call_loop
  loop_lem n _ _ _ _ (none attempt s) (inl (l, h)) = succeeding n attempt s h
  loop_lem zero _ _ _ _ (none attempt s) (inr e) = refl
  loop_lem (suc n) _ _ _ _ (none attempt s) (inr e) = absurd (omega arith)
  loop_lem zero _ _ _ _ (more k attempt e s s' h f) (inl c) = absurd (omega arith)
  loop_lem zero _ _ _ _ (more k attempt e s s' h f) (inr c) = absurd (omega arith)
  loop_lem (suc n) _ _ _ _ (more k attempt e s s' h f) (inl (l, t)) =
      failing n attempt e s h ∙ loop_lem n k _ _ s' f (inl (omega arith, t))
  loop_lem (suc n) _ _ _ _ (more k attempt e s s' h f) (inr c) =
      failing n attempt e s h ∙ loop_lem n k _ _ s' f (inr (omega arith))

  -- `Call` ends with the first call of the function that succeeds, after the calls and delays before it, if
  -- there have been no more failures than `MaxAttempts`; and it ends with the call after `MaxAttempts`
  -- failures, whatever comes of it.
  pub call_lem :
      (k : ℕ) (s s' : S)
      → Failures k 0 s s'
      → ((k ≤ r.max_attempts) × ((r.callable_func s').0 ≡ ok tt)) ⊎ (k ≡ r.max_attempts)
      → call r s ≡ r.callable_func s'
  unfolding call
  call_lem k s s' f c = loop_lem r.max_attempts k 0 s s' f c
