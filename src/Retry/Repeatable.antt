-- ===== src/Retry/Repeatable.antt =====
-- retry/retryer.go: RepeatableExponentialRetryer. The state `S` is that of the function called and of the
-- clock. The delay of an attempt in milliseconds, a product and a power of float64, is a parameter.
pub mod Calls
use ecstoolkit.Base.{
  ℕ, zero, suc, ◌*◌, ◌+◌, ◌-◌, ◌/◌, ℤ, pos, negsuc, ltb_ℤ, wrap, half64, Result, ok, err, panic,
  blocked, if◌then◌else◌,
}
use ecstoolkit.Method.{Method}

-- `* time.Millisecond`, which wraps, and `/ time.Millisecond`, which truncates towards zero.
abbrev pub from_milli : ℤ → ℤ
from_milli (pos n) = wrap half64 (pos (n * 1000000))
from_milli (negsuc n) = wrap half64 (negsuc ((n + 1) * 1000000 - 1))

abbrev pub to_milli : ℤ → ℤ
to_milli (pos n) = pos (n / 1000000)
to_milli (negsuc n) =
    if ltb_ℤ (negsuc n) (negsuc 999998) then negsuc ((n + 1) / 1000000 - 1) else pos 0

-- `RepeatableExponentialRetryer` with its sleep. `max_attempts` is a count: the code has five.
pub record Retryer (S : Type 0) : Type 0 where
  pub callable_func : Method S (Unit {0})
  pub delay_of_attempt : ℕ → ℤ
  pub max_delay_in_milli : ℤ
  pub max_attempts : ℕ
  pub sleep : ℤ → S → S

module _ {S : Type 0} (r : Retryer S) where
  unfoldable pub next_sleep_time : ℕ → ℤ
  next_sleep_time attempt = from_milli (r.delay_of_attempt attempt)

  -- The attempt that the delay is of: too long a delay starts again with the first.
  unfoldable pub capped : ℕ → ℕ
  capped attempt =
      if ltb_ℤ r.max_delay_in_milli (to_milli (next_sleep_time attempt)) then 0 else attempt

  -- The loop, with `max_attempts - failedAttemptsSoFar` calls to come after a failure.
  unfoldable pub call_loop : ℕ → ℕ → Method S (Unit {0})
  call_loop zero attempt s = r.callable_func s
  call_loop (suc more) attempt s = elim (r.callable_func s).0 as (λ _. Result (Unit {0}) × S) [
    | ok _ ↦ (ok tt, (r.callable_func s).1)
    | err e ↦
        call_loop more (suc (capped attempt))
          (r.sleep (next_sleep_time (capped attempt)) (r.callable_func s).1)
    | panic ↦ (panic, (r.callable_func s).1)
    | blocked ↦ (blocked, (r.callable_func s).1)
  ]

  unfoldable pub call : Method S (Unit {0})
  call = call_loop r.max_attempts 0
