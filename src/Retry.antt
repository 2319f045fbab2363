-- ===== src/Retry.antt =====
-- retry/retry.go: Retry. The function that is retried and `time.Sleep` act on the world `W`.
pub mod Attempts
pub mod Repeatable
use ecstoolkit.Base.{ℕ, zero, suc, ℤ, pos_part, ◌+ℤ◌, wrap, half64, Result, ok, err, panic, blocked}

-- `sleep *= sleepConstant`: a duration is an int64, which wraps.
abbrev pub longer : ℤ → ℤ
longer sleep = wrap half64 (sleep +ℤ sleep)

module _ {W : Type 0} (fn : W → Result (Unit {0}) × W) (sleep : ℤ → W → W) where
  -- The loop, with what is left of `attempts` and with `lastErr`, which is `ok tt` for nil.
  unfoldable pub retry_loop : ℕ → ℤ → Result (Unit {0}) → W → Result (Unit {0}) × W
  retry_loop zero delay last_err w = (last_err, w)
  retry_loop (suc attempts) delay last_err w = elim (fn w).0 as (λ _. Result (Unit {0}) × W) [
    | ok _ ↦ (ok tt, (fn w).1)
    | err e ↦ retry_loop attempts (longer delay) (err e) (sleep delay (fn w).1)
    | panic ↦ (panic, (fn w).1)
    | blocked ↦ (blocked, (fn w).1)
  ]

  -- With no attempts, or a negative number of them, the loop is not entered.
  unfoldable pub retry : ℤ → ℤ → W → Result (Unit {0}) × W
  retry attempts delay w = retry_loop (pos_part attempts) delay (ok tt) w
