-- ===== src/Tests/Retries.antt =====
-- A function that succeeds from time 10 on, retried from time 5 with a delay of 3.
use ecstoolkit.Base.{
  ℕ, ◌+◌, ℤ, pos, pos_part, ◌≡◌, ltb, if◌then◌else◌, Result, ok, err, timed_out, refl, arith, ◌+ℤ◌,
}
use ecstoolkit.Retry.{retry}
use ecstoolkit.Retry.Attempts.{Failures, none, more, retry-success}

abbrev sample_fn : ℕ → Result (Unit {0}) × ℕ
sample_fn w = (if ltb w 10 then err timed_out else ok tt, w)

abbrev sample_sleep : ℤ → ℕ → ℕ
sample_sleep delay w = w + pos_part delay

-- It fails at 5 and at 8, and the next call is at 14.
sample_fn-Failures : Failures sample_fn sample_sleep 2 (pos 3) (ok tt) (err timed_out) 5 14
unfolding ◌+ℤ◌
sample_fn-Failures = more 1 (pos 3) (ok tt) (err timed_out) timed_out 5 14 refl (
    more 0 (pos 6) (err timed_out) (err timed_out) timed_out 8 14 refl
      (none (pos 12) (err timed_out) 14))

retry-success_example : retry sample_fn sample_sleep (pos 5) (pos 3) 5 ≡ (ok tt, 14)
retry-success_example =
    retry-success sample_fn sample_sleep 5 2 (pos 3) (err timed_out) 5 14 sample_fn-Failures
      (omega arith) refl
