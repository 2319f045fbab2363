-- ===== src/Retry/Attempts.antt =====
-- How often the function is called, and with what delays.
use ecstoolkit.Base.{
  ℕ, zero, suc, ℤ, pos, ◌+ℤ◌, wrap, half64, ◌≡◌, ◌<◌, ◌∙◌, Result, ok, err, Error, refl, arith,
}
use ecstoolkit.Retry.{longer, retry_loop, retry}

module _ {W : Type 0} (fn : W → Result (Unit {0}) × W) (sleep : ℤ → W → W) where
  -- A number of calls that fail, each followed by a delay twice as long as the one before, in the 64 bits of
  -- a duration. `last` is the last error.
  pub data Failures : ℕ → ℤ → Result (Unit {0}) → Result (Unit {0}) → W → W → Type 0 where
    none : (delay : ℤ) (last : Result (Unit {0})) (w : W) → Failures 0 delay last last w w
    more :
        (n : ℕ) (delay : ℤ) (before last : Result (Unit {0})) (e : Error) (w w' : W)
        → (fn w).0 ≡ err e
        → Failures n (wrap half64 (delay +ℤ delay)) (err e) last (sleep delay (fn w).1) w'
        → Failures (suc n) delay before last w w'

  failing :
      (n : ℕ) (delay : ℤ) (before : Result (Unit {0})) (e : Error) (w : W)
      → (fn w).0 ≡ err e
      → retry_loop fn sleep (suc n) delay before w
        ≡ retry_loop fn sleep n (longer delay) (err e) (sleep delay (fn w).1)
  unfolding retry_loop
  failing n delay before e w h = rw (h, retry_loop) refl

  loop-success :
      (n k : ℕ) (delay : ℤ) (before last : Result (Unit {0})) (w w' : W)
      → Failures k delay before last w w'
      → k < n
      → (fn w').0 ≡ ok tt
      → retry_loop fn sleep n delay before w ≡ (ok tt, (fn w').1)
  unfolding retry_loop
  loop-success zero k delay before last w w' f l s = absurd (omega arith)
  loop-success (suc n) _ _ _ _ _ _ (none delay last w) l s = rw (s, retry_loop) refl
  loop-success (suc n) _ _ _ _ _ _ (more k delay before last e w w' h f) l s =
      failing n delay before e w h
      ∙ loop-success n k (longer delay) (err e) last (sleep delay (fn w).1) w' f (omega arith) s

  loop-failure :
      (n : ℕ) (delay : ℤ) (before last : Result (Unit {0})) (w w' : W)
      → Failures n delay before last w w'
      → retry_loop fn sleep n delay before w ≡ (last, w')
  unfolding retry_loop
  loop-failure _ _ _ _ _ _ (none delay last w) = refl
  loop-failure _ _ _ _ _ _ (more n delay before last e w w' h f) =
      failing n delay before e w h
      ∙ loop-failure n (longer delay) (err e) last (sleep delay (fn w).1) w' f

  -- If fewer calls than there are attempts fail, with a delay after each of them that is twice the one before
  -- in 64 bits, and the next one succeeds, the loop ends there with success, without a further call or
  -- delay.
  pub retry-success :
      (n k : ℕ) (delay : ℤ) (last : Result (Unit {0})) (w w' : W)
      → Failures k delay (ok tt) last w w'
      → k < n
      → (fn w').0 ≡ ok tt
      → retry fn sleep (pos n) delay w ≡ (ok tt, (fn w').1)
  unfolding retry
  retry-success n k delay last w w' f l s = loop-success n k delay (ok tt) last w w' f l s

  -- If as many calls fail as there are attempts, the result is the error of the last one.
  retry-failure :
      (n : ℕ) (delay : ℤ) (last : Result (Unit {0})) (w w' : W)
      → Failures n delay (ok tt) last w w'
      → retry fn sleep (pos n) delay w ≡ (last, w')
  unfolding retry
  retry-failure n delay last w w' f = loop-failure n delay (ok tt) last w w' f
