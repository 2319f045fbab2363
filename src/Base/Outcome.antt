-- ===== src/Base/Outcome.antt =====
-- What a Go call comes to: a value, an error value, a run-time panic, or a wait that nothing ends.
-- An error is the sentinel that `errors.Is` finds in it; the wrapping text is left out.
use Prim.Native.Nat.{ℕ}
use mathlib.Core.Path.{◌≡◌, refl}
use mathlib.Core.Logic.{◌⊎◌, inl, inr}
use mathlib.Core.Bool.{Bool, true, false}
use mathlib.Core.Option.{Option, none, some}

-- The sentinels of the packages of the repository; `eof` is `io.EOF`, `canceled` is
-- `context.Canceled`, `net_closed` is `net.ErrClosed`, `closed_pipe` is `io.ErrClosedPipe`, and
-- `external n` is any other error value that code outside the repository returns.
pub data Error : Type 0 where
  offset_outside not_enough_space negative nil_input invalid : Error
  negative_value overflow : Error
  invalid_version length_mismatch : Error
  timed_out unknown_session_type unsupported_action : Error
  connection_closed empty_input : Error
  not_tcp_listener connection_failed zero_width_or_height : Error
  invalid_arn invalid_session_type : Error
  service_not_found container_not_found task_not_found no_tasks : Error
  invalid_image invalid_task_definition invalid_option : Error
  nil_websocket invalid_message_type context_done : Error
  eof unexpected_eof canceled net_closed closed_pipe : Error
  external : ℕ → Error

-- `errors.Is(err, io.EOF)`: `ErrConnectionClosed` wraps it.
abbrev pub is_eof : Error → Bool
is_eof eof = true
is_eof connection_closed = true
is_eof _ = false

pub data Result {ℓ} (A : Type ℓ) : Type ℓ where
  ok : A → Result A
  err : Error → Result A
  panic : Result A
  blocked : Result A

infixl 5 ◌>>=◌
-- Only a value goes on.
abbrev pub ◌>>=◌ {ℓ κ} : {A : Type ℓ} {B : Type κ} → Result A → (A → Result B) → Result B
panic >>= k = panic
blocked >>= k = blocked
err e >>= k = err e
ok a >>= k = k a

infixl 5 ◌>>◌
abbrev pub ◌>>◌ {κ} : {B : Type κ} → Result (Unit {0}) → Result B → Result B
first >> second = first >>= λ done. second

-- `if b { return e }`
abbrev pub fail_if : Bool → Error → Result (Unit {0})
fail_if true e = err e
fail_if false e = ok tt

-- Replaces the sentinel of an error.
abbrev pub relabel {ℓ} : {A : Type ℓ} → Error → Result A → Result A
relabel e (ok a) = ok a
relabel e (err _) = err e
relabel e panic = panic
relabel e blocked = blocked

-- The error of a call, for a caller that goes on after it.
abbrev pub caught {ℓ} : {A : Type ℓ} → Result A → Result (Option Error)
caught (ok a) = ok none
caught (err e) = ok (some e)
caught panic = panic
caught blocked = blocked

-- The value or the error of a call, for the same.
abbrev pub attempted {ℓ} : {A : Type ℓ} → Result A → Result (Result A)
attempted (ok a) = ok (ok a)
attempted (err e) = ok (err e)
attempted panic = panic
attempted blocked = blocked

-- The call returns: it does not panic and does not wait for ever.
abbrev pub Returns {ℓ} : {A : Type ℓ} → Result A → Type 0
Returns (ok a) = Unit {0}
Returns (err e) = Unit {0}
Returns panic = ⊥
Returns blocked = ⊥

-- The call returns an error.
abbrev pub Fails {ℓ} : {A : Type ℓ} → Result A → Type 0
Fails (ok a) = ⊥
Fails (err e) = Unit {0}
Fails panic = ⊥
Fails blocked = ⊥

pub bind-ok {ℓ κ} :
    {A : Type ℓ} {B : Type κ} {m : Result A} (f : A → Result B) {a : A} → m ≡ ok a → (m >>= f) ≡ f a
bind-ok f e = rw e

pub bind-Returns {ℓ κ} :
    {A : Type ℓ} {B : Type κ} (m : Result A) (f : A → Result B)
    → Returns m
    → ((a : A) → m ≡ ok a → Returns (f a))
    → Returns (m >>= f)
bind-Returns (ok a) f h k = k a refl
bind-Returns (err e) f h k = tt
bind-Returns panic f h k = absurd h
bind-Returns blocked f h k = absurd h

pub Returns-cases {ℓ} :
    {A : Type ℓ} (r : Result A) → Returns r → ((a : A) × (r ≡ ok a)) ⊎ ((e : Error) × (r ≡ err e))
Returns-cases (ok a) h = inl (a, refl)
Returns-cases (err e) h = inr (e, refl)
Returns-cases panic h = absurd h
Returns-cases blocked h = absurd h
