-- ===== src/Method.antt =====
-- The methods of an object: a method changes the state `S` and comes to a result, and the state that it
-- leaves is kept whatever the result. What is outside the repository is part of `S`.
use ecstoolkit.Base.{Result, ok, err, panic, blocked, Error, Option, caught, attempted}

abbrev pub Method : Type 0 → Type 0 → Type 0
Method S A = S → Result A × S

module _ {S A : Type 0} where
  abbrev pub pure : A → Method S A
  pure a s = (ok a, s)

  abbrev pub fail : Error → Method S A
  fail e s = (err e, s)

  abbrev pub lift : Result A → Method S A
  lift r s = (r, s)

  -- `if err := m(); err != nil`
  abbrev pub catch : Method S A → Method S (Option Error)
  catch m s = let (r, s') = m s in (caught r, s')

  -- `result, err := m()`, for a caller that goes on after an error.
  abbrev pub attempt : Method S A → Method S (Result A)
  attempt m s = let (r, s') = m s in (attempted r, s')

module _ {S A B : Type 0} where
  abbrev pub continue : Result A → (A → Method S B) → Method S B
  continue (ok a) k s = k a s
  continue (err e) k s = (err e, s)
  continue panic k s = (panic, s)
  continue blocked k s = (blocked, s)

  infixl 5 ◌>>=◌
  abbrev pub ◌>>=◌ : Method S A → (A → Method S B) → Method S B
  ◌>>=◌ m k s = let (r, s') = m s in continue r k s'

module _ {S B : Type 0} where
  infixl 5 ◌>>◌
  abbrev pub ◌>>◌ : Method S (Unit {0}) → Method S B → Method S B
  m >> k = m >>= λ _. k

module _ {S : Type 0} where
  abbrev pub get_state : Method S S
  get_state s = (ok s, s)

  abbrev pub modify : (S → S) → Method S (Unit {0})
  modify f s = (ok tt, f s)
