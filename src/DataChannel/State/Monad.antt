-- ===== src/DataChannel/State/Monad.antt =====
-- The methods of a data channel: a method changes the state and comes to a result, and the state that
-- it leaves is kept whatever the result.
use ecstoolkit.Base.{caught, Result, ok, err, panic, blocked, Error, Option}
use ecstoolkit.DataChannel.State.{State, DataChannel}

abbrev pub M : Type 0 → Type 0 → Type 0 → Type 0
M W F A = State W F → Result A × State W F

module _ {W F A : Type 0} where
  abbrev pub pure : A → M W F A
  pure a s = (ok a, s)

  abbrev pub fail : Error → M W F A
  fail e s = (err e, s)

  abbrev pub lift : Result A → M W F A
  lift r s = (r, s)

  -- A call of something outside the package.
  abbrev pub outside : (W → Result A × W) → M W F A
  outside f s = let (r, w) = f s.world in (r, record s { world = w })

  -- The same of something that cannot fail.
  abbrev pub ask : (W → A × W) → M W F A
  ask f s = let (a, w) = f s.world in (ok a, record s { world = w })

  -- `if err := m(); err != nil`
  abbrev pub catch : M W F A → M W F (Option Error)
  catch m s = let (r, s') = m s in (caught r, s')

module _ {W F A B : Type 0} where
  abbrev pub continue : Result A → (A → M W F B) → M W F B
  continue (ok a) f s = f a s
  continue (err e) f s = (err e, s)
  continue panic f s = (panic, s)
  continue blocked f s = (blocked, s)

  infixl 5 ◌>>=◌
  abbrev pub ◌>>=◌ : M W F A → (A → M W F B) → M W F B
  ◌>>=◌ m f s = let (r, s') = m s in continue r f s'

module _ {W F B : Type 0} where
  infixl 5 ◌>>◌
  abbrev pub ◌>>◌ : M W F (Unit {0}) → M W F B → M W F B
  m >> k = m >>= λ _. k

module _ {W F : Type 0} where
  abbrev pub read : M W F (DataChannel F)
  read s = (ok s.channel, s)

  abbrev pub modify : (DataChannel F → DataChannel F) → M W F (Unit {0})
  modify f s = (ok tt, record s { channel = f s.channel })
