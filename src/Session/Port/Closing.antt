-- ===== src/Session/Port/Closing.antt =====
-- Calls of which each is made whatever the others report, as in the closings of session/portsession/. Of the
-- errors that `errors.Join` joins, and of those of a group, the first stands for all.
use ecstoolkit.Base.{
  Option, some, none, Bool, true, false, Result, ok, err, Error, closed_pipe, if◌then◌else◌,
}
use ecstoolkit.Method.{Method, lift, catch, ◌>>=◌}

-- The first of the errors, as the result.
abbrev pub joined : Option Error → Option Error → Result (Unit {0})
joined (some e) f = err e
joined none (some f) = err f
joined none none = ok tt

-- Both calls, and then their errors.
unfoldable pub both : {S : Type 0} → Method S (Unit {0}) → Method S (Unit {0}) → Method S (Unit {0})
both first second = do e ← catch first; f ← catch second; lift (joined e f)

unfoldable pub kept : (Error → Bool) → Option Error → Option Error
kept p none = none
kept p (some e) = if p e then none else some e

-- An error that passes the test is no error.
unfoldable pub forgive : {S : Type 0} → (Error → Bool) → Method S (Unit {0}) → Method S (Unit {0})
unfolding kept
forgive p m = do e ← catch m; lift (joined (kept p e) none)

abbrev pub is_closed_pipe : Error → Bool
is_closed_pipe closed_pipe = true
is_closed_pipe _ = false
