-- ===== src/Log.antt =====
-- log/slogger.go and log/interface.go: a record is handled if its level is enabled. log/slog, the clock and the
-- stack are parameters.
use ecstoolkit.Base.{ℕ, ℤ, pos, negsuc, Bool, List, ◌++◌, if◌then◌else◌}
use ecstoolkit.Buffer.{Bytes}
use ecstoolkit.Method.{Method, pure, catch, ◌>>=◌, get_state}

abbrev level_trace : ℤ
level_trace = negsuc 7

-- The levels of log/slog.
abbrev level_debug : ℤ
level_debug = negsuc 3

abbrev level_info : ℤ
level_info = pos 0

abbrev level_warn : ℤ
level_warn = pos 4

abbrev level_error : ℤ
level_error = pos 8

-- `slog.Record` with arguments of type `A`; `caller` is the place of the call.
pub record LogRecord (A : Type 0) : Type 0 where
  pub time : ℕ
  pub level : ℤ
  pub message : Bytes
  pub caller : ℕ
  pub arguments : List A

-- What `Slogger` uses of its `slog.Logger`, the clock and the stack. `callers` gives the place so many frames up; a
-- logger is known by the arguments that `With` has given it.
pub record Logger (W A : Type 0) : Type 0 where
  pub enabled : List A → ℤ → W → Bool
  pub handle : List A → LogRecord A → Method W (Unit {0})
  pub now : Method W ℕ
  pub callers : ℕ → Method W ℕ

-- `Slogger`
pub record Slogger (A : Type 0) : Type 0 where
  pub given : List A

module _ {W A : Type 0} (logger : Logger W A) where
  -- The body that the five methods share. What the handler reports is dropped.
  unfoldable pub log_at : ℤ → Slogger A → Bytes → List A → Method W (Unit {0})
  log_at level s message arguments = do
    w ← get_state
    if logger.enabled s.given level w
        then (do
          caller ← logger.callers 2
          time ← logger.now
          _ ← catch (
              logger.handle s.given (record {
                time = time;
                level = level;
                message = message;
                caller = caller;
                arguments = arguments;
              }))
          pure tt)
        else pure tt

  unfoldable pub trace : Slogger A → Bytes → List A → Method W (Unit {0})
  trace = log_at level_trace

  unfoldable pub debug : Slogger A → Bytes → List A → Method W (Unit {0})
  debug = log_at level_debug

  unfoldable pub info : Slogger A → Bytes → List A → Method W (Unit {0})
  info = log_at level_info

  unfoldable pub warn : Slogger A → Bytes → List A → Method W (Unit {0})
  warn = log_at level_warn

  unfoldable pub error : Slogger A → Bytes → List A → Method W (Unit {0})
  error = log_at level_error

unfoldable pub with_arguments : {A : Type 0} → Slogger A → List A → Slogger A
with_arguments s arguments = record { given = s.given ++ arguments }
