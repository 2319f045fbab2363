-- ===== src/Session/Port/Stdio.antt =====
-- session/portsession/standardstreamforwarding.go: the standard streams. A file is known by a number.
use ecstoolkit.Base.{
  ℕ, Bool, true, false, Option, some, none, Result, ok, err, panic, blocked, Error, is_eof,
  if◌then◌else◌,
}
use ecstoolkit.Buffer.{Bytes}
use ecstoolkit.Message.PayloadType
use ecstoolkit.Message.Types.{ClientMessage}
use ecstoolkit.Method.{Method, pure, fail, lift, attempt, ◌>>=◌, ◌>>◌, get_state, modify}
use ecstoolkit.Session.{Support}
use ecstoolkit.Session.Port.{PortSession}
use ecstoolkit.Session.Port.Closing.{both}

-- `StandardStreamForwarding` with the state around it.
pub record StandardStreamForwarding (S : Type 0) : Type 0 where
  pub input_stream : Option ℕ
  pub output_stream : Option ℕ
  pub outer : S

-- What it uses of package os.
pub record Files (S : Type 0) : Type 0 where
  pub stdin : ℕ
  pub stdout : ℕ
  pub read : ℕ → S → Result Bytes × S
  pub write : ℕ → Bytes → S → Result (Unit {0}) × S
  pub close : ℕ → S → Result (Unit {0}) × S
  pub null_error : Error

module _ {S : Type 0} (files : Files S) (session : Support S) where
  -- A call of the session or of a file.
  abbrev outside : {A : Type 0} → Method S A → Method (StandardStreamForwarding S) A
  outside m s = let (r, o) = m s.outer in (r, record s { outer = o })

  -- A method of a file; that of a nil file is an error.
  with : {A : Type 0} → Option ℕ → (ℕ → S → Result A × S) → Method (StandardStreamForwarding S) A
  with none f = fail files.null_error
  with (some k) f = outside (f k)

  abbrev set : Option ℕ → Bool
  set none = false
  set (some k) = true

  unfoldable pub is_stream_not_set : Method (StandardStreamForwarding S) Bool
  is_stream_not_set = do
    s ← get_state
    if set s.input_stream
        then (if set s.output_stream then pure false else pure true)
        else pure true

  unfoldable pub stop : Method (StandardStreamForwarding S) (Unit {0})
  unfolding with
  stop = do s ← get_state; both (with s.input_stream files.close) (with s.output_stream files.close)

  unfoldable pub initialize_streams : Bytes → Method (StandardStreamForwarding S) (Unit {0})
  initialize_streams agent_version =
      modify (λ s. record s { input_stream = some files.stdin; output_stream = some files.stdout })

  unfoldable pub handle_read_error : Error → Method (StandardStreamForwarding S) (Unit {0})
  handle_read_error e = if is_eof e then pure tt else fail e

  -- A round of `ReadStream`: true where the loop goes on.
  after_read : Result Bytes → Method (StandardStreamForwarding S) Bool
  unfolding handle_read_error
  after_read (ok msg) = do
    outside (session.send_input_data_message PayloadType.output msg)
    pure true
  after_read (err e) = do handle_read_error e; pure false
  after_read panic = lift panic
  after_read blocked = lift blocked

  unfoldable pub read_round : Method (StandardStreamForwarding S) Bool
  unfolding with after_read
  read_round = do s ← get_state; r ← attempt (with s.input_stream files.read); after_read r

  unfoldable pub write_stream : ClientMessage → Method (StandardStreamForwarding S) (Unit {0})
  unfolding with
  write_stream message = do s ← get_state; with s.output_stream (λ k. files.write k message.payload)

  unfoldable pub port_session : PortSession (StandardStreamForwarding S)
  port_session = record {
    is_stream_not_set = is_stream_not_set;
    initialize_streams = initialize_streams;
    write_stream = write_stream;
    stop = stop;
  }
