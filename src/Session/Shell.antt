-- ===== src/Session/Shell.antt =====
-- session/shellsession/shellsession.go: the plugin of a shell session. `S` is the state of the session and of
-- the terminal; the loops are given by their rounds.
pub mod Resize
use ecstoolkit.Base.{
  ℕ, zero, suc, ◌==◌, ◌&&◌, ◌||◌, ℤ, Bool, true, false, not, List, [], ◌∷◌, ◌++◌, Option, some,
  none, Result, ok, err, panic, blocked, Error, zero_width_or_height, canceled, if◌then◌else◌,
}
use ecstoolkit.Buffer.{Bytes}
use ecstoolkit.Message.PayloadType
use ecstoolkit.Message.Types.{ClientMessage, codes}
use ecstoolkit.Util.{safe_uint32}
use ecstoolkit.Method.{
  Method, pure, fail, lift, catch, attempt, continue, ◌>>=◌, ◌>>◌, get_state, modify,
}
use ecstoolkit.Session.{Support}

-- `message.SizeData`
pub record SizeData : Type 0 where
  pub cols : ℕ
  pub rows : ℕ

-- `ShellSession` with the state around it: whether `shutdown` is set, and whether it has been called.
pub record ShellState (S : Type 0) : Type 0 where
  pub size_data : SizeData
  pub original_stty_state : Bytes
  pub has_shutdown : Bool
  pub is_shut_down : Bool
  pub outer : S

-- `sessionutil.SignalsByteMap`
pub data Signal : Type 0 where
  sigint sigquit sigtstp : Signal
  other : ℕ → Signal

abbrev pub signals_byte_map : Signal → Option ℕ
signals_byte_map sigint = some 3
signals_byte_map sigquit = some 28
signals_byte_map sigtstp = some 26
signals_byte_map (other n) = none

-- The terminal, its input and `stty`, and the JSON of the size.
pub record Terminal (S : Type 0) : Type 0 where
  pub terminal_sizer : S → Result (ℤ × ℤ) × S
  pub marshal_size : SizeData → Result Bytes
  pub read_stdin : S → Result Bytes × S
  pub stty_state : S → Result Bytes × S
  pub stty : Bytes → S → Result (Unit {0}) × S

abbrev pub default_width : ℕ
default_width = 300

abbrev pub default_height : ℕ
default_height = 100

module _ {S : Type 0} (session : Support S) (terminal : Terminal S) where
  -- A call of the session.
  abbrev pub outside : {A : Type 0} → Method S A → Method (ShellState S) A
  outside m s = let (r, o) = m s.outer in (r, record s { outer = o })

  checked : ℕ → ℕ → Result (ℕ × ℕ)
  checked safe_width safe_height =
      if safe_width == 0 || safe_height == 0
      then err zero_width_or_height
      else ok (safe_width, safe_height)

  -- The width and height of the terminal as uint32.
  converted : ℤ × ℤ → Method S (ℕ × ℕ)
  unfolding checked
  converted size = do
    safe_width ← lift (safe_uint32 size.0)
    safe_height ← lift (safe_uint32 size.1)
    lift (checked safe_width safe_height)

  unfoldable pub get_terminal_size : Method S (ℕ × ℕ)
  unfolding converted
  get_terminal_size = do size ← terminal.terminal_sizer; converted size

  -- The size that a round goes by.
  abbrev pub size_of : Result (ℕ × ℕ) → SizeData
  size_of (ok (width, height)) = record { cols = width; rows = height }
  size_of _ = record { cols = default_width; rows = default_height }

  abbrev pub same_size : SizeData → SizeData → Bool
  same_size a b = a.rows == b.rows && a.cols == b.cols

  unfoldable pub send_size : SizeData → Method (ShellState S) (Unit {0})
  send_size size_data = do
    s ← get_state
    if same_size s.size_data size_data then pure tt else (do
      modify (λ s. record s { size_data = size_data })
      input_size_data ← lift (terminal.marshal_size size_data)
      outside (session.send_input_data_message PayloadType.size input_size_data))

  -- A round of `handleTerminalResize`; its sleep is the time until the next.
  unfoldable pub resize_round : Method (ShellState S) (Unit {0})
  resize_round = do r ← attempt (outside get_terminal_size); send_size (size_of r)

  unfoldable pub process_stream_message_payload : ClientMessage → Method (ShellState S) Bool
  process_stream_message_payload output_message = do
    outside (session.display_message output_message)
    pure true

  unfoldable pub stop : Method (ShellState S) (Unit {0})
  stop = do
    outside session.close
    s ← get_state
    if s.has_shutdown then modify (λ s. record s { is_shut_down = true }) else lift panic

  -- The output of `stty -g` goes behind what the buffer holds.
  unfoldable pub disable_echo_and_input_buffering : Method (ShellState S) (Unit {0})
  disable_echo_and_input_buffering = do
    state ← outside terminal.stty_state
    modify (λ s. record s { original_stty_state = s.original_stty_state ++ state })
    outside (terminal.stty (codes "cbreak"))
    outside (terminal.stty (codes "-echo"))

  unfoldable pub enable_echo_and_input_buffering : Method (ShellState S) (Unit {0})
  enable_echo_and_input_buffering = do
    s ← get_state
    outside (terminal.stty s.original_stty_state)
    outside (terminal.stty (codes "echo"))

  -- The error of the goroutines goes before that of the deferred call.
  abbrev pub after_enable : Option Error → Option Error → Method (ShellState S) (Unit {0})
  after_enable (some e) _ = fail e
  after_enable none (some e) = fail e
  after_enable none none = pure tt

  -- `SetSessionHandlers`; `wait` is the three goroutines, up to the first error or the shutdown.
  unfoldable pub set_session_handlers :
      Method (ShellState S) (Unit {0}) → Method (ShellState S) (Unit {0})
  set_session_handlers wait = do
    modify (λ s. record s { has_shutdown = true })
    disable_echo_and_input_buffering
    waited ← catch wait
    enabled ← catch enable_echo_and_input_buffering
    after_enable waited enabled

  sent_byte : Option ℕ → Method (ShellState S) (Unit {0})
  sent_byte none = pure tt
  sent_byte (some b) = outside (session.send_input_data_message PayloadType.output (b ∷ []))

  -- What `HandleControlSignals` does with a signal.
  unfoldable pub handle_signal : Signal → Method (ShellState S) (Unit {0})
  unfolding sent_byte
  handle_signal sig = sent_byte (signals_byte_map sig)

  -- A round of `handleKeyboardInput`, and whether the loop goes on.
  unfoldable pub keyboard_round : Method (ShellState S) Bool
  keyboard_round = do r ← attempt (outside terminal.read_stdin); typed r
    where
      typed : Result Bytes → Method (ShellState S) Bool
      typed (ok stdin_bytes) = do
        outside (session.send_input_data_message PayloadType.output stdin_bytes)
        pure true
      typed (err canceled) = pure false
      typed (err e) = fail e
      typed panic = lift panic
      typed blocked = lift blocked
