-- ===== src/Communicator.antt =====
-- communicator/websocketchannel.go and websocketutil/websocketutil.go: the web socket under a data
-- channel. `W` is the state of gorilla/websocket and of the clock; a connection is known by a number.
pub mod Lifecycle
pub mod Reading
use ecstoolkit.Base.{
  ℕ, zero, suc, ◌==◌, ◌-◌, ◌||◌, Bool, true, false, not, List, [], ◌∷◌, Option, some, none, Result,
  ok, err, panic, blocked, connection_closed, empty_input, nil_websocket, invalid_message_type,
  length, if◌then◌else◌, ltb,
}
use ecstoolkit.Buffer.{Bytes}
use ecstoolkit.Message.Types.{codes}
use ecstoolkit.Method.{Method, pure, fail, lift, catch, continue, ◌>>=◌, ◌>>◌, get_state, modify}

-- What the package uses of gorilla/websocket. A message that is read comes with its type.
pub record Sockets (W : Type 0) : Type 0 where
  pub dial : Bytes → W → Result ℕ × W
  pub write : ℕ → ℕ → Bytes → W → Result (Unit {0}) × W
  pub read : ℕ → W → Result (ℕ × Bytes) × W
  pub close_connection : ℕ → W → Result (Unit {0}) × W

-- `WebSocketChannel`. `pingers` counts the goroutines of `startPings` that have not returned.
pub record WebSocketChannel : Type 0 where
  pub channel_url : Bytes
  pub is_open : Bool
  pub connection : Option ℕ
  pub channel_token : Bytes
  pub pingers : ℕ

pub record Link (W : Type 0) : Type 0 where
  pub socket : WebSocketChannel
  pub world : W

-- `websocket.TextMessage`, `websocket.BinaryMessage`, `websocket.PingMessage`
abbrev pub text_message : ℕ
text_message = 1

abbrev pub binary_message : ℕ
binary_message = 2

abbrev pub ping_message : ℕ
ping_message = 9

-- `config.RetryAttempt`
abbrev pub retry_attempt : ℕ
retry_attempt = 5

unfoldable pub new_web_socket_channel : Bytes → Bytes → WebSocketChannel
new_web_socket_channel channel_url channel_token = record {
  channel_url = channel_url;
  is_open = false;
  connection = none;
  channel_token = channel_token;
  pingers = 0;
}

module _ {W : Type 0} where
  -- A call of gorilla/websocket.
  abbrev pub outside : {A : Type 0} → (W → Result A × W) → Method (Link W) A
  outside f s = let (r, w) = f s.world in (r, record s { world = w })

  abbrev pub set_socket : (WebSocketChannel → WebSocketChannel) → Method (Link W) (Unit {0})
  set_socket f s = (ok tt, record s { socket = f s.socket })

  unfoldable pub set_channel_token : Bytes → Method (Link W) (Unit {0})
  set_channel_token channel_token = set_socket (λ c. record c { channel_token = channel_token })

module _ {W : Type 0} (sockets : Sockets W) where
  -- A method of a connection; a nil connection has none.
  write_by : Option ℕ → ℕ → Bytes → Method (Link W) (Unit {0})
  write_by none kind input = lift panic
  write_by (some k) kind input = outside (sockets.write k kind input)

  unfoldable pub send_message : Bytes → ℕ → Method (Link W) (Unit {0})
  unfolding write_by
  send_message input input_type = do
    s ← get_state
    if not s.socket.is_open
        then fail connection_closed
        else if ltb (length input) 1
        then fail empty_input
        else write_by s.socket.connection input_type input

  -- `WebsocketUtil.CloseConnection`
  unfoldable pub close_connection : Option ℕ → Method (Link W) (Unit {0})
  close_connection none = fail nil_websocket
  close_connection (some k) = outside (sockets.close_connection k)

  unfoldable pub close : Method (Link W) (Unit {0})
  unfolding close_connection
  close = do
    s ← get_state
    if s.socket.is_open
        then (do
          set_socket (λ c. record c { is_open = false })
          close_connection s.socket.connection)
        else pure tt

  -- `WebsocketUtil.OpenConnection` and `Open`, which starts a goroutine that pings.
  unfoldable pub open_connection : Bytes → Method (Link W) ℕ
  open_connection url = outside (sockets.dial url)

  unfoldable pub open_channel : Method (Link W) (Unit {0})
  unfolding open_connection
  open_channel = do
    s ← get_state
    ws ← open_connection s.socket.channel_url
    set_socket (λ c. record c { connection = some ws; is_open = true; pingers = suc c.pingers })

  read_by : Option ℕ → Method (Link W) (ℕ × Bytes)
  read_by none = lift panic
  read_by (some k) = outside (sockets.read k)

  -- The switch on what was read; `retry` is the rest of the loop.
  abbrev pub received : Bool → Method (Link W) Bytes → Result (ℕ × Bytes) → Method (Link W) Bytes
  received is_last retry (err e) = if is_last then fail e else retry
  received is_last retry (ok (message_type, raw_message)) =
      if message_type == text_message || message_type == binary_message
      then pure raw_message
      else fail invalid_message_type
  received is_last retry panic = lift panic
  received is_last retry blocked = lift blocked

  -- The loop, with the number of tries that are left of `retry_attempt`; the last one that fails ends it, so
  -- that zero tries are never left.
  unfoldable pub read_tries : ℕ → Method (Link W) Bytes
  unfolding read_by
  read_tries zero s = (err connection_closed, s)
  read_tries (suc tries) s =
      if not s.socket.is_open
      then (err connection_closed, s)
      else (let (r, s') = read_by s.socket.connection s in
          received (tries == 0) (read_tries tries) r s')

  unfoldable pub read_message : Method (Link W) Bytes
  read_message = read_tries retry_attempt

  unfoldable pub ping : Method (Link W) (Unit {0})
  unfolding write_by
  ping = do s ← get_state; write_by s.socket.connection ping_message (codes "keepalive")

  -- One round of one goroutine of `startPings`; its sleep is the time until the next round.
  unfoldable pub ping_round : Method (Link W) (Unit {0})
  ping_round = do
    s ← get_state
    if not s.socket.is_open
        then set_socket (λ c. record c { pingers = c.pingers - 1 })
        else (do _ ← catch ping; pure tt)
