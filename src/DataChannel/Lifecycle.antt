-- ===== src/DataChannel/Lifecycle.antt =====
-- datachannel/datachannel.go: how a data channel is opened, listens, and reconnects. The goroutines of
-- `Open` are `listen` and the scheduler of DataChannel.Sending.
pub mod Reconnection
use ecstoolkit.Base.{
  ℕ, zero, suc, ℤ, pos, Bool, true, false, not, List, [], Option, some, none, Result, ok, err,
  panic, blocked, Error, timed_out, unknown_session_type, is_eof, if◌then◌else◌, eq_bytes,
}
use ecstoolkit.Buffer.{Bytes}
use ecstoolkit.Message.Types.{codes}
use ecstoolkit.Method.{attempt}
use ecstoolkit.Retry.Repeatable.{Retryer, call}
use ecstoolkit.DataChannel.State.{State, DataChannel, Env, first_message}
use ecstoolkit.DataChannel.State.Monad.{
  M, pure, fail, lift, outside, ask, catch, continue, ◌>>=◌, ◌>>◌, read, modify,
}
use ecstoolkit.DataChannel.Sending.{send_message}
use ecstoolkit.DataChannel.Handlers.{register_output_stream_handler}
use ecstoolkit.Version.{version}
use ecstoolkit.DataChannel.Receiving.{output_message_handler}

-- `service.OpenDataChannelInput`
pub record OpenDataChannelInput : Type 0 where
  pub message_schema_version : Bytes
  pub request_id : Bytes
  pub token_value : Bytes
  pub client_id : Bytes
  pub client_version : Bytes

-- The rest of `IWebSocketChannel`, the handlers that the plugin and the session register, and the clock.
-- `ReadMessage` gives a nil message with an error.
pub record Peer (W : Type 0) : Type 0 where
  pub client_id : Bytes
  pub ws_open : W → Result (Unit {0}) × W
  pub ws_close : W → Result (Unit {0}) × W
  pub ws_read : W → Result Bytes × W
  pub ws_token : W → Bytes
  pub ws_set_token : Bytes → W → W
  pub call_incoming_handler : Bytes → W → Result (Unit {0}) × W
  pub refresh_token : W → Result Bytes × W
  pub call_timeout_handler : W → Result (Unit {0}) × W
  pub marshal_open_input : OpenDataChannelInput → Result Bytes
  pub delay_of_attempt : ℕ → ℤ
  pub sleep : ℤ → W → W

-- `websocket.TextMessage`
abbrev text_message : ℕ
text_message = 1

-- config/config.go
abbrev pub message_schema_version : Bytes
message_schema_version = codes "1.0"

abbrev pub data_channel_num_max_retries : ℕ
data_channel_num_max_retries = 5

abbrev pub data_channel_retry_max_interval_millis : ℕ
data_channel_retry_max_interval_millis = 5000

module _ {W F : Type 0} (env : Env W F) (peer : Peer W) where
  unfoldable pub close : M W F (Unit {0})
  close = outside peer.ws_close

  unfoldable pub finalize_data_channel_handshake : Bytes → M W F (Unit {0})
  finalize_data_channel_handshake token_value = do
    uid ← ask env.new_uuid
    open_data_channel_input_bytes ← lift (
        peer.marshal_open_input (record {
          message_schema_version = message_schema_version;
          request_id = env.uuid_string uid;
          token_value = token_value;
          client_id = peer.client_id;
          client_version = version;
        }))
    send_message env open_data_channel_input_bytes text_message

  unfoldable pub open_socket : M W F (Unit {0})
  open_socket = do
    outside peer.ws_open
    token ← ask (λ w. (peer.ws_token w, w))
    finalize_data_channel_handshake token

  unfoldable pub reconnect : M W F (Unit {0})
  reconnect = do _ ← catch close; open_socket

  -- The function that `listen` retries.
  unfoldable pub reconnect_with_token : M W F (Unit {0})
  reconnect_with_token = do
    token ← outside peer.refresh_token
    if eq_bytes token []
        then fail timed_out
        else (do _ ← ask (λ w. (tt {0}, peer.ws_set_token token w)); reconnect)

  -- A retryer of the two methods, with the constants of config/config.go.
  abbrev pub retrier : M W F (Unit {0}) → Retryer (State W F)
  retrier callable = record {
    callable_func = callable;
    delay_of_attempt = peer.delay_of_attempt;
    max_delay_in_milli = pos data_channel_retry_max_interval_millis;
    max_attempts = data_channel_num_max_retries;
    sleep = λ d s. record s { world = peer.sleep d s.world };
  }

  unfoldable pub call_error_retrier : M W F (Unit {0})
  call_error_retrier = call (retrier reconnect_with_token)

  -- `if closeErr := c.Close(); closeErr != nil { log }; return err`
  abbrev pub close_and_fail : {A : Type 0} → Error → M W F A
  close_and_fail e = do _ ← catch close; fail e

  reconnected : Option Error → M W F Bytes
  reconnected none = pure []
  reconnected (some e) = close_and_fail e

  -- The message of a round. After an error and a reconnection it is nil.
  raw_message_of : Result Bytes → M W F Bytes
  unfolding reconnected
  raw_message_of (ok raw_message) = pure raw_message
  raw_message_of (err e) =
      if is_eof e then fail e else (do x ← catch call_error_retrier; reconnected x)
  raw_message_of panic = lift panic
  raw_message_of blocked = lift blocked

  after_message : M W F (Unit {0}) → Option Error → M W F (Unit {0})
  after_message rest none = rest
  after_message rest (some e) = close_and_fail e

  -- The loop, for some number of rounds; `blocked` says that it would go on.
  unfoldable pub listen : ℕ → M W F (Unit {0})
  unfolding raw_message_of after_message
  listen zero = lift blocked
  listen (suc rounds) = do
    r ← attempt (outside peer.ws_read)
    raw_message ← raw_message_of r
    outside (peer.call_incoming_handler raw_message)
    x ← catch (output_message_handler env raw_message)
    after_message (listen rounds) x

  opened : Option Error → M W F (Unit {0})
  opened none = pure tt
  opened (some e) = call (retrier reconnect)

  -- `Open`, up to the start of the two goroutines.
  unfoldable pub start : M W F (Unit {0})
  unfolding opened
  start = do register_output_stream_handler first_message false; x ← catch open_socket; opened x

-- What the `select` of `establishSessionType` receives: that the scheduler gave up, or whether a session
-- type is set.
pub data Received : Type 0 where
  resend_timeout : Received
  session_type_set : Bool → Received

module _ {W F : Type 0} (peer : Peer W) where
  -- The rest of `Open`.
  unfoldable pub establish_session_type : Received → M W F Bytes
  establish_session_type resend_timeout = do
    outside peer.call_timeout_handler
    fail unknown_session_type
  establish_session_type (session_type_set is_set) =
      if not is_set then fail unknown_session_type else (do c ← read; pure c.session_type)
