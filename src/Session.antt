-- ===== src/Session.antt =====
-- session/session.go and the interfaces of the session package: what a plugin uses of its session, and
-- how the session is made of a data channel and of the SSM API.
pub mod Shell
pub mod Port
use ecstoolkit.Base.{
  ℕ, Option, some, none, List, [], ◌∷◌, Result, ok, err, panic, blocked, Bool, true, false,
}
use ecstoolkit.Buffer.{Bytes}
use ecstoolkit.Message.Types.{ClientMessage}
use ecstoolkit.Method.{Method}
use ecstoolkit.DataChannel.State.{State, DataChannel, Env, Handler, registered}
use ecstoolkit.DataChannel.State.Monad.{M, pure, lift, outside, continue, ◌>>=◌, ◌>>◌, read, modify}
use ecstoolkit.DataChannel.Sending.{send_flag, send_input_data_message}
use ecstoolkit.DataChannel.Handlers.{register_output_stream_handler}
use ecstoolkit.DataChannel.Lifecycle.{Peer, Received, start, establish_session_type, close}

-- `ISessionTypeSupport` and `ISessionSubTypeSupport`, over the state `S` that the session works on.
pub record Support (S : Type 0) : Type 0 where
  pub send_flag : ℕ → Method S (Unit {0})
  pub send_input_data_message : ℕ → Bytes → Method S (Unit {0})
  pub terminate_session : Method S (Unit {0})
  pub close : Method S (Unit {0})
  pub display_message : ClientMessage → Method S (Unit {0})
  pub agent_version : S → Bytes

-- What the session uses of the SSM API, by the id of a session, and the standard output.
pub record Service (W : Type 0) : Type 0 where
  pub session_id : Bytes
  pub call_terminate_session : Bytes → W → Result (Unit {0}) × W
  pub call_resume_session : Bytes → W → Result (Option Bytes) × W
  pub print : Bytes → W → Result (Unit {0}) × W

-- What is left of a printing, whose error is only logged.
printed : Result (Unit {0}) → Result (Unit {0})
printed (ok x) = ok tt
printed (err e) = ok tt
printed panic = panic
printed blocked = blocked

module _ {W : Type 0} (service : Service W) where
  -- `TerminateSession`, which is also the timeout handler of the data channel.
  unfoldable pub terminate_session : W → Result (Unit {0}) × W
  terminate_session w = service.call_terminate_session service.session_id w

  token_of : Option Bytes → Bytes
  token_of none = []
  token_of (some token_value) = token_value

  resumed : Result (Option Bytes) → Result Bytes
  unfolding token_of
  resumed (ok output) = ok (token_of output)
  resumed (err e) = err e
  resumed panic = panic
  resumed blocked = blocked

  -- `getResumeSessionParams`: the empty token where the API has none.
  unfoldable pub get_resume_session_params : W → Result Bytes × W
  unfolding resumed
  get_resume_session_params w =
      let (r, w') = service.call_resume_session service.session_id w in (resumed r, w')

  -- `DisplayMessage` of the display mode: an error is only logged.
  unfoldable pub display_message : ClientMessage → W → Result (Unit {0}) × W
  unfolding printed
  display_message m w = let (r, w') = service.print m.payload w in (printed r, w')

-- The handlers that `OpenDataChannel` passes to the data channel.
abbrev pub with_service : {W : Type 0} → Service W → Peer W → Peer W
with_service service peer = record peer {
  refresh_token = get_resume_session_params service;
  call_timeout_handler = terminate_session service;
}

module _ {W F : Type 0} (env : Env W F) (peer : Peer W) (service : Service W) where
  -- `OpenDataChannel`. What the goroutines do while it waits is `wait`, which ends with what the channel
  -- receives.
  unfoldable pub open_data_channel : M W F Received → M W F Bytes
  open_data_channel wait = do
    start env (with_service service peer)
    received ← wait
    establish_session_type (with_service service peer) received

  -- The goroutine of `OpenDataChannel` shows the first message that there is to display, and ends. While there is
  -- none it waits.
  show : List ClientMessage → M W F (Unit {0})
  show [] = lift blocked
  show (m ∷ rest) = do
    modify (λ c. record c { display_messages = rest })
    outside (display_message service m)

  unfoldable pub display_first : M W F (Unit {0})
  unfolding show
  display_first = do c ← read; show c.display_messages

  -- The session as its plugins see it.
  unfoldable pub support : Support (State W F)
  support = record {
    send_flag = send_flag env;
    send_input_data_message = send_input_data_message env;
    terminate_session = outside (terminate_session service);
    close = close env peer;
    display_message = λ m. outside (display_message service m);
    agent_version = λ s. s.channel.agent_version;
  }

  unfoldable pub register_plugin_handler : ℕ → M W F (Unit {0})
  register_plugin_handler k = register_output_stream_handler (registered k) true
