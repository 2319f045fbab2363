-- ===== src/DataChannel/Handlers.antt =====
-- datachannel/datachannel.go: the handlers of the output stream.
use ecstoolkit.Base.{
  ℕ, zero, suc, Bool, true, false, not, ◌&&◌, List, [], ◌∷◌, ◌++◌, Option, some, none, blocked,
  if◌then◌else◌, length, drop, ◌==◌, eq_bytes,
}
use ecstoolkit.Message.PayloadType
use ecstoolkit.Message.Types.{ClientMessage}
use ecstoolkit.DataChannel.State.{Env, Handler, first_message, registered, shell_plugin_name}
use ecstoolkit.DataChannel.State.Monad.{M, pure, lift, outside, ◌>>=◌, ◌>>◌, read, modify}

-- Handlers are compared by their code.
abbrev pub same_handler : Handler → Handler → Bool
same_handler first_message first_message = true
same_handler first_message (registered j) = false
same_handler (registered i) first_message = false
same_handler (registered i) (registered j) = i == j

abbrev pub remove_handler : Handler → List Handler → List Handler
remove_handler h [] = []
remove_handler h (x ∷ xs) = if same_handler x h then xs else x ∷ remove_handler h xs

-- The element of the array at an index.
abbrev pub handler_at : List Handler → ℕ → Option Handler
handler_at [] i = none
handler_at (h ∷ hs) zero = some h
handler_at (h ∷ hs) (suc i) = handler_at hs i

-- The array that `append(c.handlers[:i], c.handlers[i+1:]...)` leaves under a slice taken before: the new
-- elements, and behind them the old ones.
abbrev pub shared : List Handler → List Handler → List Handler
shared new old = new ++ drop (length new) old

module _ {W F : Type 0} where
  unfoldable pub register_output_stream_handler : Handler → Bool → M W F (Unit {0})
  register_output_stream_handler h is_session_specific = modify (λ c. record c {
    is_session_specific_handler_set = is_session_specific;
    output_stream_handlers = c.output_stream_handlers ++ (h ∷ []);
  })

  unfoldable pub deregister_output_stream_handler : Handler → M W F (Unit {0})
  deregister_output_stream_handler h =
      modify (λ c. record c { output_stream_handlers = remove_handler h c.output_stream_handlers })

  -- A send on a channel with room for one waits while it is full.
  push_type_set : List Bool → Bool → M W F (Unit {0})
  push_type_set [] b = modify (λ c. record c { is_session_type_set = b ∷ [] })
  push_type_set (x ∷ xs) b = lift blocked

  unfoldable pub send_type_set : Bool → M W F (Unit {0})
  unfolding push_type_set
  send_type_set b = do c ← read; push_type_set c.is_session_type_set b

  push_display : List ClientMessage → ClientMessage → M W F (Unit {0})
  push_display [] m = modify (λ c. record c { display_messages = m ∷ [] })
  push_display (x ∷ xs) m = lift blocked

  unfoldable pub send_display : ClientMessage → M W F (Unit {0})
  unfolding push_display
  send_display m = do c ← read; push_display c.display_messages m

  unfoldable pub set_shell : ClientMessage → M W F (Unit {0})
  unfolding send_type_set send_display
  set_shell m = do
    modify (λ c. record c { session_type = shell_plugin_name })
    send_type_set true
    send_display m

  unfoldable pub first_message_handler : ClientMessage → M W F Bool
  unfolding deregister_output_stream_handler set_shell
  first_message_handler m = do
    deregister_output_stream_handler first_message
    c ← read
    if eq_bytes c.session_type [] && m.payload_type == PayloadType.output
        then set_shell m
        else pure tt
    pure true

module _ {W F : Type 0} (env : Env W F) where
  unfoldable pub call : Handler → ClientMessage → M W F Bool
  unfolding first_message_handler
  call first_message m = first_message_handler m
  call (registered k) m = outside (env.call_handler k m)

  -- `for _, handler := range c.outputStreamHandlers`: the range is over the slice as it was at the
  -- start, whose array a handler may change.
  unfoldable pub call_handlers : ℕ → ℕ → List Handler → Bool → ClientMessage → M W F Bool
  call_handlers zero i view ready m = pure ready
  call_handlers (suc rounds) i view ready m = elim (handler_at view i) [
    | none ↦ pure ready
    | some h ↦ do
      is_handler_ready ← call h m
      c ← read
      elim is_handler_ready [
        | true ↦ call_handlers rounds (suc i) (shared c.output_stream_handlers view) true m
        | false ↦ pure false
      ]
  ]

  unfoldable pub process_output_message_with_handlers : ClientMessage → M W F Bool
  process_output_message_with_handlers m = do
    c ← read
    if not (eq_bytes c.session_type []) && not c.is_session_specific_handler_set
        then pure false
        else call_handlers (length c.output_stream_handlers) 0 c.output_stream_handlers false m
