-- ===== src/DataChannel/Lifecycle/Reconnection.antt =====
-- What becomes of the listener after a reconnection.
use ecstoolkit.Base.{
  ℕ, suc, ◌≡◌, refl, false, [], ok, err, Error, offset_outside, is_eof, ◌+ℤ◌, ◌-ℤ◌,
}
use ecstoolkit.Message.Readers.{get_string, outside_last}
use ecstoolkit.Message.Codec.{deserialize_client_message}
use ecstoolkit.DataChannel.State.{State, Env}
use ecstoolkit.DataChannel.Receiving.{output_message_handler}
use ecstoolkit.DataChannel.Lifecycle.{
  Peer, close, call_error_retrier, reconnected, raw_message_of, after_message, listen,
}

module _ {W F : Type 0} (env : Env W F) (peer : Peer W) where
  nil_refused : (s : State W F) → output_message_handler env [] s ≡ (err offset_outside, s)
  unfolding output_message_handler deserialize_client_message get_string outside_last ◌+ℤ◌ ◌-ℤ◌
  nil_refused s = refl

  -- A read fails with an error other than the end of the stream, and the retryer reconnects. Then the
  -- listener hands a nil message on, closes the channel that it has just opened, and ends with the
  -- error that a nil message is no client message.
  pub reconnect-ends :
      (rounds : ℕ) (s s' : State W F) (w1 w2 w3 : W) (e : Error)
      → peer.ws_read s.world ≡ (err e, w1)
      → is_eof e ≡ false
      → call_error_retrier env peer (record s { world = w1 }) ≡ (ok tt, s')
      → peer.call_incoming_handler [] s'.world ≡ (ok tt, w2)
      → peer.ws_close w2 ≡ (ok tt, w3)
      → listen env peer (suc rounds) s ≡ (err offset_outside, record s' { world = w3 })
  unfolding listen raw_message_of reconnected after_message close
  reconnect-ends rounds s s' w1 w2 w3 e r f c h k =
      rw r (rw f (rw c (rw h (rw (nil_refused (record s' { world = w2 })) (rw k refl)))))
