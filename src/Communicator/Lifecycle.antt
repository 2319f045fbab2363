-- ===== src/Communicator/Lifecycle.antt =====
-- The states that the calls of a web socket channel lead to.
use ecstoolkit.Base.{
  ℕ, zero, suc, ◌+◌, ◌∙◌, ap, Option-cases, inl, inr, ◌≡◌, ◌≢◌, refl, true, false, List, [], ◌∷◌,
  none, ok, err, connection_closed, arith, Returns, replicate,
}
use ecstoolkit.Buffer.{Bytes}
use ecstoolkit.Method.{Method}
use ecstoolkit.Communicator.{
  Sockets, WebSocketChannel, Link, set_channel_token, send_message, write_by, close,
  close_connection, open_channel, open_connection, ping, ping_round,
}

-- An open channel has a connection.
abbrev pub IsWired : WebSocketChannel → Type 0
IsWired c = c.is_open ≡ true → c.connection ≢ none

-- The calls that other goroutines can make, in any order.
pub data Call : Type 0 where
  opens closes pings : Call
  sends : Bytes → ℕ → Call
  sets_token : Bytes → Call

module _ {W : Type 0} (sockets : Sockets W) where
  unfoldable pub perform : Call → Method (Link W) (Unit {0})
  perform opens = open_channel sockets
  perform closes = close sockets
  perform pings = ping_round sockets
  perform (sends input kind) = send_message sockets input kind
  perform (sets_token token) = set_channel_token token

  -- The state after the calls, whatever each of them returned.
  unfoldable pub perform_all : List Call → Link W → Link W
  perform_all [] s = s
  perform_all (c ∷ cs) s = perform_all cs (perform c s).1

  perform-IsWired : (c : Call) (s : Link W) → IsWired s.socket → IsWired (perform c s).1.socket
  unfolding perform open_channel open_connection close close_connection send_message write_by
      ping_round ping set_channel_token
  perform-IsWired opens s h = ground arith
  perform-IsWired closes s h = ground arith
  perform-IsWired pings s h = ground arith
  perform-IsWired (sends input kind) s h = ground arith
  perform-IsWired (sets_token token) s h = h

  -- After any calls of any results, a channel that is open has a connection.
  pub perform_all-IsWired :
      (cs : List Call) (s : Link W) → IsWired s.socket → IsWired (perform_all cs s).socket
  unfolding perform_all
  perform_all-IsWired [] s h = h
  perform_all-IsWired (c ∷ cs) s h = perform_all-IsWired cs (perform c s).1 (perform-IsWired c s h)

  -- So a message never meets a nil connection: a send panics only where the connection's own write does.
  pub send-Returns :
      (s : Link W) (input : Bytes) (kind : ℕ)
      → IsWired s.socket
      → ((k : ℕ) (w : W) → Returns (sockets.write k kind input w).0)
      → Returns (send_message sockets input kind s).0
  unfolding send_message write_by
  send-Returns s input kind h writes = elim (Option-cases s.socket.connection) [
    | inl e ↦ let o : s.socket.is_open ≡ false = ground (arith, h) in rw o tt
    | inr (k, e) ↦ rw e (ground (arith, writes k s.world))
  ]

  close-shut : (s : Link W) → (close sockets s).1.socket.is_open ≡ false
  unfolding close close_connection
  close-shut s = ground arith

  close-again : (s : Link W) → s.socket.is_open ≡ false → close sockets s ≡ (ok tt, s)
  unfolding close
  close-again s e = rw e refl

  send-shut :
      (s : Link W) (input : Bytes) (kind : ℕ)
      → s.socket.is_open ≡ false
      → send_message sockets input kind s ≡ (err connection_closed, s)
  unfolding send_message
  send-shut s input kind e = rw e refl

  -- However the first call of `Close` ends, the channel is closed after it: a second call does nothing and
  -- succeeds, and a message is refused with `ErrConnectionClosed` without a write.
  pub close-close :
      (s : Link W) (input : Bytes) (kind : ℕ)
      → let s' = (close sockets s).1 in
        (close sockets s' ≡ (ok tt, s'))
        × (send_message sockets input kind s' ≡ (err connection_closed, s'))
  close-close s input kind = (
    close-again (close sockets s).1 (close-shut s),
    send-shut (close sockets s).1 input kind (close-shut s),
  )

  -- A number of reconnections, each a `Close` and an `Open`.
  unfoldable pub reconnections : ℕ → List Call
  reconnections zero = []
  reconnections (suc n) = closes ∷ opens ∷ reconnections n

  close-pingers : (s : Link W) → (close sockets s).1.socket.pingers ≡ s.socket.pingers
  unfolding close close_connection
  close-pingers s = ground arith

  opened :
      (s : Link W) (k : ℕ)
      → (sockets.dial s.socket.channel_url s.world).0 ≡ ok k
      → (open_channel sockets s).1.socket.pingers ≡ suc s.socket.pingers
  unfolding open_channel open_connection
  opened s k e = rw e refl

  reconnection-pingers :
      (s : Link W)
      → ((url : Bytes) (w : W) → (k : ℕ) × ((sockets.dial url w).0 ≡ ok k))
      → (perform opens (perform closes s).1).1.socket.pingers ≡ suc s.socket.pingers
  unfolding perform open_channel open_connection
  reconnection-pingers s h =
      let s' = (close sockets s).1 in
      let d = h s'.socket.channel_url s'.world in opened s' d.0 d.1 ∙ ap suc (close-pingers s)

  counted :
      (n : ℕ) (s : Link W)
      → ((url : Bytes) (w : W) → (k : ℕ) × ((sockets.dial url w).0 ≡ ok k))
      → (perform_all (reconnections n) s).socket.pingers ≡ n + s.socket.pingers
  unfolding perform_all reconnections
  counted zero s h = omega arith
  counted (suc n) s h =
      counted n (perform opens (perform closes s).1).1 h ∙ omega (arith, reconnection-pingers s h)

  reconnected-open :
      (s : Link W)
      → ((url : Bytes) (w : W) → (k : ℕ) × ((sockets.dial url w).0 ≡ ok k))
      → (perform opens (perform closes s).1).1.socket.is_open ≡ true
  unfolding perform open_channel open_connection
  reconnected-open s h =
      let s' = (close sockets s).1 in let d = h s'.socket.channel_url s'.world in rw d.1 refl

  reconnections-open :
      (n : ℕ) (s : Link W)
      → ((url : Bytes) (w : W) → (k : ℕ) × ((sockets.dial url w).0 ≡ ok k))
      → (perform_all (reconnections (suc n)) s).socket.is_open ≡ true
  unfolding perform_all reconnections
  reconnections-open zero s h = reconnected-open s h
  reconnections-open (suc n) s h = reconnections-open n (perform opens (perform closes s).1).1 h

  ping-socket : (s : Link W) → s.socket.is_open ≡ true → (perform pings s).1.socket ≡ s.socket
  unfolding perform ping_round ping write_by
  ping-socket s o = ground arith

  pings-socket :
      (k : ℕ) (s : Link W)
      → s.socket.is_open ≡ true
      → (perform_all (replicate k pings) s).socket ≡ s.socket
  unfolding perform_all
  pings-socket zero s o = refl
  pings-socket (suc k) s o =
      let e = ping-socket s o in pings-socket k (perform pings s).1 (ap (λ c. c.is_open) e ∙ o) ∙ e

  -- Each `Open` starts a goroutine that pings, and no `Close` stops one: if dialling succeeds, then after one
  -- or more reconnections between two rounds of pings, n say, the channel is open, there are n goroutines
  -- more, and however many rounds of pings they then make, none of them returns.
  pub reconnections-pingers :
      (n k : ℕ) (s : Link W)
      → ((url : Bytes) (w : W) → (k : ℕ) × ((sockets.dial url w).0 ≡ ok k))
      → let s' = perform_all (reconnections (suc n)) s in
        (s'.socket.is_open ≡ true)
        × (s'.socket.pingers ≡ suc n + s.socket.pingers)
        × ((perform_all (replicate k pings) s').socket ≡ s'.socket)
  reconnections-pingers n k s h =
      let o = reconnections-open n s h in
      (o, counted (suc n) s h, pings-socket k (perform_all (reconnections (suc n)) s) o)
