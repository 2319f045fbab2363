-- ===== src/Communicator/Reading.antt =====
-- How often `ReadMessage` reads.
use ecstoolkit.Base.{
  ℕ, zero, suc, ◌==◌, ◌||◌, ◌≡◌, ◌<◌, refl, ◌∙◌, true, false, some, ok, err, Error, arith,
}
use ecstoolkit.Buffer.{Bytes}
use ecstoolkit.Communicator.{
  Sockets, Link, text_message, binary_message, received, read_by, read_tries, read_message,
}

module _ {W : Type 0} (sockets : Sockets W) where
  -- A number of reads of the connection `c` that fail, one after another.
  pub data Failures (c : ℕ) : ℕ → W → W → Type 0 where
    none : (w : W) → Failures c 0 w w
    more :
        (n : ℕ) (w w' : W) (e : Error)
        → (sockets.read c w).0 ≡ err e
        → Failures c n (sockets.read c w).1 w'
        → Failures c (suc n) w w'

  -- One pass of the loop on an open channel.
  pass :
      (n c : ℕ) (s : Link W)
      → s.socket.is_open ≡ true
      → s.socket.connection ≡ some c
      → read_tries sockets (suc n) s
        ≡ received sockets
            (n == 0)
            (read_tries sockets n)
            (sockets.read c s.world).0
            (record s { world = (sockets.read c s.world).1 })
  unfolding read_tries read_by
  pass n c s o e = rw o (rw e refl)

  tries-success :
      (tries n c : ℕ) (s : Link W) (w' : W) (kind : ℕ) (raw : Bytes)
      → s.socket.is_open ≡ true
      → s.socket.connection ≡ some c
      → Failures c n s.world w'
      → n < tries
      → (sockets.read c w').0 ≡ ok (kind, raw)
      → (kind == text_message || kind == binary_message) ≡ true
      → read_tries sockets tries s ≡ (ok raw, record s { world = (sockets.read c w').1 })
  tries-success zero n c s w' kind raw o e f l r t = absurd (omega arith)
  tries-success (suc tries) _ c s w' kind raw o e (none w) l r t =
      pass tries c s o e ∙ rw r (rw t refl)
  tries-success (suc tries) _ c s w' kind raw o e (more n w _ x h f) l r t =
      let z : (tries == 0) ≡ false = ground arith in
      pass tries c s o e
      ∙ rw h (
          rw z (
            tries-success tries n c (record s { world = (sockets.read c s.world).1 }) w' kind raw o
              e f (omega arith) r t))

  -- If fewer than five reads of an open channel fail and the next gives a text or binary message, then
  -- `ReadMessage` returns its bytes after that read, and the channel stays as it was.
  pub read_message-success :
      (n c : ℕ) (s : Link W) (w' : W) (kind : ℕ) (raw : Bytes)
      → s.socket.is_open ≡ true
      → s.socket.connection ≡ some c
      → Failures c n s.world w'
      → n < 5
      → (sockets.read c w').0 ≡ ok (kind, raw)
      → (kind == text_message || kind == binary_message) ≡ true
      → read_message sockets s ≡ (ok raw, record s { world = (sockets.read c w').1 })
  unfolding read_message
  read_message-success n c s w' kind raw o e f l r t = tries-success 5 n c s w' kind raw o e f l r t

  tries-failure :
      (c tries : ℕ) (s : Link W) (w' : W) (x : Error)
      → s.socket.is_open ≡ true
      → s.socket.connection ≡ some c
      → Failures c tries s.world w'
      → (sockets.read c w').0 ≡ err x
      → read_tries sockets (suc tries) s ≡ (err x, record s { world = (sockets.read c w').1 })
  tries-failure c _ s w' x o e (none w) r = pass 0 c s o e ∙ rw r refl
  tries-failure c _ s w' x o e (more n w _ y h f) r =
      let z : (suc n == 0) ≡ false = ground arith in
      pass (suc n) c s o e
      ∙ rw h
          (rw z (tries-failure c n (record s { world = (sockets.read c s.world).1 }) w' x o e f r))

  -- If five reads of an open channel fail, `ReadMessage` returns the error of the fifth and reads no more.
  pub read_message-failure :
      (c : ℕ) (s : Link W) (w' : W) (x : Error)
      → s.socket.is_open ≡ true
      → s.socket.connection ≡ some c
      → Failures c 4 s.world w'
      → (sockets.read c w').0 ≡ err x
      → read_message sockets s ≡ (err x, record s { world = (sockets.read c w').1 })
  unfolding read_message
  read_message-failure c s w' x o e f r = tries-failure c 4 s w' x o e f r
