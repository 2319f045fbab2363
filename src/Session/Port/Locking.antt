-- ===== src/Session/Port/Locking.antt =====
-- The mutex of `BasicPortForwarding`: `ReadStream` takes it once for all its rounds. The three goroutines that
-- want it: the reader, the handler of messages (`IsStreamNotSet`, `WriteStream`) and the handler of the
-- control signals (`Stop`). Each round of the loop and each locked method is a step; who holds the mutex is
-- told by the places.
use ecstoolkit.Base.{ℕ, zero, suc, ok, err, Error, ◌≡◌, ◌≢◌, ◌⊎◌, inl, inr, refl, arith}
use ecstoolkit.Message.Types.{ClientMessage}
use ecstoolkit.Method.{Method, pure, ◌>>◌}
use ecstoolkit.Session.{Support}
use ecstoolkit.Session.Port.Net.{Network}
use ecstoolkit.Session.Port.Basic.{BasicPortForwarding, read_round, write_held, stop_held}

pub data Place : Type 0 where
  idle waiting inside ended : Place

pub record Threads (S : Type 0) : Type 0 where
  pub port : BasicPortForwarding S
  pub reader : Place
  pub handler : Place
  pub controls : Place

module _ {S : Type 0} (net : Network S) (session : Support S) where
  -- `Lock` returns when no other goroutine is inside.
  pub data Step : Threads S → Threads S → Type 0 where
    reader_asks : (s : Threads S) → s.reader ≡ idle → Step s (record s { reader = waiting })
    reader_enters :
        (s : Threads S)
        → s.reader ≡ waiting
        → s.handler ≢ inside
        → s.controls ≢ inside
        → Step s (record s { reader = inside })
    reader_goes_on :
        (s : Threads S) (port : BasicPortForwarding S)
        → s.reader ≡ inside
        → read_round net session s.port ≡ (ok tt, port)
        → Step s (record s { port = port })
    reader_ends :
        (s : Threads S) (e : Error) (port : BasicPortForwarding S)
        → s.reader ≡ inside
        → read_round net session s.port ≡ (err e, port)
        → Step s (record s { port = port; reader = ended })
    handler_asks : (s : Threads S) → s.handler ≡ idle → Step s (record s { handler = waiting })
    handler_enters :
        (s : Threads S)
        → s.handler ≡ waiting
        → s.reader ≢ inside
        → s.controls ≢ inside
        → Step s (record s { handler = inside })
    handler_looks : (s : Threads S) → s.handler ≡ inside → Step s (record s { handler = idle })
    handler_writes :
        (s : Threads S) (m : ClientMessage)
        → s.handler ≡ inside
        → Step s (record s { port = (write_held net session m s.port).1; handler = idle })
    controls_ask : (s : Threads S) → s.controls ≡ idle → Step s (record s { controls = waiting })
    controls_enter :
        (s : Threads S)
        → s.controls ≡ waiting
        → s.reader ≢ inside
        → s.handler ≢ inside
        → Step s (record s { controls = inside })
    controls_stop :
        (s : Threads S)
        → s.controls ≡ inside
        → Step s (record s { port = (stop_held net session s.port).1; controls = idle })

  pub data Reach (s : Threads S) : Threads S → Type 0 where
    here : Reach s s
    next : (t u : Threads S) → Reach s t → Step t u → Reach s u

  -- `n` rounds of `ReadStream`.
  unfoldable pub read_rounds : ℕ → Method (BasicPortForwarding S) (Unit {0})
  read_rounds zero = pure tt
  read_rounds (suc n) = do read_rounds n; read_round net session

  -- Of the state `t`, reached from `s`: as long as the reader is inside, no other goroutine is, and what the
  -- port has undergone since `s` is rounds of `ReadStream`.
  pub record IsHeld (s t : Threads S) : Type 0 where
    pub handler_out : t.handler ≢ inside
    pub controls_out : t.controls ≢ inside
    pub rounds : ℕ
    pub only_reads : read_rounds rounds s.port ≡ (ok tt, t.port)

  one_more :
      (n : ℕ) (s t u : BasicPortForwarding S)
      → read_rounds n s ≡ (ok tt, t)
      → read_round net session t ≡ (ok tt, u)
      → read_rounds (suc n) s ≡ (ok tt, u)
  unfolding read_rounds
  one_more n s t u h e = rw (h, e) refl

  -- The reader is inside and so no other, or `ReadStream` has returned.
  abbrev pub Held : Threads S → Threads S → Type 0
  Held s t = (t.reader ≡ inside × IsHeld s t) ⊎ (t.reader ≡ ended)

  still :
      (s t : Threads S) (port : BasicPortForwarding S)
      → IsHeld s t
      → read_round net session t.port ≡ (ok tt, port)
      → IsHeld s (record t { port = port })
  still s t port h e = record {
    handler_out = h.handler_out;
    controls_out = h.controls_out;
    rounds = suc h.rounds;
    only_reads = one_more h.rounds s.port t.port port h.only_reads e;
  }

  other_places :
      (s t : Threads S) (handler controls : Place)
      → IsHeld s t
      → handler ≢ inside
      → controls ≢ inside
      → IsHeld s (record t { handler = handler; controls = controls })
  other_places s t handler controls h n m = record {
    handler_out = n;
    controls_out = m;
    rounds = h.rounds;
    only_reads = h.only_reads;
  }

  Step-Held : (s t u : Threads S) → Held s t → Step t u → Held s u
  Step-Held s t u (inr e) (reader_asks _ a) = absurd (ground arith)
  Step-Held s t u (inr e) (reader_enters _ a _ _) = absurd (ground arith)
  Step-Held s t u (inr e) (reader_goes_on _ port a r) = inr e
  Step-Held s t u (inr e) (reader_ends _ error port a r) = inr refl
  Step-Held s t u (inr e) (handler_asks _ a) = inr e
  Step-Held s t u (inr e) (handler_enters _ a _ _) = inr e
  Step-Held s t u (inr e) (handler_looks _ a) = inr e
  Step-Held s t u (inr e) (handler_writes _ m a) = inr e
  Step-Held s t u (inr e) (controls_ask _ a) = inr e
  Step-Held s t u (inr e) (controls_enter _ a _ _) = inr e
  Step-Held s t u (inr e) (controls_stop _ a) = inr e
  Step-Held s t u (inl (i, h)) (reader_asks _ a) = absurd (ground arith)
  Step-Held s t u (inl (i, h)) (reader_enters _ a _ _) = absurd (ground arith)
  Step-Held s t u (inl (i, h)) (reader_goes_on _ port a r) = inl (i, still s t port h r)
  Step-Held s t u (inl (i, h)) (reader_ends _ error port a r) = inr refl
  Step-Held s t u (inl (i, h)) (handler_asks _ a) =
      inl (i, other_places s t waiting t.controls h (λ w. ground arith) h.controls_out)
  Step-Held s t u (inl (i, h)) (handler_enters _ a n _) = absurd (n i)
  Step-Held s t u (inl (i, h)) (handler_looks _ a) = absurd (h.handler_out a)
  Step-Held s t u (inl (i, h)) (handler_writes _ m a) = absurd (h.handler_out a)
  Step-Held s t u (inl (i, h)) (controls_ask _ a) =
      inl (i, other_places s t t.handler waiting h h.handler_out (λ w. ground arith))
  Step-Held s t u (inl (i, h)) (controls_enter _ a n _) = absurd (n i)
  Step-Held s t u (inl (i, h)) (controls_stop _ a) = absurd (h.controls_out a)

  begun : (s : Threads S) → s.reader ≡ inside → s.handler ≢ inside → s.controls ≢ inside → Held s s
  unfolding read_rounds
  begun s i n m =
      inl (i, record { handler_out = n; controls_out = m; rounds = zero; only_reads = refl })

  -- Once the reader holds the mutex, and so no other goroutine does, every state that is reached is one of
  -- two: the reader is still inside, no other goroutine has entered, and the port has undergone rounds of
  -- `ReadStream` and nothing else, no `WriteStream` and no `Stop`; or `ReadStream` has returned.
  pub reader-starves :
      (s t : Threads S)
      → s.reader ≡ inside
      → s.handler ≢ inside
      → s.controls ≢ inside
      → Reach s t
      → (t.reader ≡ inside × IsHeld s t) ⊎ (t.reader ≡ ended)
  reader-starves s t i n m here = begun s i n m
  reader-starves s t i n m (next u _ r step) = Step-Held s u t (reader-starves s u i n m r) step
