-- ===== src/Session/Port/Stopping.antt =====
-- What `Stop` of a session with multiplexing closes.
use ecstoolkit.Base.{
  ℕ, ◌≡◌, refl, some, none, Option, Result, ok, err, panic, blocked, Returns, caught, Error,
}
use ecstoolkit.Buffer.{Bytes}
use ecstoolkit.Session.{Support}
use ecstoolkit.Session.Port.Net.{Network}
use ecstoolkit.Session.Port.Mux
use ecstoolkit.Session.Port.Mux.{
  MuxPortForwarding, Multiplexer, MuxClient, MgsConn, close_mgs_conn, close_mux_client, clean_up,
  stop,
}
use ecstoolkit.Session.Port.Closing.{both, joined, forgive, kept}

joined-Returns : (e f : Option Error) → Returns (joined e f)
joined-Returns (some e) f = tt
joined-Returns none (some f) = tt
joined-Returns none none = tt

caught-Returns : (r : Result (Unit {0})) → Returns r → (e : Option Error) × (caught r ≡ ok e)
caught-Returns (ok a) h = (none, refl)
caught-Returns (err e) h = (some e, refl)
caught-Returns panic h = absurd h
caught-Returns blocked h = absurd h

-- The calls that close something return, with an error or not.
pub record ClosingsReturn {S : Type 0} (net : Network S) (plex : Multiplexer S) : Type 0 where
  pub listeners : (k : ℕ) (o : S) → Returns (net.close_listener k o).0
  pub connections : (k : ℕ) (o : S) → Returns (net.close_connection k o).0
  pub sessions : (k : ℕ) (o : S) → Returns (plex.close_session k o).0
  pub removals : (path : Bytes) (o : S) → Returns (plex.remove path o).0

module _ {S : Type 0} (net : Network S) (plex : Multiplexer S) (session : Support S) where
  -- What is outside after a listener, its connection, a smux session and its connection were closed and the
  -- file was removed, each of them once.
  unfoldable pub all_closed : ℕ → ℕ → ℕ → ℕ → Bytes → S → S
  all_closed l k n j file o =
      let o1 = (net.close_listener l o).1 in
      let o2 = (net.close_connection k o1).1 in
      let o3 = (plex.close_session n o2).1 in
      let o4 = (net.close_connection j o3).1 in (plex.remove file o4).1

  -- `Stop` closes all four and removes the file in that order, whichever of the calls report an error, and
  -- returns.
  pub stop-closes :
      (s : MuxPortForwarding S) (l k n j : ℕ)
      → ClosingsReturn net plex
      → s.mgs_conn ≡ some (record { listener = l; conn = k })
      → s.mux_client ≡ some (record { conn = some j; session = n })
      → Returns (stop net plex session s).0
        × ((stop net plex session s).1.outer ≡ all_closed l k n j s.socket_file s.outer)
  unfolding stop close_mgs_conn close_mux_client clean_up all_closed both forgive Mux.close_conn
  stop-closes s l k n j h g m =
      let o1 = (net.close_listener l s.outer).1 in
      let o2 = (net.close_connection k o1).1 in
      let o3 = (plex.close_session n o2).1 in
      let (e1, p1) = caught-Returns _ (h.listeners l s.outer) in
      let (e2, p2) = caught-Returns _ (h.connections k o1) in
      let (e3, p3) = caught-Returns _ (h.sessions n o2) in
      let (e4, p4) = caught-Returns _ (h.connections j o3) in
      let (e5, p5) = caught-Returns _ (h.removals s.socket_file (net.close_connection j o3).1) in
      let (f1, q1) = caught-Returns _ (joined-Returns e1 e2) in
      let (f2, q2) = caught-Returns _ (joined-Returns e3 e4) in
      let (f3, q3) = caught-Returns _ (joined-Returns (kept plex.is_not_exist e5) none) in
      let (f4, q4) = caught-Returns _ (joined-Returns f2 f3) in
      rw (g, m, p1, p2, q1, p3, p4, q2, p5, q3, q4) (joined-Returns f1 f4, refl)
