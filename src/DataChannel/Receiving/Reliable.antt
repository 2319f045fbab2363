-- ===== src/DataChannel/Receiving/Reliable.antt =====
-- The delivery of what arrives, in whatever order and however often.
use ecstoolkit.Base.{
  ℕ, ◌+◌, ◌<◌, ◌≤◌, ◌≡◌, refl, sym, ◌∙◌, ap, All, pos, List, [], ◌∷◌, ◌++◌, append-nil, ok, arith,
  length, half64, map,
}
use ecstoolkit.Buffer.{Bytes}
use ecstoolkit.Message.Types.{ClientMessage}
use ecstoolkit.DataChannel.State.{State, Env}
use ecstoolkit.DataChannel.Receiving.Reference.{Receiver, arrive, arrive_all, numbers, in_order}
use ecstoolkit.DataChannel.Receiving.Reference.Fair.{arrive_all-in_order}
use ecstoolkit.DataChannel.Receiving.Aside.{numbers_of}
use ecstoolkit.DataChannel.Receiving.Working.{IsWorking, IsServing}
use ecstoolkit.DataChannel.Receiving.Delivery.{IsPeerMessage, Related, IsInStep}
use ecstoolkit.DataChannel.Receiving.Arrival.{arrive-Goes, handle_all}

module _ {W F : Type 0} (env : Env W F) (log : W → List ClientMessage) (h : ℕ)
    (works : IsWorking env log h) (sent : ℕ → ClientMessage) (wire : ℕ → Bytes)
    (stream : (k : ℕ) → k + 1 < half64 → IsPeerMessage env.lib k (sent k) (wire k)) where
  arrivals-IsInStep :
      (n capacity : ℕ) (before : List ClientMessage) (ks : List ℕ) (s : State W F) (r : Receiver)
      → All (λ k. k + 1 < half64) ks
      → Related sent wire h n capacity before s.channel (log s.world) r
      → IsInStep sent wire h n capacity before log
          (handle_all env (map wire ks) s)
          (arrive_all capacity ks r)
  unfolding handle_all arrive_all
  arrivals-IsInStep n capacity before [] s r a e = record { returns = refl; state = e }
  arrivals-IsInStep n capacity before (k ∷ ks) s r a e =
      let g = arrive-Goes env log h works sent wire stream n capacity before k s r e a.0 in
      rw g.returns (arrivals-IsInStep n capacity before ks _ (arrive capacity k r) a.1 g.state)

  -- Messages of a peer arrive, whose bytes parse and validate, and that are numbered and for the handlers,
  -- with numbers below 2^63 - 1. They come in any order, any number of times each, with any number lost, but no more than the
  -- buffer has room for. The channel has put none aside, encrypts nothing, and serves a handler that is
  -- always ready; everything outside works. Then each call succeeds, and all in all the handler
  -- has been given the messages from the expected number on that have come without a gap, each once and in the
  -- order of their numbers, and no other; and the number after them is expected.
  pub delivery :
      (s : State W F) (n : ℕ) (ks : List ℕ)
      → IsServing h s.channel
      → s.channel.incoming_message_buffer.messages ≡ []
      → s.channel.expected_sequence_number ≡ pos n
      → All (λ k. k + 1 < half64) ks
      → length ks ≤ s.channel.incoming_message_buffer.capacity
      → let (r, s') = handle_all env (map wire ks) s in
        (r ≡ ok tt)
        × (log s'.world ≡ log s.world ++ map sent (numbers n (in_order n ks)))
        × (s'.channel.expected_sequence_number ≡ pos (n + in_order n ks))
  unfolding numbers_of numbers
  delivery s n ks serving empty expected small room =
      let start : Related sent wire h n s.channel.incoming_message_buffer.capacity (log s.world)
          s.channel (log s.world) (record { next = n; aside = [] }) =
        record {
          serving = serving;
          room = refl;
          expected = expected;
          entries = rw empty tt;
          aside = rw empty refl;
          count = 0;
          next_is = omega arith;
          logged = sym (append-nil _);
        } in
      let e =
        arrivals-IsInStep n s.channel.incoming_message_buffer.capacity (log s.world) ks s _ small
          start in
      let f = arrive_all-in_order s.channel.incoming_message_buffer.capacity n ks room in
      let c : e.state.count ≡ in_order n ks = omega (arith, f, e.state.next_is) in
      (
        e.returns,
        e.state.logged ∙ ap (λ d. log s.world ++ map sent (numbers n d)) c,
        e.state.expected ∙ ap pos f,
      )
