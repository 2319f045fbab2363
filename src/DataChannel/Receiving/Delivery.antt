-- ===== src/DataChannel/Receiving/Delivery.antt =====
-- The receiving side keeps in step with the reference: what a channel and a log of the plugin have to do
-- with a receiver, and the changes that keep it.
use mathlib.Core.Path.{subst}
use ecstoolkit.Base.{
  Result, ℕ, zero, suc, ◌+◌, ◌<◌, ◌≡◌, refl, ◌∙◌, ap, All, pos, true, false, List, [], ◌∷◌, ◌++◌,
  append_assoc, ok, arith, half64, eq_bytes, ◌==◌, map,
}
use ecstoolkit.Buffer.{Bytes}
use ecstoolkit.Message.PayloadType
use ecstoolkit.Message.Types.{ClientMessage, Libraries, output_stream_message}
use ecstoolkit.Message.Codec.{deserialize_client_message, validate}
use ecstoolkit.DataChannel.MapBuffer.{remove, set_unless_full, is_full}
use ecstoolkit.DataChannel.MapBuffer.Laws.{remove-some}
use ecstoolkit.DataChannel.State.{State, DataChannel, StreamingMessage, int64_comparable}
use ecstoolkit.DataChannel.Sending.{next_int64}
use ecstoolkit.DataChannel.Receiving.Sequence.{next_int64-pos}
use ecstoolkit.DataChannel.Receiving.Reference.{Receiver, member, put, take_out, numbers}
use ecstoolkit.DataChannel.Receiving.Aside.{
  IsEntry, numbers_of, member-Found, numbers_of-delete, numbers_of-assign, delete-entries,
  assign-entries,
}
use ecstoolkit.DataChannel.Receiving.Working.{IsServing}

-- The bytes `raw` are the peer's message `m`, which has the number `k` and is for the handlers.
pub record IsPeerMessage (lib : Libraries) (k : ℕ) (m : ClientMessage) (raw : Bytes) : Type 0 where
  pub parsed : deserialize_client_message lib raw ≡ ok m
  pub valid : validate lib m ≡ ok tt
  pub kind : m.message_type ≡ output_stream_message
  pub number : m.sequence_number ≡ pos k
  pub no_request : (m.payload_type == PayloadType.handshake_request) ≡ false
  pub no_complete : (m.payload_type == PayloadType.handshake_complete) ≡ false
  pub no_challenge : (m.payload_type == PayloadType.enc_challenge_request) ≡ false
  pub some_bytes : eq_bytes raw [] ≡ false

map-numbers-snoc :
    {A : Type 0} (f : ℕ → A) (n d : ℕ)
    → map f (numbers n d) ++ (f (n + d) ∷ []) ≡ map f (numbers n (suc d))
unfolding numbers
map-numbers-snoc f n zero = let e : n + 0 ≡ n = omega arith in rw e refl
map-numbers-snoc f n (suc d) =
    let e : n + suc d ≡ suc n + d = omega arith in
    rw e (ap (λ xs. f n ∷ xs) (map-numbers-snoc f (suc n) d))

module _ (sent : ℕ → ClientMessage) (wire : ℕ → Bytes) (h : ℕ) (n capacity : ℕ)
    (before : List ClientMessage) {F : Type 0} where
  -- The channel expects the receiver's next number and has put its numbers aside; since `n` was expected
  -- and the log was `before`, the messages from `n` up to the next one, and no other, have been logged in order.
  pub record Related (c : DataChannel F) (log : List ClientMessage) (r : Receiver) : Type 0 where
    pub serving : IsServing h c
    pub room : c.incoming_message_buffer.capacity ≡ capacity
    pub expected : c.expected_sequence_number ≡ pos r.next
    pub entries : All (IsEntry wire) c.incoming_message_buffer.messages
    pub aside : numbers_of c.incoming_message_buffer.messages ≡ r.aside
    pub count : ℕ
    pub next_is : r.next ≡ n + count
    pub logged : log ≡ before ++ map sent (numbers n count)

  pub moved :
      (c c' : DataChannel F) (log log' : List ClientMessage) (r : Receiver)
      → c ≡ c'
      → log ≡ log'
      → Related c log r
      → Related c' log' r
  moved c c' log log' r p q e = subst (λ d. Related d log' r) p (subst (λ l. Related c l r) q e)

  pub advanced :
      (c : DataChannel F) (log : List ClientMessage) (r : Receiver)
      → r.next + 1 < half64
      → Related c log r
      → Related
          (record c { expected_sequence_number = next_int64 c.expected_sequence_number })
          (log ++ (sent r.next ∷ []))
          (record r { next = suc r.next })
  advanced c log r l e = record {
    serving = record {
      handlers = e.serving.handlers;
      specific = e.serving.specific;
      plain = e.serving.plain;
    };
    room = e.room;
    expected = rw e.expected (next_int64-pos r.next l ∙ ap pos (omega arith));
    entries = e.entries;
    aside = e.aside;
    count = suc e.count;
    next_is = omega (arith, e.next_is);
    logged =
        rw (e.logged, e.next_is)
          (append_assoc before _ _ ∙ ap (λ xs. before ++ xs) (map-numbers-snoc sent n e.count));
  }

  pub removed :
      (c : DataChannel F) (log : List ClientMessage) (r : Receiver) (k : ℕ)
      → member k r.aside ≡ true
      → Related c log r
      → Related
          (record c { incoming_message_buffer = (remove c.incoming_message_buffer (pos k)).1 })
          log
          (record r { aside = take_out k r.aside })
  removed c log r k m e =
      let f = member-Found wire k c.incoming_message_buffer.messages e.entries (rw e.aside m) in
      rw (remove-some c.incoming_message_buffer (pos k) f.message f.found) (record {
        serving = record {
          handlers = e.serving.handlers;
          specific = e.serving.specific;
          plain = e.serving.plain;
        };
        room = e.room;
        expected = e.expected;
        entries = delete-entries wire k _ e.entries;
        aside = numbers_of-delete wire k _ e.entries ∙ ap (take_out k) e.aside;
        count = e.count;
        next_is = e.next_is;
        logged = e.logged;
      })

  pub stored :
      (c : DataChannel F) (log : List ClientMessage) (r : Receiver) (k : ℕ) (v : StreamingMessage)
      → is_full c.incoming_message_buffer ≡ false
      → IsEntry wire (pos k, v)
      → Related c log r
      → Related
          (record c {
            incoming_message_buffer = (set_unless_full c.incoming_message_buffer (pos k) v).1;
          })
          log
          (record r { aside = put k r.aside })
  unfolding is_full set_unless_full
  stored c log r k v full i e = rw full (record {
    serving = record {
      handlers = e.serving.handlers;
      specific = e.serving.specific;
      plain = e.serving.plain;
    };
    room = e.room;
    expected = e.expected;
    entries = assign-entries wire k v _ e.entries i;
    aside = numbers_of-assign wire k v _ e.entries ∙ ap (put k) e.aside;
    count = e.count;
    next_is = e.next_is;
    logged = e.logged;
  })

  -- A method that succeeds, and leaves the channel and the log in step with a receiver.
  pub record IsInStep {W : Type 0} (log : W → List ClientMessage)
      (p : Result (Unit {0}) × State W F) (r : Receiver) : Type 0 where
    pub returns : p.0 ≡ ok tt
    pub state : Related p.1.channel (log p.1.world) r
