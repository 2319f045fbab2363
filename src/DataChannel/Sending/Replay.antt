-- ===== src/DataChannel/Sending/Replay.antt =====
-- The outgoing buffer over any calls, as numbers only.
pub mod Numbers
pub mod Faithful
use mathlib.Core.List.{map-append}
use ecstoolkit.Base.{
  ℕ, zero, suc, ◌+◌, ◌-◌, ◌<◌, ◌≤◌, ◌≡◌, ◌≢◌, refl, sym, ◌∙◌, ap, ℤ, pos, eqb_ℤ, Bool, true, false,
  List, [], ◌∷◌, ◌++◌, map, Option, Result, ok, err, panic, blocked, arith, length, length-append,
  drop, half64, if◌then◌else◌,
}
use ecstoolkit.Buffer.{Bytes}
use ecstoolkit.Message.Types.{AcknowledgeContent}
use ecstoolkit.DataChannel.ListBuffer.Laws.{
  Search, missing, hit, kept, NoneOf, force_push_back_lem, force_push_back_bounded,
}
use ecstoolkit.DataChannel.State.{State, DataChannel, Env, StreamingMessage}
use ecstoolkit.DataChannel.State.Monad.{M}
use ecstoolkit.DataChannel.Sending.{
  process_acknowledged_message, push_outgoing, send_input_data_message, next_int64,
}
use ecstoolkit.DataChannel.Sending.Bounds.{acknowledged-removed}
use ecstoolkit.DataChannel.Sending.Order.{acknowledged-number}
use ecstoolkit.DataChannel.Sending.Outcome.{push_sent, send_outcome}

-- The calls that change the outgoing buffer.
pub data Call : Type 0 where
  send : ℕ → Bytes → Call
  acknowledge : AcknowledgeContent → Call

-- What they come to: a message was sent, or its number was acknowledged.
pub data Event : Type 0 where
  sent : Event
  acknowledged : ℤ → Event

-- The next number, and the numbers that wait for their acknowledgement, oldest first.
pub record Sender : Type 0 where
  pub next : ℕ
  pub waiting : List ℤ

-- The last elements, at most so many.
unfoldable pub latest : ℕ → List ℤ → List ℤ
latest n ks = drop (length ks - n) ks

unfoldable pub without : ℤ → List ℤ → List ℤ
without z [] = []
without z (k ∷ ks) = if eqb_ℤ k z then ks else k ∷ without z ks

-- A message that is sent waits, and so do at most `capacity` of the latest; an acknowledgement ends the waiting of
-- its number.
unfoldable pub step : ℕ → Event → Sender → Sender
step capacity sent r = record {
  next = suc r.next;
  waiting = latest capacity (r.waiting ++ (pos r.next ∷ []));
}
step capacity (acknowledged z) r = record { next = r.next; waiting = without z r.waiting }

unfoldable pub replay : ℕ → List Event → Sender → Sender
replay capacity [] r = r
replay capacity (e ∷ es) r = replay capacity es (step capacity e r)

-- A call to send is an event if it succeeds.
unfoldable pub events_of : Call → Result (Unit {0}) → List Event
events_of (send payload_type input) (ok x) = sent ∷ []
events_of (send payload_type input) (err e) = []
events_of (send payload_type input) panic = []
events_of (send payload_type input) blocked = []
events_of (acknowledge content) r = acknowledged content.sequence_number ∷ []

module _ {W F : Type 0} (env : Env W F) where
  unfoldable pub perform : Call → M W F (Unit {0})
  perform (send payload_type input) = send_input_data_message env payload_type input
  perform (acknowledge content) = process_acknowledged_message env content

  -- One call after the other, whatever they come to.
  unfoldable pub run : List Call → State W F → State W F
  run [] s = s
  run (call ∷ calls) s = run calls (perform call s).1

  unfoldable pub events : List Call → State W F → List Event
  events [] s = []
  events (call ∷ calls) s = events_of call (perform call s).0 ++ events calls (perform call s).1
