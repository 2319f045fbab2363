-- ===== src/DataChannel/Receiving/Peer.antt =====
-- A peer that writes the wire format.
use ecstoolkit.Base.{
  ℕ, ◌≡◌, ◌≢◌, refl, pos, false, [], arith, inl, inr, eq_bytes, ◌==◌, length, ap, ◌++◌, ◌∷◌, sym,
  ◌∙◌,
}
use ecstoolkit.Buffer.{Bytes, be_bytes}
use ecstoolkit.Buffer.BigEndian.{length-be_bytes}
use ecstoolkit.Message.PayloadType
use ecstoolkit.Message.Types.{
  ClientMessage, Libraries, Documented, output_stream_message, start_publication_message,
  pause_publication_message,
}
use ecstoolkit.Message.Codec.Layout.{HasFields, layout, layout_with}
use ecstoolkit.Message.Codec.RoundTrip.{received, deserialize-layout}
use ecstoolkit.Message.Codec.Validation.{validate_iff, IsPublication}
use ecstoolkit.DataChannel.Receiving.Delivery.{IsPeerMessage}

-- A message that the peer numbers `k` and that is for the handlers.
pub record IsForHandlers (k : ℕ) (m : ClientMessage) : Type 0 where
  pub fields : HasFields m
  pub dated : m.created_date ≢ 0
  pub kind : m.message_type ≡ output_stream_message
  pub number : m.sequence_number ≡ pos k
  pub no_request : (m.payload_type == PayloadType.handshake_request) ≡ false
  pub no_complete : (m.payload_type == PayloadType.handshake_complete) ≡ false
  pub no_challenge : (m.payload_type == PayloadType.enc_challenge_request) ≡ false

append-some : (a b : Bytes) → length a ≡ 4 → eq_bytes (a ++ b) [] ≡ false
append-some [] b h = cc
append-some (x ∷ a) b h = refl

output_start : output_stream_message ≢ start_publication_message
output_start e = omega (arith, ap length e)

output_pause : output_stream_message ≢ pause_publication_message
output_pause e = omega (arith, ap length e)

not-IsPublication : (m : ClientMessage) → m.message_type ≡ output_stream_message → ¬ IsPublication m
not-IsPublication m k (inl e) = absurd (output_start (sym k ∙ e))
not-IsPublication m k (inr e) = absurd (output_pause (sym k ∙ e))

-- In the wire format it parses, passes the checks and is what was written.
pub layout-IsPeerMessage :
    (lib : Libraries) (k : ℕ) (m : ClientMessage)
    → Documented lib
    → IsForHandlers k m
    → IsPeerMessage lib k (received lib m) (layout lib m)
unfolding received layout layout_with
layout-IsPeerMessage lib k m d f = record {
  parsed = deserialize-layout lib d m f.fields;
  valid = (validate_iff lib (received lib m) (not-IsPublication m f.kind)).1 (record {
    has_header = λ e. omega arith;
    has_type = λ e. omega (arith, ap length (sym f.kind ∙ e));
    has_date = f.dated;
    digest = inr refl;
  });
  kind = f.kind;
  number = f.number;
  no_request = f.no_request;
  no_complete = f.no_complete;
  no_challenge = f.no_challenge;
  some_bytes = append-some (be_bytes 4 116) _ (length-be_bytes 4 116);
}
