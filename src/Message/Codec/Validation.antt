-- ===== src/Message/Codec/Validation.antt =====
-- What `Validate` accepts.
use ecstoolkit.Base.{◌≡◌, ◌≢◌, [], ok, eq_bytes_iff, arith, ◌⊎◌, ◌↔◌}
use ecstoolkit.Message.Types.{
  ClientMessage, Libraries, start_publication_message, pause_publication_message,
}
use ecstoolkit.Message.Codec.{validate, validate_fields}

abbrev pub IsPublication : ClientMessage → Type 0
IsPublication m =
    (m.message_type ≡ start_publication_message) ⊎ (m.message_type ≡ pause_publication_message)

-- The header is there, and a payload has the digest that came with it.
pub record IsIntact (lib : Libraries) (m : ClientMessage) : Type 0 where
  pub has_header : m.header_length ≢ 0
  pub has_type : m.message_type ≢ []
  pub has_date : m.created_date ≢ 0
  pub digest : (m.payload_length ≡ 0) ⊎ (lib.sha256 m.payload ≡ m.payload_digest)

module _ (lib : Libraries) (m : ClientMessage) where
  fields_ok : validate_fields lib m ≡ ok tt → IsIntact lib m
  unfolding validate_fields
  fields_ok h = record {
    has_header = λ e. ground arith;
    has_type = λ e. ground (arith, eq_bytes_iff m.message_type []);
    has_date = λ e. ground arith;
    digest = ground (arith, eq_bytes_iff (lib.sha256 m.payload) m.payload_digest);
  }

  intact_ok : IsIntact lib m → validate_fields lib m ≡ ok tt
  unfolding validate_fields
  intact_ok v =
      ground (
        arith,
        eq_bytes_iff m.message_type [],
        eq_bytes_iff (lib.sha256 m.payload) m.payload_digest,
      )

  not_publication : ¬ IsPublication m → validate lib m ≡ validate_fields lib m
  unfolding validate
  not_publication np = ground (
    arith,
    eq_bytes_iff start_publication_message m.message_type,
    eq_bytes_iff pause_publication_message m.message_type,
  )

  -- A message that is not start or pause publication is accepted exactly if it is intact.
  pub validate_iff : ¬ IsPublication m → (validate lib m ≡ ok tt) ↔ IsIntact lib m
  validate_iff np = rw (not_publication np) (fields_ok, intact_ok)
