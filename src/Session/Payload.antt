-- ===== src/Session/Payload.antt =====
-- What both mina-frost-client/src/coordinator/coordinate_signing.rs and
-- mina-frost-client/src/participant/sign.rs make of the message that the coordinator chose: the text
-- of a transaction is read, and the bytes of its message are what is signed. The reader of serde_json
-- is a parameter.
use mina_multi_sig.Base.{Option, none, some, ok, err, Attempt, returned, refused, panicked}
use mina_multi_sig.Text.{Bytes}
use mina_multi_sig.PallasMessage.{MessageError, serialize}
use mina_multi_sig.ZkApp.Types.{Mina}
use mina_multi_sig.Envelope.{TransactionEnvelope, codec, to_pallas_message}

-- The bytes of `ROInput`, and the reader of an envelope.
pub record PayloadCrates (M : Mina) : Type 0 where
  pub write : M.RoInput → Bytes
  pub read : Bytes → Option M.RoInput
  pub read_envelope : Bytes → Option (TransactionEnvelope M)

pub data PayloadError : Type 0 where
  not_an_envelope : PayloadError
  message_error : MessageError → PayloadError

module _ (M : Mina) (R : PayloadCrates M) where
  -- `panicked` is the `unwrap` of `to_pallas_message`.
  unfoldable pub signing_bytes : Bytes → Attempt PayloadError Bytes
  signing_bytes message = elim (R.read_envelope message) [
    | none ↦ refused not_an_envelope
    | some transaction ↦ elim (to_pallas_message M R.write R.read transaction) [
      | none ↦ panicked
      | some pallas_message ↦ elim (serialize (codec M R.write R.read) pallas_message) [
        | err e ↦ refused (message_error e)
        | ok bytes ↦ returned bytes
      ]
    ]
  ]
