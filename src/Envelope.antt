-- ===== src/Envelope.antt =====
-- mina-tx/src/transactions.rs, the signed form of mina-tx/src/signatures.rs and the message of
-- mina-tx/src/bluepallas_compat.rs: what is signed is the envelope of a zkApp command or a legacy
-- transaction, and what comes out can be signed again by another group.
pub mod Chain
pub mod Input
mod Tests
use mina_multi_sig.Base.{
  Bool, true, false, Option, none, some, Result, ok, err, Attempt, returned, refused, panicked,
  List,
}
use mina_multi_sig.Text.{Bytes}
use mina_multi_sig.NetworkId.{NetworkId, into_domain_string}
use mina_multi_sig.PallasMessage.{RoInputCodec, PallasMessage}
use mina_multi_sig.Base58.{Base58Crates}
use mina_multi_sig.Signatures.{Sig, to_base58}
use mina_multi_sig.ZkApp.Types.{Mina, ZkAppCommand}
use mina_multi_sig.ZkApp.Hash.{ZkAppError}
use mina_multi_sig.ZkApp.Commit.{zk_commit}
use mina_multi_sig.ZkApp.Inject.{SignatureInjectionResult, inject_signature}
use mina_multi_sig.LegacyTx
use mina_multi_sig.LegacyTx.{LegacyTransaction}

pub data TransactionKind (M : Mina) : Type 0 where
  zk_app : ZkAppCommand M → TransactionKind M
  legacy : LegacyTransaction M → TransactionKind M

pub record TransactionEnvelope (M : Mina) : Type 0 where
  pub network_id : NetworkId
  pub kind : TransactionKind M

pub record TransactionSignature (M : Mina) : Type 0 where
  pub public_key : M.CompressedPubKey
  pub signature : Sig
  pub payload : TransactionEnvelope M

-- `str::trim`, and the readers of serde_json. `none` is a parse error.
pub record Readers (M : Mina) : Type 0 where
  pub trim : Bytes → Bytes
  pub read_signed : Bytes → Option (TransactionSignature M)
  pub read_zk_app : Bytes → Option (ZkAppCommand M)
  pub read_legacy : Bytes → Option (LegacyTransaction M)

pub data EnvelopeError : Type 0 where
  unknown_transaction_type : EnvelopeError

module _ (M : Mina) where
  -- `TransactionKind::is_legacy`
  abbrev pub is_legacy : TransactionKind M → Bool
  is_legacy (legacy tx) = true
  is_legacy (zk_app tx) = false

  abbrev pub new_zk_app : NetworkId → ZkAppCommand M → TransactionEnvelope M
  new_zk_app network_id tx = record { network_id = network_id; kind = zk_app tx }

  abbrev pub new_legacy : NetworkId → LegacyTransaction M → TransactionEnvelope M
  new_legacy network_id tx = record { network_id = network_id; kind = legacy tx }

  unfoldable pub from_str_network :
      Readers M → Bytes → NetworkId → Result EnvelopeError (TransactionEnvelope M)
  from_str_network R s network_id = elim (R.read_signed (R.trim s)) [
    | some signed ↦ ok signed.payload
    | none ↦ elim (R.read_zk_app (R.trim s)) [
      | some tx ↦ ok (new_zk_app network_id tx)
      | none ↦ elim (R.read_legacy (R.trim s)) [
        | some tx ↦ ok (new_legacy network_id tx)
        | none ↦ err unknown_transaction_type
      ]
    ]
  ]

  -- The full commitment is the only field; `none` is the panic of `unwrap`.
  abbrev pub commitment_input : Attempt ZkAppError (M.Fp × M.Fp) → Option M.RoInput
  commitment_input (returned c) = some (M.append_field M.new_roinput c.1)
  commitment_input (refused e) = none
  commitment_input panicked = none

  unfoldable pub kind_roinput : NetworkId → TransactionKind M → Option M.RoInput
  kind_roinput network_id (zk_app tx) = commitment_input (zk_commit M tx network_id)
  kind_roinput network_id (legacy tx) = some (LegacyTx.to_roinput M tx)

  abbrev pub to_roinput : TransactionEnvelope M → Option M.RoInput
  to_roinput envelope = kind_roinput envelope.network_id envelope.kind

  -- The bytes of an input are those of `ROInput`.
  module _ (write : M.RoInput → Bytes) (read : Bytes → Option M.RoInput) where
    abbrev pub codec : RoInputCodec
    codec = record { ROInput = M.RoInput; write = write; read = read }

    -- `PallasMessage::from_parts`
    abbrev pub from_parts : Option M.RoInput → NetworkId → Bool → Option (PallasMessage codec)
    from_parts none network_id legacy_flag = none
    from_parts (some input) network_id legacy_flag =
        some (record { input = input; network_id = network_id; is_legacy = legacy_flag })

    unfoldable pub to_pallas_message : TransactionEnvelope M → Option (PallasMessage codec)
    to_pallas_message envelope =
        from_parts (to_roinput envelope) envelope.network_id (is_legacy envelope.kind)

  module _ (B : Base58Crates) where
    -- The match of `new_with_zkapp_injection`.
    abbrev pub inject_kind :
        M.CompressedPubKey
        → Sig
        → TransactionKind M
        → TransactionKind M × Option SignatureInjectionResult
    inject_kind public_key signature (zk_app tx) =
        let injected = inject_signature M tx public_key (to_base58 B signature) in
        (zk_app injected.0, some injected.1)
    inject_kind public_key signature (legacy tx) = (legacy tx, none)

    unfoldable pub new_with_zkapp_injection :
        M.CompressedPubKey
        → Sig
        → TransactionEnvelope M
        → TransactionSignature M × Option SignatureInjectionResult
    new_with_zkapp_injection public_key signature payload =
        let injected = inject_kind public_key signature payload.kind in
        (
          record {
            public_key = public_key;
            signature = signature;
            payload = record payload { kind = injected.0 };
          },
          injected.1,
        )
