-- ===== src/Session/Coordinator/Signing.antt =====
-- `coordinate_signing` of mina-frost-client/src/coordinator/coordinate_signing.rs: the two calls of
-- the communication, and the aggregation of what they give.
pub mod Outcome
mod Tests
use mina_multi_sig.Base.{
  List, ◌++◌, Option, none, some, Bool, true, false, returned, refused, panicked,
}
use mina_multi_sig.Text.{Bytes}
use mina_multi_sig.Map.{Map}
use mina_multi_sig.Noise.{Snow}
use mina_multi_sig.ZkApp.Types.{Mina}
use mina_multi_sig.Session.Types.{PublicKey, Msg, Ciphersuite}
use mina_multi_sig.Session.Payload.{PayloadCrates, signing_bytes}
use mina_multi_sig.Session.Coordinator.Comms.{
  CoordinatorConfig, CoordinatorError, comm_privkey_missing, comm_pubkey_missing, cipher_error,
  payload_error, frost_error, HttpComms, Call, gives, waits, fails, panics, get_signing_commitments,
  send_signing_package_and_get_signature_shares,
}

-- `SigningPackage::new` in the arguments that are written for the signers, and
-- `frost_bluepallas::aggregate`, which calls frost-core, with the public key package of the
-- configuration. `none` is an error.
pub record Aggregation (C : Ciphersuite) : Type 1 where
  pub Signature : Type 0
  pub write_package : Map C.Identifier C.SigningCommitments → Bytes → Bytes
  pub aggregate :
      Map C.Identifier C.SigningCommitments
      → Bytes
      → Map C.Identifier C.SignatureShare
      → Option Signature
  pub serialize : Signature → Option Bytes

abbrev pub and_call :
    {C : Ciphersuite} {S : Snow} {A B : Type 0}
    → Call C S A
    → (HttpComms C S → List (PublicKey × Bytes) → A → Call C S B)
    → Call C S B
and_call (gives h sent a) next = next h sent a
and_call (waits r) next = waits r
and_call (fails e) next = fails e
and_call panics next = panics

-- `cleanup_on_error` follows an error, unless the message is no transaction that can be signed.
abbrev pub cleans : {S : Snow} → CoordinatorError S → Bool
cleans comm_privkey_missing = true
cleans comm_pubkey_missing = true
cleans (cipher_error e) = true
cleans (payload_error e) = false
cleans frost_error = true

module _ (C : Ciphersuite) (S : Snow) (M : Mina) (R : PayloadCrates M) (F : Aggregation C) where
  open C use {Identifier, SigningCommitments, SignatureShare}

  unfoldable pub aggregate_signature :
      Bytes
      → HttpComms C S
      → Map Identifier SigningCommitments
      → List (PublicKey × Bytes)
      → Map Identifier SignatureShare
      → Call C S Bytes
  aggregate_signature message h commitments sent signatures = elim (signing_bytes M R message) [
    | panicked ↦ panics
    | refused e ↦ fails (payload_error e)
    | returned pallas_message_bytes ↦
        elim (F.aggregate commitments pallas_message_bytes signatures) [
          | none ↦ fails frost_error
          | some signature ↦ elim (F.serialize signature) [
            | none ↦ fails frost_error
            | some bytes ↦ gives h sent bytes
          ]
        ]
  ]

  unfoldable pub coordinate_signing :
      CoordinatorConfig C → List (List Msg) → List (List Msg) → Call C S Bytes
  coordinate_signing config batches share_batches =
      and_call (get_signing_commitments C S config batches) λ h sent commitments.
        and_call
          (send_signing_package_and_get_signature_shares C S h
            (F.write_package commitments config.message) share_batches)
          λ next more signatures.
            aggregate_signature config.message next commitments (sent ++ more) signatures
