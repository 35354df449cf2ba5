-- ===== src/Session/Participant.antt =====
-- `sign` of mina-frost-client/src/participant/sign.rs, with `HTTPComms` of
-- mina-frost-client/src/participant/comms/http.rs and `confirm_message` of
-- mina-frost-client/src/participant/comms.rs. The batches that the server will hand out are an
-- argument; the login, the logout and the requests that fail are left out.
pub mod Asked
pub mod Outcome
mod Tests
use mina_multi_sig.Base.{
  ℕ, List, [], ◌∷◌, ◌++◌, Option, none, some, Result, ok, err, Bool, true, false, Attempt, returned,
  refused, panicked,
}
use mina_multi_sig.Text.{Bytes, ascii}
use mina_multi_sig.Map.{Map}
use mina_multi_sig.Noise.{Snow}
use mina_multi_sig.Cipher
use mina_multi_sig.Cipher.{Cipher, Error, encrypt, decrypt}
use mina_multi_sig.ZkApp.Types.{Mina}
use mina_multi_sig.Session.Types.{PublicKey, PublicKey-discrete, Msg, Ciphersuite}
use mina_multi_sig.Session.Payload.{PayloadCrates, PayloadError, not_an_envelope, signing_bytes}

-- `Config`, without the address of the server; the session id is read.
pub record ParticipantConfig : Type 0 where
  pub session_id : Option Bytes
  pub comm_privkey : Option (List ℕ)
  pub comm_pubkey : Option PublicKey
  pub comm_coordinator_pubkey_getter : Option (PublicKey → Option PublicKey)

pub data ParticipantError (S : Snow) : Type 0 where
  comm_privkey_missing : ParticipantError S
  comm_pubkey_missing : ParticipantError S
  session_id_missing : ParticipantError S
  comm_keys_missing : ParticipantError S
  coordinator_not_registered : ParticipantError S
  cipher_error : Error S → ParticipantError S
  malformed_message : ParticipantError S
  no_signing_package : ParticipantError S
  signing_cancelled : ParticipantError S
  payload_error : PayloadError → ParticipantError S
  frost_error : ParticipantError S

-- `frost_core::SigningPackage`
pub record SigningPackage (C : Ciphersuite) : Type 0 where
  pub signing_commitments : Map C.Identifier C.SigningCommitments
  pub message : Bytes

-- What `round1::commit` gave, `round2::sign` with these nonces and the key package, the writers and
-- the reader of serde_json, and `str::trim`. `none` is an error.
pub record Signer (C : Ciphersuite) : Type 0 where
  pub commitments : C.SigningCommitments
  pub sign : Map C.Identifier C.SigningCommitments → Bytes → Option C.SignatureShare
  pub write_commitments : List C.SigningCommitments → Bytes
  pub write_shares : List C.SignatureShare → Bytes
  pub read_packages : Bytes → Option (List (SigningPackage C))
  pub trim : Bytes → Bytes

-- How a call ends; one that gives a value has sent messages.
pub data Step (S : Snow) (A : Type 0) : Type 0 where
  gives : Cipher S → List Bytes → A → Step S A
  waits : Step S A
  fails : ParticipantError S → Step S A
  panics : Step S A

abbrev pub and_step :
    {S : Snow} {A B : Type 0} → Step S A → (Cipher S → List Bytes → A → Step S B) → Step S B
and_step (gives c sent a) next = next c sent a
and_step waits next = waits
and_step (fails e) next = fails e
and_step panics next = panics

-- `?` on the cipher.
abbrev pub and_cipher :
    {S : Snow} {A B : Type 0}
    → Cipher S × Attempt (Error S) A
    → (Cipher S → A → Step S B)
    → Step S B
and_cipher (c, returned a) next = next c a
and_cipher (c, refused e) next = fails (cipher_error e)
and_cipher (c, panicked) next = panics

-- The first message of the first batch that is not empty.
abbrev pub first_message : List (List Msg) → Option Msg
first_message [] = none
first_message ([] ∷ batches) = first_message batches
first_message ((m ∷ ms) ∷ batches) = some m

module _ (C : Ciphersuite) (S : Snow) (F : Signer C) where
  open C use {Identifier, SigningCommitments, SignatureShare}

  -- From the loop on: the message is decrypted and read.
  unfoldable pub receive_package :
      Cipher S → List Bytes → List (List Msg) → Step S (List (SigningPackage C))
  receive_package c sent batches = elim (first_message batches) [
    | none ↦ waits
    | some m ↦ and_cipher (decrypt S c m) λ next opened. elim (F.read_packages opened.msg) [
      | none ↦ fails malformed_message
      | some packages ↦ gives next sent packages
    ]
  ]

  -- From the creation of the cipher on.
  unfoldable pub exchange_with :
      List ℕ → PublicKey → List (List Msg) → Step S (List (SigningPackage C))
  exchange_with comm_privkey coordinator batches =
      elim (Cipher.new S comm_privkey (coordinator ∷ [])) [
        | err e ↦ fails (cipher_error e)
        | ok c ↦
            and_cipher (encrypt S c none (F.write_commitments (F.commitments ∷ [])))
              λ next msg. receive_package next (msg ∷ []) batches
      ]

  -- `coordinator_pubkey` is what the server answers.
  unfoldable pub get_signing_package :
      ParticipantConfig → PublicKey → List (List Msg) → Step S (List (SigningPackage C))
  get_signing_package config coordinator_pubkey batches = elim config.comm_privkey [
    | none ↦ fails comm_privkey_missing
    | some comm_privkey ↦ elim config.comm_pubkey [
      | none ↦ fails comm_pubkey_missing
      | some comm_pubkey ↦ elim config.session_id [
        | none ↦ fails session_id_missing
        | some session_id ↦ elim config.comm_coordinator_pubkey_getter [
          | none ↦ fails comm_keys_missing
          | some getter ↦ elim (getter coordinator_pubkey) [
            | none ↦ fails coordinator_not_registered
            | some coordinator ↦ exchange_with comm_privkey coordinator batches
          ]
        ]
      ]
    ]
  ]

  unfoldable pub send_signature_share :
      Cipher S → List Bytes → SignatureShare → Step S SignatureShare
  send_signature_share c sent share =
      and_cipher (encrypt S c none (F.write_shares (share ∷ [])))
        λ next msg. gives next (sent ++ (msg ∷ [])) share

  module _ (M : Mina) (R : PayloadCrates M) where
    -- `line` is what the user typed.
    unfoldable pub confirm_message :
        List (SigningPackage C) → Bool → Bytes → Result (ParticipantError S) (Unit {0})
    confirm_message packages true line = ok tt
    confirm_message [] false line = err no_signing_package
    confirm_message (p ∷ packages) false line = elim (R.read_envelope p.message) [
      | none ↦ err (payload_error not_an_envelope)
      | some transaction ↦ elim (PublicKey-discrete (F.trim line) (ascii "y")) [
        | yes e ↦ ok tt
        | no n ↦ err signing_cancelled
      ]
    ]

    -- From the `unwrap` of the first package on.
    unfoldable pub sign_first :
        Cipher S → List Bytes → List (SigningPackage C) → Step S SignatureShare
    sign_first c sent [] = panics
    sign_first c sent (p ∷ packages) = elim (signing_bytes M R p.message) [
      | panicked ↦ panics
      | refused e ↦ fails (payload_error e)
      | returned pallas_message_bytes ↦ elim (F.sign p.signing_commitments pallas_message_bytes) [
        | none ↦ fails frost_error
        | some share ↦ send_signature_share c sent share
      ]
    ]

    -- From the question on.
    unfoldable pub sign_confirmed :
        Bool → Bytes → Cipher S → List Bytes → List (SigningPackage C) → Step S SignatureShare
    sign_confirmed confirmed line c sent packages = elim (confirm_message packages confirmed line) [
      | err e ↦ fails e
      | ok answer ↦ sign_first c sent packages
    ]

    unfoldable pub sign :
        ParticipantConfig → PublicKey → List (List Msg) → Bool → Bytes → Step S SignatureShare
    sign config coordinator_pubkey batches confirmed line =
        and_step (get_signing_package config coordinator_pubkey batches)
          (sign_confirmed confirmed line)
