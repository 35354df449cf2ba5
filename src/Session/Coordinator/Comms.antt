-- ===== src/Session/Coordinator/Comms.antt =====
-- `HTTPComms` of mina-frost-client/src/coordinator/comms/http.rs: how the coordinator collects the
-- commitments, sends the signing package, and collects the signature shares. The batches that the
-- server will hand out are arguments; a method that has read them all and still waits is `waits`.
-- The login, the closing of the session and the requests that fail are left out.
pub mod Collect
pub mod Phases
pub mod Commitments
pub mod Shares
use mina_multi_sig.Base.{
  ℕ, List, [], ◌∷◌, Option, none, some, ok, err, returned, refused, panicked, Bool, true, false,
  get_elem?,
}
use mina_multi_sig.Text.{Bytes}
use mina_multi_sig.Map.{Map}
use mina_multi_sig.Noise.{Snow}
use mina_multi_sig.Cipher
use mina_multi_sig.Cipher.{Cipher, Error}
use mina_multi_sig.Session.Types.{PublicKey, Msg, Ciphersuite}
use mina_multi_sig.Session.Dkg.Comms.Sends.{send_all}
use mina_multi_sig.Session.Payload.{PayloadError}
use mina_multi_sig.Session.Coordinator.{
  CoordinatorSessionState, new, has_commitments, has_signature_shares, commitments,
  signature_shares,
}
use mina_multi_sig.Session.Coordinator.Receive.{Receiver, receive_messages}

-- `Config`, without the address of the server and the public key package.
pub record CoordinatorConfig (C : Ciphersuite) : Type 0 where
  pub signers : Map PublicKey C.Identifier
  pub num_signers : ℕ
  pub message : Bytes
  pub comm_privkey : Option (List ℕ)
  pub comm_pubkey : Option PublicKey

pub data CoordinatorError (S : Snow) : Type 0 where
  comm_privkey_missing : CoordinatorError S
  comm_pubkey_missing : CoordinatorError S
  cipher_error : Error S → CoordinatorError S
  payload_error : PayloadError → CoordinatorError S
  frost_error : CoordinatorError S

-- What the coordinator keeps between its two calls.
pub record HttpComms (C : Ciphersuite) (S : Snow) : Type 0 where
  pub pubkeys : Map PublicKey C.Identifier
  pub cipher : Cipher S
  pub state : CoordinatorSessionState C

-- How a receiving loop ends, if the server hands out these batches.
pub data Collected (C : Ciphersuite) (S : Snow) : Type 0 where
  left : Receiver C S → Collected C S
  waiting : Receiver C S → Collected C S
  crashed : Collected C S

-- How a call ends; one that gives a value has sent messages.
pub data Call (C : Ciphersuite) (S : Snow) (A : Type 0) : Type 0 where
  gives : HttpComms C S → List (PublicKey × Bytes) → A → Call C S A
  waits : Receiver C S → Call C S A
  fails : CoordinatorError S → Call C S A
  panics : Call C S A

abbrev pub keys : {K V : Type 0} → Map K V → List K
keys [] = []
keys ((k, v) ∷ m) = k ∷ keys m

-- The same content for each recipient.
abbrev pub to_each : {V : Type 0} → Bytes → Map PublicKey V → List (PublicKey × Bytes)
to_each content [] = []
to_each content ((pubkey, v) ∷ pubkeys) = (pubkey, content) ∷ to_each content pubkeys

module _ (C : Ciphersuite) (S : Snow) where
  open C use {Identifier, SigningCommitments, SignatureShare}

  -- The loop; `over` is its test, which follows each batch.
  unfoldable pub collect :
      (CoordinatorSessionState C → Bool) → Receiver C S → List (List Msg) → Collected C S
  collect over r [] = waiting r
  collect over r (batch ∷ batches) = elim (receive_messages C S r batch) [
    | none ↦ crashed
    | some next ↦ elim (over next.state) [ true ↦ left next | false ↦ collect over next batches ]
  ]

  -- `commitments[0]` with the public keys of the session.
  unfoldable pub first_commitments : Receiver C S → Call C S (Map Identifier SigningCommitments)
  first_commitments r = elim (commitments C r.state) [
    | none ↦ panics
    | some (all_commitments, pubkeys) ↦ elim (get_elem? all_commitments 0) [
      | none ↦ panics
      | some chosen ↦
          gives (record { pubkeys = pubkeys; cipher = r.cipher; state = r.state }) [] chosen
    ]
  ]

  -- `signature_shares[0]`
  unfoldable pub first_shares :
      Map PublicKey Identifier
      → List (PublicKey × Bytes)
      → Receiver C S
      → Call C S (Map Identifier SignatureShare)
  first_shares pubkeys sent r = elim (signature_shares C r.state) [
    | none ↦ panics
    | some all_shares ↦ elim (get_elem? all_shares 0) [
      | none ↦ panics
      | some chosen ↦
          gives (record { pubkeys = pubkeys; cipher = r.cipher; state = r.state }) sent chosen
    ]
  ]

  -- What follows a loop.
  abbrev pub following : {A : Type 0} → Collected C S → (Receiver C S → Call C S A) → Call C S A
  following (left r) next = next r
  following (waiting r) next = waits r
  following crashed next = panics

  -- A loop starts with nobody heard.
  abbrev pub listening : Cipher S → CoordinatorSessionState C → Receiver C S
  listening cipher st = record { seen_senders = []; cipher = cipher; state = st }

  unfoldable pub get_signing_commitments :
      CoordinatorConfig C → List (List Msg) → Call C S (Map Identifier SigningCommitments)
  get_signing_commitments config batches = elim config.comm_privkey [
    | none ↦ fails comm_privkey_missing
    | some comm_privkey ↦ elim config.comm_pubkey [
      | none ↦ fails comm_pubkey_missing
      | some comm_pubkey ↦ elim (Cipher.new S comm_privkey (keys config.signers)) [
        | err e ↦ fails (cipher_error e)
        | ok cipher ↦
            following
              (collect (has_commitments C)
                (listening cipher (new C 1 config.num_signers config.signers)) batches)
              first_commitments
      ]
    ]
  ]

  unfoldable pub send_signing_package_and_get_signature_shares :
      HttpComms C S → Bytes → List (List Msg) → Call C S (Map Identifier SignatureShare)
  send_signing_package_and_get_signature_shares comms content batches =
      let sent = send_all S comms.cipher (to_each content comms.pubkeys) in
      elim sent.1 [
        | panicked ↦ panics
        | refused e ↦ fails (cipher_error e)
        | returned msgs ↦
            following (collect (has_signature_shares C) (listening sent.0 comms.state) batches)
              (first_shares comms.pubkeys msgs)
      ]
