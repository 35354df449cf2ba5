-- ===== src/Session/Coordinator/Signing/Tests.antt =====
-- A run of `coordinate_signing` of mina-frost-client/src/coordinator/coordinate_signing.rs: two of
-- three signers sign a payment.
use mina_multi_sig.Base.{◌≡◌, refl, List, [], ◌∷◌, Option, none, some, length, arith, ℕ_discrete}
use mina_multi_sig.Text.{Bytes}
use mina_multi_sig.Cipher.Samples.{numbered, numbered-SnowLaws}
use mina_multi_sig.NetworkId.{testnet}
use mina_multi_sig.LegacyTx.{new_payment}
use mina_multi_sig.Envelope.{new_legacy}
use mina_multi_sig.ZkApp.Samples.{small}
use mina_multi_sig.Session.Types.{Msg}
use mina_multi_sig.Session.Samples.{numbers, from, three}
use mina_multi_sig.Session.Payload.{PayloadCrates}
use mina_multi_sig.Session.Coordinator.Comms.{CoordinatorConfig, Call, gives, waits, fails, panics}
use mina_multi_sig.Session.Coordinator.Signing.{Aggregation, coordinate_signing}
use mina_multi_sig.Session.Coordinator.Signing.Outcome.{Reported, coordinate_signing-Reported}

-- Every text is that of one payment.
abbrev payment : PayloadCrates small
payment = record {
  write = λ i. i;
  read = λ b. some b;
  read_envelope = λ b. some (new_legacy small testnet (new_payment small 5 6 100 10 0));
}

-- A signature that tells how many commitments and shares it is made of.
abbrev counted : Aggregation numbers
counted = record {
  Signature = Bytes;
  write_package = λ commitments message. 9 ∷ [];
  aggregate = λ commitments message shares. some (length commitments ∷ length shares ∷ []);
  serialize = λ b. some b;
}

abbrev two_of_three : CoordinatorConfig numbers
two_of_three = record {
  signers = three;
  num_signers = 2;
  message = [];
  comm_privkey = some (20 ∷ []);
  comm_pubkey = some (20 ∷ []);
}

abbrev commitments_sent : List (List Msg)
commitments_sent = (from 11 (0 ∷ 51 ∷ []) ∷ []) ∷ (from 13 (0 ∷ 53 ∷ []) ∷ []) ∷ []

abbrev shares_sent : List (List Msg)
shares_sent = (from 13 (1 ∷ 63 ∷ []) ∷ from 11 (1 ∷ 61 ∷ []) ∷ []) ∷ []

abbrev signature_in : Call numbers numbered Bytes → Option Bytes
signature_in (gives h sent b) = some b
signature_in (waits r) = none
signature_in (fails e) = none
signature_in panics = none

signed_by_two :
    signature_in (
      coordinate_signing numbers numbered small payment counted two_of_three commitments_sent
        shares_sent)
    ≡ some (2 ∷ 2 ∷ [])
unfolding coordinate_signing ℕ_discrete
    mina_multi_sig.Session.Coordinator.Signing.aggregate_signature
    mina_multi_sig.Session.Coordinator.Comms.get_signing_commitments
    mina_multi_sig.Session.Coordinator.Comms.collect
    mina_multi_sig.Session.Coordinator.Comms.first_commitments
    mina_multi_sig.Session.Coordinator.Comms.first_shares
    mina_multi_sig.Session.Coordinator.Comms.send_signing_package_and_get_signature_shares
    mina_multi_sig.Cipher.new mina_multi_sig.Cipher.add_peers mina_multi_sig.Cipher.add_peer
    mina_multi_sig.Cipher.decrypt mina_multi_sig.Cipher.encrypt mina_multi_sig.Cipher.encrypt_to
    mina_multi_sig.Cipher.zeros mina_multi_sig.Session.Coordinator.Receive.receive_messages
    mina_multi_sig.Session.Coordinator.Receive.receive_message
    mina_multi_sig.Session.Coordinator.Receive.settle mina_multi_sig.Map.get
    mina_multi_sig.Map.insert mina_multi_sig.Map.same_keys mina_multi_sig.Map.keys_within
    mina_multi_sig.Session.Types.PublicKey-discrete mina_multi_sig.Noise.read_message
    mina_multi_sig.Noise.write_message mina_multi_sig.Noise.after_handshake
    mina_multi_sig.Session.Coordinator.new mina_multi_sig.Session.Coordinator.recv
    mina_multi_sig.Session.Coordinator.handle_commitments
    mina_multi_sig.Session.Coordinator.store_commitments
    mina_multi_sig.Session.Coordinator.handle_signature_share
    mina_multi_sig.Session.Coordinator.store_signature_share
    mina_multi_sig.Session.Coordinator.commitments
    mina_multi_sig.Session.Coordinator.signature_shares mina_multi_sig.Session.Coordinator.columns
    mina_multi_sig.Session.Coordinator.column mina_multi_sig.Session.Dkg.Comms.Sends.send_all
    mina_multi_sig.Session.Payload.signing_bytes mina_multi_sig.Envelope.to_pallas_message
    mina_multi_sig.Envelope.kind_roinput mina_multi_sig.PallasMessage.serialize
    mina_multi_sig.PallasMessage.network_bytes
signed_by_two = refl

coordinate_signing-Reported_example : Reported numbers numbered small payment counted two_of_three (
    coordinate_signing numbers numbered small payment counted two_of_three commitments_sent
      shares_sent)
coordinate_signing-Reported_example =
    coordinate_signing-Reported numbers numbered small payment counted numbered-SnowLaws
      two_of_three commitments_sent shares_sent (omega arith)
