-- ===== src/Session/Participant/Tests.antt =====
-- Runs of `sign` of mina-frost-client/src/participant/sign.rs: the key of the coordinator is 20.
use mina_multi_sig.Base.{◌≡◌, refl, List, ℕ, [], ◌∷◌, Option, none, some, true, false, ℕ_discrete}
use mina_multi_sig.Text.{Bytes, ascii}
use mina_multi_sig.Cipher.Samples.{numbered, numbered-SnowLaws}
use mina_multi_sig.Envelope.{new_legacy}
use mina_multi_sig.LegacyTx.{new_payment}
use mina_multi_sig.NetworkId.{testnet}
use mina_multi_sig.ZkApp.Samples.{small}
use mina_multi_sig.Session.Types.{Msg}
use mina_multi_sig.Session.Samples.{numbers, from}
use mina_multi_sig.Session.Payload.{PayloadCrates}
use mina_multi_sig.Session.Participant.{
  ParticipantConfig, SigningPackage, Signer, Step, gives, waits, fails, panics, sign,
}
use mina_multi_sig.Session.Participant.Outcome.{Reported, sign-Reported}

abbrev payment : PayloadCrates small
payment = record {
  write = λ i. i;
  read = λ b. some b;
  read_envelope = λ b. some (new_legacy small testnet (new_payment small 5 6 100 10 0));
}

-- Nothing is read as no package, and anything else as one.
abbrev packages_of : Bytes → Option (List (SigningPackage numbers))
packages_of [] = some []
packages_of (x ∷ b) = some (record { signing_commitments = (1, 51) ∷ []; message = b } ∷ [])

abbrev signer : Signer numbers
signer = record {
  commitments = 52;
  sign = λ commitments message. some 62;
  write_commitments = λ c. c;
  write_shares = λ s. s;
  read_packages = packages_of;
  trim = λ s. s;
}

abbrev config : ParticipantConfig
config = record {
  session_id = some (7 ∷ []);
  comm_privkey = some (12 ∷ []);
  comm_pubkey = some (12 ∷ []);
  comm_coordinator_pubkey_getter = some (λ k. some k);
}

abbrev one_package : List (List Msg)
one_package = [] ∷ (from 20 (0 ∷ 9 ∷ []) ∷ []) ∷ []

abbrev no_package : List (List Msg)
no_package = (from 20 (0 ∷ []) ∷ []) ∷ []

abbrev share_in : Step numbered ℕ → Option ℕ
share_in (gives c sent share) = some share
share_in waits = none
share_in (fails e) = none
share_in panics = none

share_sent :
    share_in
      (sign numbers numbered signer small payment config (20 ∷ []) one_package false (ascii "y"))
    ≡ some 62
unfolding sign ℕ_discrete mina_multi_sig.Session.Participant.get_signing_package
    mina_multi_sig.Session.Participant.exchange_with
    mina_multi_sig.Session.Participant.receive_package
    mina_multi_sig.Session.Participant.send_signature_share
    mina_multi_sig.Session.Participant.confirm_message mina_multi_sig.Session.Participant.sign_first
    mina_multi_sig.Session.Participant.sign_confirmed mina_multi_sig.Cipher.new
    mina_multi_sig.Cipher.add_peers mina_multi_sig.Cipher.add_peer mina_multi_sig.Cipher.decrypt
    mina_multi_sig.Cipher.encrypt mina_multi_sig.Cipher.encrypt_to mina_multi_sig.Cipher.zeros
    mina_multi_sig.Map.get mina_multi_sig.Map.insert mina_multi_sig.Session.Types.PublicKey-discrete
    mina_multi_sig.Noise.read_message mina_multi_sig.Noise.write_message
    mina_multi_sig.Noise.after_handshake mina_multi_sig.Session.Payload.signing_bytes
    mina_multi_sig.Envelope.to_pallas_message mina_multi_sig.Envelope.kind_roinput
    mina_multi_sig.PallasMessage.serialize mina_multi_sig.PallasMessage.network_bytes
share_sent = refl

-- A message without a package makes a participant panic that does not ask.
empty_panics :
    sign numbers numbered signer small payment config (20 ∷ []) no_package true [] ≡ panics
unfolding sign ℕ_discrete mina_multi_sig.Session.Participant.get_signing_package
    mina_multi_sig.Session.Participant.exchange_with
    mina_multi_sig.Session.Participant.receive_package
    mina_multi_sig.Session.Participant.send_signature_share
    mina_multi_sig.Session.Participant.confirm_message mina_multi_sig.Session.Participant.sign_first
    mina_multi_sig.Session.Participant.sign_confirmed mina_multi_sig.Cipher.new
    mina_multi_sig.Cipher.add_peers mina_multi_sig.Cipher.add_peer mina_multi_sig.Cipher.decrypt
    mina_multi_sig.Cipher.encrypt mina_multi_sig.Cipher.encrypt_to mina_multi_sig.Cipher.zeros
    mina_multi_sig.Map.get mina_multi_sig.Map.insert mina_multi_sig.Session.Types.PublicKey-discrete
    mina_multi_sig.Noise.read_message mina_multi_sig.Noise.write_message
    mina_multi_sig.Noise.after_handshake mina_multi_sig.Session.Payload.signing_bytes
    mina_multi_sig.Envelope.to_pallas_message mina_multi_sig.Envelope.kind_roinput
    mina_multi_sig.PallasMessage.serialize mina_multi_sig.PallasMessage.network_bytes
empty_panics = refl

sign-Reported_example :
    Reported numbers numbered signer small payment config
      (20 ∷ [])
      one_package
      false
      (ascii "y")
      (sign numbers numbered signer small payment config (20 ∷ []) one_package false (ascii "y"))
sign-Reported_example =
    sign-Reported numbers numbered signer small payment numbered-SnowLaws config (20 ∷ [])
      one_package false (ascii "y")
