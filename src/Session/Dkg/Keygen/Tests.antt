-- ===== src/Session/Dkg/Keygen/Tests.antt =====
-- A run of `keygen` of mina-frost-client/src/dkg/keygen.rs with three participants.
use mina_multi_sig.Base.{
  inl, inr, ◌≢◌, arith, List, ℕ, ◌-◌, ◌+◌, ◌≡◌, refl, [], ◌∷◌, Option, some, none, returned,
  ℕ_discrete,
}
use mina_multi_sig.Text.{Bytes}
use mina_multi_sig.Map.{get, Map}
use mina_multi_sig.Cipher.Samples.{numbered-SnowLaws, numbered, waiting}
use mina_multi_sig.Noise.{Noise}
use mina_multi_sig.Session.Dkg.Comms.{Link}
use mina_multi_sig.Session.Types.{PublicKey-discrete, PublicKey, Msg}
use mina_multi_sig.Session.Samples.{numbers, from, three}
use mina_multi_sig.Session.Dkg.{initial, waiting_for_round1_packages, round2_packages_ready}
use mina_multi_sig.Session.Dkg.Comms.Join.{
  DkgConfig, Server, Joined, get_identifier_and_max_signers,
}
use mina_multi_sig.Session.Dkg.Comms.Rounds.{panics, returns, Writers, Method}
use mina_multi_sig.Session.Dkg.Keygen.Agreement.{Generated, keygen-Generated}
use mina_multi_sig.Session.Dkg.Keygen.Total.{keygen-ne-panics}
use mina_multi_sig.Session.Dkg.Comms.Identifiers.{joined_agree}
use mina_multi_sig.Session.Dkg.Keygen.{FrostDkg, Inbox, Keys, keygen}

abbrev writers : Writers numbers
writers = record {
  write_round1 = λ p. p ∷ [];
  write_broadcast = λ i p. i ∷ p ∷ [];
  write_round2 = λ p. p ∷ [];
}

abbrev derive_last : Bytes → Option ℕ
derive_last [] = none
derive_last (k ∷ []) = some (k - 10)
derive_last (a ∷ b ∷ rest) = derive_last (b ∷ rest)

-- The parts of the key generation of participant 2.
abbrev parts : FrostDkg numbers
parts = record {
  Secret1 = ℕ;
  Secret2 = ℕ;
  KeyPackage = ℕ;
  PublicKeyPackage = ℕ;
  derive = derive_last;
  part1 = λ i max min. some (max + min, 52);
  part2 = λ s m. some (s + 1, (1, 71) ∷ (3, 73) ∷ []);
  part3 = λ s m n. some (s + 1, 99);
}

abbrev config : DkgConfig
config = record {
  comm_privkey = some (12 ∷ []);
  comm_pubkey = some (12 ∷ []);
  comm_participant_pubkey_getter = some (λ k. some k);
  min_signers = 2;
  participants = [];
}

abbrev server : Server
server = record {
  created = [];
  session_ids = (7 ∷ []) ∷ [];
  session_pubkeys = λ id. (11 ∷ []) ∷ (12 ∷ []) ∷ (13 ∷ []) ∷ [];
}

abbrev inbox : Inbox
inbox = record {
  round1 = (from 11 (0 ∷ 51 ∷ []) ∷ []) ∷ (from 13 (0 ∷ 53 ∷ []) ∷ []) ∷ [];
  broadcasts = (from 11 (1 ∷ 3 ∷ 53 ∷ []) ∷ from 13 (1 ∷ 1 ∷ 51 ∷ []) ∷ []) ∷ [];
  round2 = (from 11 (2 ∷ 61 ∷ []) ∷ from 13 (2 ∷ 63 ∷ []) ∷ []) ∷ [];
}

abbrev joined : Joined numbers
joined = record {
  session_id = 7 ∷ [];
  pubkeys = three;
  identifier = 2;
  max_signers = 3;
  state =
      mina_multi_sig.Session.Dkg.waiting_for_round1_packages
        (record { pubkeys = three; round1_packages = [] });
}

second_joins :
    get_identifier_and_max_signers numbers derive_last numbered config none server (initial numbers)
    ≡ returned joined
unfolding get_identifier_and_max_signers initial
    mina_multi_sig.Session.Dkg.Comms.Join.choose_session
    mina_multi_sig.Session.Dkg.Comms.Join.only_session
    mina_multi_sig.Session.Dkg.Comms.Join.identifiers mina_multi_sig.Session.Dkg.Comms.Join.enter
    mina_multi_sig.Map.insert mina_multi_sig.Session.Types.PublicKey-discrete ℕ_discrete
    mina_multi_sig.Session.Dkg.Comms.Join.with_pubkeys
second_joins = refl

-- The channel of a peer after three messages.
abbrev thrice : List ℕ → Noise numbered
thrice keys = record { handshake_state = none; transport_state = some (keys, 3) }

abbrev after : Link numbers numbered
after = record {
  cipher = record {
    send_noise_map =
        (11 ∷ [], thrice (12 ∷ 11 ∷ []))
        ∷ (12 ∷ [], waiting (12 ∷ 12 ∷ []))
        ∷ (13 ∷ [], thrice (12 ∷ 13 ∷ []))
        ∷ [];
    recv_noise_map =
        (11 ∷ [], thrice (11 ∷ 12 ∷ []))
        ∷ (12 ∷ [], waiting (12 ∷ 12 ∷ []))
        ∷ (13 ∷ [], thrice (13 ∷ 12 ∷ []))
        ∷ [];
  };
  state =
      round2_packages_ready (record { pubkeys = three; round2_packages = (1, 61) ∷ (3, 63) ∷ [] });
}

abbrev outbox : List (PublicKey × Bytes)
outbox =
    (11 ∷ [], 0 ∷ 52 ∷ [])
    ∷ (13 ∷ [], 0 ∷ 52 ∷ [])
    ∷ (11 ∷ [], 1 ∷ 3 ∷ 53 ∷ [])
    ∷ (13 ∷ [], 1 ∷ 1 ∷ 51 ∷ [])
    ∷ (11 ∷ [], 2 ∷ 71 ∷ [])
    ∷ (13 ∷ [], 2 ∷ 73 ∷ [])
    ∷ []

abbrev keys : Keys numbers parts
keys = record { key_package = 7; public_key_package = 99; pubkey_map = three }

generated :
    (keygen numbers numbered writers parts config server inbox).0 ≡ returns after outbox keys
unfolding keygen mina_multi_sig.Session.Dkg.Keygen.doit get_identifier_and_max_signers
    mina_multi_sig.Session.Dkg.Comms.Join.choose_session
    mina_multi_sig.Session.Dkg.Comms.Join.only_session
    mina_multi_sig.Session.Dkg.Comms.Join.identifiers mina_multi_sig.Session.Dkg.Comms.Join.enter
    mina_multi_sig.Session.Dkg.Comms.Join.with_pubkeys mina_multi_sig.Map.insert
    mina_multi_sig.Map.get mina_multi_sig.Map.has_value mina_multi_sig.Map.keys_within
    mina_multi_sig.Map.same_keys mina_multi_sig.Session.Types.PublicKey-discrete ℕ_discrete initial
    mina_multi_sig.Session.Dkg.Keygen.exchange_packages mina_multi_sig.Session.Dkg.Keygen.finish
    mina_multi_sig.Session.Dkg.Keygen.session_of
    mina_multi_sig.Session.Dkg.Comms.Rounds.get_round1_packages
    mina_multi_sig.Session.Dkg.Comms.Rounds.start_cipher
    mina_multi_sig.Session.Dkg.Comms.Rounds.registered
    mina_multi_sig.Session.Dkg.Comms.Rounds.echo_packages
    mina_multi_sig.Session.Dkg.Comms.Rounds.get_pubkey_identifier_map
    mina_multi_sig.Session.Dkg.Comms.Rounds.get_round2_packages
    mina_multi_sig.Session.Dkg.Comms.Rounds.send mina_multi_sig.Session.Dkg.Comms.Rounds.send_round2
    mina_multi_sig.Cipher.new mina_multi_sig.Cipher.add_peers mina_multi_sig.Cipher.add_peer
    mina_multi_sig.Cipher.decrypt mina_multi_sig.Cipher.encrypt mina_multi_sig.Cipher.encrypt_to
    mina_multi_sig.Cipher.zeros mina_multi_sig.Noise.after_handshake
    mina_multi_sig.Noise.read_message mina_multi_sig.Noise.write_message
    mina_multi_sig.Session.Dkg.Comms.Sends.broadcast_sends
    mina_multi_sig.Session.Dkg.Comms.Sends.echoes_to
    mina_multi_sig.Session.Dkg.Comms.Sends.round1_sends
    mina_multi_sig.Session.Dkg.Comms.Sends.send_all mina_multi_sig.Session.Dkg.Comms.receive_batch
    mina_multi_sig.Session.Dkg.Comms.receive_broadcasts mina_multi_sig.Session.Dkg.Comms.receive_msg
    mina_multi_sig.Session.Dkg.Comms.receive_round1 mina_multi_sig.Session.Dkg.Comms.receive_round2
    mina_multi_sig.Session.Dkg.Comms.receive_until mina_multi_sig.Session.Dkg.advance_broadcast
    mina_multi_sig.Session.Dkg.after_round1 mina_multi_sig.Session.Dkg.check_broadcast
    mina_multi_sig.Session.Dkg.handle_round1_package
    mina_multi_sig.Session.Dkg.handle_round1_package_broadcast
    mina_multi_sig.Session.Dkg.handle_round2_package mina_multi_sig.Session.Dkg.is_complete
    mina_multi_sig.Session.Dkg.is_original mina_multi_sig.Session.Dkg.is_validated
    mina_multi_sig.Session.Dkg.recv mina_multi_sig.Session.Dkg.store_broadcast
    mina_multi_sig.Session.Dkg.store_round1_package mina_multi_sig.Session.Dkg.store_round2_package
generated = refl

keygen-Generated_example : Generated numbers numbered writers parts config joined inbox keys
keygen-Generated_example =
    keygen-Generated numbers numbered writers parts config server inbox joined after outbox keys
      second_joins (omega arith) generated

abbrev config_3 : DkgConfig
config_3 = record config { comm_privkey = some (13 ∷ []); comm_pubkey = some (13 ∷ []) }

abbrev joined_3 : Joined numbers
joined_3 = record joined { identifier = 3 }

third_joins :
    get_identifier_and_max_signers numbers derive_last numbered config_3 none server
      (initial numbers)
    ≡ returned joined_3
unfolding get_identifier_and_max_signers mina_multi_sig.Session.Dkg.Comms.Join.choose_session
    mina_multi_sig.Session.Dkg.Comms.Join.only_session
    mina_multi_sig.Session.Dkg.Comms.Join.identifiers mina_multi_sig.Session.Dkg.Comms.Join.enter
    mina_multi_sig.Map.insert PublicKey-discrete ℕ_discrete
    mina_multi_sig.Session.Dkg.Comms.Join.with_pubkeys initial
third_joins = refl

joined_agree_example : (three ≡ three) × (get PublicKey-discrete (12 ∷ []) three ≡ some 2)
joined_agree_example =
    joined_agree numbers derive_last numbered config config_3 none none server server
      (initial numbers) (initial numbers) joined joined_3 (12 ∷ []) second_joins third_joins refl
      refl refl (inr (inl refl))

keygen-ne-panics_example : (keygen numbers numbered writers parts config server inbox).0 ≢ panics
keygen-ne-panics_example =
    keygen-ne-panics numbers numbered writers parts numbered-SnowLaws config server inbox
