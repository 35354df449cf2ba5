-- ===== src/Session/Dkg/Keygen.antt =====
-- `keygen` of mina-frost-client/src/dkg/keygen.rs: the three parts of frost-core's key generation
-- with the messages of mina-frost-client/src/dkg/comms/http.rs between them, and the cleanup. The
-- randomness of `part1` belongs to the parameter.
pub mod Agreement
pub mod Total
mod Tests
use mina_multi_sig.Base.{
  ℕ, List, ◌++◌, Option, none, some, Result, ok, err, Attempt, returned, refused, panicked, Bool,
  true, false, is_some,
}
use mina_multi_sig.Text.{Bytes}
use mina_multi_sig.Map.{Map}
use mina_multi_sig.Noise.{Snow}
use mina_multi_sig.Session.Types.{PublicKey, Msg, Ciphersuite}
use mina_multi_sig.Session.Dkg.{DkgSessionState, initial}
use mina_multi_sig.Session.Dkg.Comms.{CommsError, frost_error, Link}
use mina_multi_sig.Session.Dkg.Comms.Join.{
  DkgConfig, Server, Joined, choose_session, get_identifier_and_max_signers,
}
use mina_multi_sig.Session.Dkg.Comms.Rounds.{
  Writers, Method, returns, waits, fails, panics, get_round1_packages, get_round2_packages,
  get_pubkey_identifier_map,
}

-- `frost::keys::dkg`; `none` is an error.
pub record FrostDkg (C : Ciphersuite) : Type 1 where
  pub Secret1 : Type 0
  pub Secret2 : Type 0
  pub KeyPackage : Type 0
  pub PublicKeyPackage : Type 0
  pub derive : Bytes → Option C.Identifier
  pub part1 : C.Identifier → ℕ → ℕ → Option (Secret1 × C.Round1Package)
  pub part2 :
      Secret1
      → Map C.Identifier C.Round1Package
      → Option (Secret2 × Map C.Identifier C.Round2Package)
  pub part3 :
      Secret2
      → Map C.Identifier C.Round1Package
      → Map C.Identifier C.Round2Package
      → Option (KeyPackage × PublicKeyPackage)

-- What the server hands out in each of the three loops.
pub record Inbox : Type 0 where
  pub round1 : List (List Msg)
  pub broadcasts : List (List Msg)
  pub round2 : List (List Msg)

pub record Keys (C : Ciphersuite) (F : FrostDkg C) : Type 0 where
  pub key_package : F.KeyPackage
  pub public_key_package : F.PublicKeyPackage
  pub pubkey_map : Map PublicKey C.Identifier

-- `?` on a method, with what was sent.
abbrev pub chain :
    {C : Ciphersuite} {S : Snow} {A B : Type 0}
    → Method C S A
    → (Link C S → List (PublicKey × Bytes) → A → Method C S B)
    → Method C S B
chain (returns l sent a) next = next l sent a
chain (waits l) next = waits l
chain (fails e) next = fails e
chain panics next = panics

-- The errors of frost-core.
abbrev pub frost :
    {C : Ciphersuite} {S : Snow} {A B : Type 0} → Option A → (A → Method C S B) → Method C S B
frost none next = fails frost_error
frost (some a) next = next a

module _ (C : Ciphersuite) (S : Snow) (W : Writers C) (F : FrostDkg C) where
  -- The last part, and the getter of the identifiers.
  unfoldable pub finish :
      F.Secret2
      → Map C.Identifier C.Round1Package
      → Map C.Identifier C.Round2Package
      → Link C S
      → List (PublicKey × Bytes)
      → Method C S (Keys C F)
  finish secret round1 round2 l sent = frost (F.part3 secret round1 round2) λ keys.
      elim (get_pubkey_identifier_map C S W l.state) [
        | err e ↦ fails e
        | ok pubkey_map ↦
            returns l sent (record {
              key_package = keys.0;
              public_key_package = keys.1;
              pubkey_map = pubkey_map;
            })
      ]

  unfoldable pub exchange_packages : DkgConfig → Joined C → Inbox → Method C S (Keys C F)
  exchange_packages config j inbox =
      frost (F.part1 j.identifier j.max_signers config.min_signers) λ part1.
        chain
          (get_round1_packages C S W config j.identifier j.pubkeys j.state part1.1 inbox.round1
            inbox.broadcasts)
          λ l sent round1. frost (F.part2 part1.0 round1) λ part2.
            chain (get_round2_packages C S W config j.identifier j.pubkeys l part2.1 inbox.round2)
              λ next more round2. finish part2.0 round1 round2 next (sent ++ more)

  -- The block `doit`.
  unfoldable pub doit : DkgConfig → Server → Inbox → Method C S (Keys C F)
  doit config server inbox =
      elim (get_identifier_and_max_signers C F.derive S config none server (initial C)) [
        | panicked ↦ panics
        | refused e ↦ fails e
        | returned j ↦ exchange_packages config j inbox
      ]

  -- `self.session_id` after `get_identifier_and_max_signers`, whatever it returned.
  unfoldable pub session_of : DkgConfig → Server → Option Bytes
  session_of config server = elim config.comm_privkey [
    | none ↦ none
    | some comm_privkey ↦ elim config.comm_pubkey [
      | none ↦ none
      | some comm_pubkey ↦ elim (choose_session S config none server) [
        | err e ↦ none
        | ok id ↦ some id
      ]
    ]
  ]

  -- Only an error closes the session.
  abbrev pub cleanup : Method C S (Keys C F) → Option Bytes → Option Bytes
  cleanup (fails e) session_id = session_id
  cleanup (returns l sent keys) session_id = none
  cleanup (waits l) session_id = none
  cleanup panics session_id = none

  -- The result, and the session that `cleanup_on_error` closes.
  unfoldable pub keygen : DkgConfig → Server → Inbox → Method C S (Keys C F) × Option Bytes
  keygen config server inbox =
      let result = doit config server inbox in (result, cleanup result (session_of config server))
