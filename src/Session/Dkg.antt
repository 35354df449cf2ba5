-- ===== src/Session/Dkg.antt =====
-- `DKGSessionState` of mina-frost-client/src/session.rs: its data, `recv`, the three handlers with
-- the echo broadcast, and the getters. A handler returns the state after the call with its result;
-- where the Rust code panics the outcome is `panic`.
pub mod Valid
pub mod Echo
pub mod Invariant
pub mod Complete
pub mod Run
pub mod Sources
pub mod Agreement
pub mod Moves
pub mod Through
pub mod Others
pub mod Comms
pub mod Keygen
mod Tests
use mina_multi_sig.Base.{
  zero, suc, Bool, true, false, [], ◌∷◌, Option, none, some, ite, length, ◌==◌, ltb, ◌&&◌, not,
  if◌then◌else◌, Outcome, done, fail, panic,
}
use mina_multi_sig.Map.{
  key_set, all_values, all_entries, Map, get, insert, contains_key, same_keys, has_value,
}
use mina_multi_sig.Session.Types.{
  PublicKey, PublicKey-discrete, Msg, Ciphersuite, SessionError, malformed_message,
  received_message_during_wrong_state, unknown_participant, received_own_broadcast,
  received_redundant_broadcast, round1_package_not_found, broadcast_mismatch, duplicated_broadcast,
}

-- The fields of `WaitingForRound1Packages`.
pub record Round1 (C : Ciphersuite) : Type 0 where
  pub pubkeys : Map PublicKey C.Identifier
  pub round1_packages : Map C.Identifier C.Round1Package

-- The fields of `WaitingForRound1PackagesBroadcast`. The echoes are keyed by the original sender,
-- then by the sender of the broadcast.
pub record Round1Broadcast (C : Ciphersuite) : Type 0 where
  pub pubkeys : Map PublicKey C.Identifier
  pub round1_packages : Map C.Identifier C.Round1Package
  pub round1_broadcasted_packages : Map C.Identifier (Map C.Identifier C.Round1Package)

-- The fields of `WaitingForRound2Packages`.
pub record Round2 (C : Ciphersuite) : Type 0 where
  pub pubkeys : Map PublicKey C.Identifier
  pub round1_packages : Map C.Identifier C.Round1Package
  pub round2_packages : Map C.Identifier C.Round2Package

-- The fields of `Round2PackagesReady`.
pub record Round2Ready (C : Ciphersuite) : Type 0 where
  pub pubkeys : Map PublicKey C.Identifier
  pub round2_packages : Map C.Identifier C.Round2Package

pub data DkgSessionState (C : Ciphersuite) : Type 0 where
  waiting_for_round1_packages : Round1 C → DkgSessionState C
  waiting_for_round1_packages_broadcast : Round1Broadcast C → DkgSessionState C
  waiting_for_round2_packages : Round2 C → DkgSessionState C
  round2_packages_ready : Round2Ready C → DkgSessionState C

module _ (C : Ciphersuite) where
  open C use {
    Identifier, Round1Package, Round2Package, identifier_discrete, round1_package_discrete,
    read_round1_package, read_round1_broadcast, read_round2_package,
  }

  abbrev State : Type 0
  State = DkgSessionState C

  -- `Default::default()`
  pub initial : State
  initial = waiting_for_round1_packages (record { pubkeys = []; round1_packages = [] })

  -- What follows the round 1 packages: with two participants the echo broadcast is skipped.
  pub after_round1 : Map PublicKey Identifier → Map Identifier Round1Package → State
  after_round1 pubkeys packages =
      if ltb 2 (length pubkeys)
      then waiting_for_round1_packages_broadcast (record {
        pubkeys = pubkeys;
        round1_packages = packages;
        round1_broadcasted_packages = [];
      })
      else waiting_for_round2_packages
          (record { pubkeys = pubkeys; round1_packages = packages; round2_packages = [] })

  -- `pubkeys.len() - 1` underflows where there is no public key.
  pub store_round1_package : Round1 C → Identifier → Round1Package → Outcome SessionError State
  unfolding after_round1
  store_round1_package r identifier pkg =
      let packages = insert identifier_discrete identifier pkg r.round1_packages in
      elim (length r.pubkeys) [
        | zero ↦ panic
        | suc others ↦
            if length packages == others
            then done (after_round1 r.pubkeys packages)
            else done (waiting_for_round1_packages (record r { round1_packages = packages }))
      ]

  pub handle_round1_package : State → PublicKey → Round1Package → Outcome SessionError State
  handle_round1_package (waiting_for_round1_packages r) pubkey pkg =
      elim (get PublicKey-discrete pubkey r.pubkeys) [
        | none ↦ fail (waiting_for_round1_packages r) unknown_participant
        | some identifier ↦ store_round1_package r identifier pkg
      ]
  handle_round1_package (waiting_for_round1_packages_broadcast r) pubkey pkg = panic
  handle_round1_package (waiting_for_round2_packages r) pubkey pkg = panic
  handle_round1_package (round2_packages_ready r) pubkey pkg = panic

  -- `Some(package) == round1_packages.get(original_identifier)`
  pub is_original : Map Identifier Round1Package → Identifier → Round1Package → Bool
  is_original packages original pkg = elim (get identifier_discrete original packages) [
    | none ↦ false
    | some p ↦ ite (round1_package_discrete pkg p) true false
  ]

  -- The test of each original sender's map: the senders and the original sender are all other
  -- participants, and each package is the one that the original sender sent.
  pub is_validated : Map Identifier Round1Package → Identifier → Map Identifier Round1Package → Bool
  unfolding is_original
  is_validated packages original echoes =
      same_keys identifier_discrete (insert identifier_discrete original tt (key_set echoes))
        packages
      && all_values (is_original packages original) echoes

  pub is_complete :
      Map Identifier Round1Package → Map Identifier (Map Identifier Round1Package) → Bool
  unfolding is_validated
  is_complete packages broadcasted =
      same_keys identifier_discrete broadcasted packages
      && all_entries (is_validated packages) broadcasted

  -- `entry(original_identifier).or_insert_with(BTreeMap::new)`
  abbrev pub echoes_of :
      Map Identifier (Map Identifier Round1Package) → Identifier → Map Identifier Round1Package
  echoes_of broadcasted original = elim (get identifier_discrete original broadcasted) [
    | none ↦ []
    | some echoes ↦ echoes
  ]

  -- The state after the echo is in the map, once its insertion is known to be the first.
  pub advance_broadcast : Round1Broadcast C → State
  unfolding is_complete
  advance_broadcast r =
      if is_complete r.round1_packages r.round1_broadcasted_packages
      then waiting_for_round2_packages (record {
        pubkeys = r.pubkeys;
        round1_packages = r.round1_packages;
        round2_packages = [];
      })
      else waiting_for_round1_packages_broadcast r

  -- `.insert(sender_identifier, round1_package)` into the original sender's map. The insertion stays
  -- also where it replaced an echo and the call fails.
  pub store_broadcast :
      Round1Broadcast C → Identifier → Identifier → Round1Package → Outcome SessionError State
  unfolding advance_broadcast
  store_broadcast r sender original pkg =
      let echoes = echoes_of r.round1_broadcasted_packages original in
      let next : Round1Broadcast C = record r {
        round1_broadcasted_packages =
            insert identifier_discrete original (insert identifier_discrete sender pkg echoes)
              r.round1_broadcasted_packages;
      } in
      if contains_key identifier_discrete sender echoes
      then fail (waiting_for_round1_packages_broadcast next) duplicated_broadcast
      else done (advance_broadcast next)

  -- The checks of the handler, in their order; `none` lets the echo pass.
  pub check_broadcast :
      Round1Broadcast C → Identifier → Identifier → Identifier → Round1Package → Option SessionError
  unfolding is_original
  check_broadcast r self sender original pkg =
      if not (has_value identifier_discrete original r.pubkeys)
      then some unknown_participant
      else ite (identifier_discrete original self) (some received_own_broadcast) (
          ite (identifier_discrete original sender) (some received_redundant_broadcast) (
            if contains_key identifier_discrete original r.round1_packages
            then if is_original r.round1_packages original pkg
              then none
              else some broadcast_mismatch
            else some round1_package_not_found))

  pub handle_round1_package_broadcast :
      State → PublicKey → Identifier → Identifier → Round1Package → Outcome SessionError State
  handle_round1_package_broadcast (waiting_for_round1_packages_broadcast r) pubkey self original
        pkg =
      elim (get PublicKey-discrete pubkey r.pubkeys) [
        | none ↦ fail (waiting_for_round1_packages_broadcast r) unknown_participant
        | some sender ↦ elim (check_broadcast r self sender original pkg) [
          | some e ↦ fail (waiting_for_round1_packages_broadcast r) e
          | none ↦ store_broadcast r sender original pkg
        ]
      ]
  handle_round1_package_broadcast (waiting_for_round1_packages r) pubkey self original pkg = panic
  handle_round1_package_broadcast (waiting_for_round2_packages r) pubkey self original pkg = panic
  handle_round1_package_broadcast (round2_packages_ready r) pubkey self original pkg = panic

  pub store_round2_package : Round2 C → Identifier → Round2Package → State
  store_round2_package r identifier pkg =
      let packages = insert identifier_discrete identifier pkg r.round2_packages in
      if same_keys identifier_discrete packages r.round1_packages
      then round2_packages_ready (record { pubkeys = r.pubkeys; round2_packages = packages })
      else waiting_for_round2_packages (record r { round2_packages = packages })

  pub handle_round2_package : State → PublicKey → Round2Package → Outcome SessionError State
  unfolding store_round2_package
  handle_round2_package (waiting_for_round2_packages r) pubkey pkg =
      elim (get PublicKey-discrete pubkey r.pubkeys) [
        | none ↦ fail (waiting_for_round2_packages r) unknown_participant
        | some identifier ↦
            if contains_key identifier_discrete identifier r.round1_packages
            then done (store_round2_package r identifier pkg)
            else fail (waiting_for_round2_packages r) unknown_participant
      ]
  handle_round2_package (waiting_for_round1_packages r) pubkey pkg = panic
  handle_round2_package (waiting_for_round1_packages_broadcast r) pubkey pkg = panic
  handle_round2_package (round2_packages_ready r) pubkey pkg = panic

  pub recv : State → Msg → Identifier → Outcome SessionError State
  recv (waiting_for_round1_packages r) m self = elim (read_round1_package m.msg) [
    | none ↦ fail (waiting_for_round1_packages r) malformed_message
    | some pkg ↦ handle_round1_package (waiting_for_round1_packages r) m.sender pkg
  ]
  recv (waiting_for_round1_packages_broadcast r) m self = elim (read_round1_broadcast m.msg) [
    | none ↦ fail (waiting_for_round1_packages_broadcast r) malformed_message
    | some (original, pkg) ↦
        handle_round1_package_broadcast (waiting_for_round1_packages_broadcast r) m.sender self
          original pkg
  ]
  recv (waiting_for_round2_packages r) m self = elim (read_round2_package m.msg) [
    | none ↦ fail (waiting_for_round2_packages r) malformed_message
    | some pkg ↦ handle_round2_package (waiting_for_round2_packages r) m.sender pkg
  ]
  recv (round2_packages_ready r) m self =
      fail (round2_packages_ready r) received_message_during_wrong_state

  abbrev pub has_round1_packages : State → Bool
  has_round1_packages (waiting_for_round1_packages_broadcast r) = true
  has_round1_packages (waiting_for_round2_packages r) = true
  has_round1_packages _ = false

  abbrev pub has_round1_broadcast_packages : State → Bool
  has_round1_broadcast_packages (waiting_for_round2_packages r) = true
  has_round1_broadcast_packages _ = false

  abbrev pub has_round2_packages : State → Bool
  has_round2_packages (round2_packages_ready r) = true
  has_round2_packages _ = false

  -- `none` is a panic.
  abbrev pub round1_packages : State → Option (Map Identifier Round1Package)
  round1_packages (waiting_for_round1_packages_broadcast r) = some r.round1_packages
  round1_packages (waiting_for_round2_packages r) = some r.round1_packages
  round1_packages _ = none

  -- `none` is a panic.
  abbrev pub round2_packages : State → Option (Map Identifier Round2Package)
  round2_packages (round2_packages_ready r) = some r.round2_packages
  round2_packages _ = none
