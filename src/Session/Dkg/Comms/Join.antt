-- ===== src/Session/Dkg/Comms/Join.antt =====
-- `get_identifier_and_max_signers` of mina-frost-client/src/dkg/comms/http.rs: how a participant finds
-- the session, the identifiers of all participants, and its own. `derive` is
-- `frost_core::Identifier::derive`; the answers of the server are arguments, and the login is left
-- out.
use mina_multi_sig.Base.{
  ℕ, ◌%◌, ◌^◌, List, [], ◌∷◌, ◌++◌, Option, none, some, Result, ok, err, Attempt, returned, refused,
  panicked, lift, bind, ltb, length, if◌then◌else◌,
}
use mina_multi_sig.Text.{Bytes}
use mina_multi_sig.Map.{Map, insert}
use mina_multi_sig.Noise.{Snow}
use mina_multi_sig.Session.Types.{PublicKey, PublicKey-discrete, Ciphersuite}
use mina_multi_sig.Session.Dkg.{
  DkgSessionState, waiting_for_round1_packages, waiting_for_round1_packages_broadcast,
  waiting_for_round2_packages, round2_packages_ready,
}
use mina_multi_sig.Session.Dkg.Comms.{
  CommsError, comm_privkey_missing, comm_pubkey_missing, more_than_one_session, no_active_session,
  identifier_not_derived, too_few_participants,
}

-- `Config`, without the address of the server.
pub record DkgConfig : Type 0 where
  pub comm_privkey : Option (List ℕ)
  pub comm_pubkey : Option PublicKey
  pub comm_participant_pubkey_getter : Option (PublicKey → Option PublicKey)
  pub min_signers : ℕ
  pub participants : List PublicKey

-- What the server answers: the session that it created, the sessions of the user, and the keys of
-- the participants of a session.
pub record Server : Type 0 where
  pub created : Bytes
  pub session_ids : List Bytes
  pub session_pubkeys : Bytes → List PublicKey

-- What the call sets in `HTTPComms`, and what it returns.
pub record Joined (C : Ciphersuite) : Type 0 where
  pub session_id : Bytes
  pub pubkeys : Map PublicKey C.Identifier
  pub identifier : C.Identifier
  pub max_signers : ℕ
  pub state : DkgSessionState C

-- `ok_or_eyre`
abbrev pub or_error : {S : Snow} {A : Type 0} → Option A → CommsError S → Result (CommsError S) A
or_error none e = err e
or_error (some a) e = ok a

module _ (S : Snow) where
  -- The session of a participant that was given no list of participants.
  unfoldable pub only_session : List Bytes → Result (CommsError S) Bytes
  only_session [] = err no_active_session
  only_session (id ∷ []) = ok id
  only_session (id ∷ other ∷ ids) = err more_than_one_session

  unfoldable pub choose_session : DkgConfig → Option Bytes → Server → Result (CommsError S) Bytes
  choose_session config session_id server = elim config.participants [
    | p ∷ ps ↦ ok server.created
    | [] ↦ elim session_id [ some id ↦ ok id | none ↦ only_session server.session_ids ]
  ]

module _ (C : Ciphersuite) (derive : Bytes → Option C.Identifier) where
  open C use {Identifier}

  -- `collect` into the map, up to the first error.
  unfoldable pub identifiers :
      Bytes → List PublicKey → Map PublicKey Identifier → Option (Map PublicKey Identifier)
  identifiers session_id [] pubkeys = some pubkeys
  identifiers session_id (p ∷ ps) pubkeys = elim (derive (session_id ++ p)) [
    | none ↦ none
    | some identifier ↦ identifiers session_id ps (insert PublicKey-discrete p identifier pubkeys)
  ]

  -- The public keys are put into the state of round 1; any other is unreachable.
  unfoldable pub with_pubkeys :
      DkgSessionState C → Map PublicKey Identifier → Option (DkgSessionState C)
  with_pubkeys (waiting_for_round1_packages r) pubkeys =
      some (waiting_for_round1_packages (record r { pubkeys = pubkeys }))
  with_pubkeys (waiting_for_round1_packages_broadcast r) pubkeys = none
  with_pubkeys (waiting_for_round2_packages r) pubkeys = none
  with_pubkeys (round2_packages_ready r) pubkeys = none

  module _ (S : Snow) where
    -- From the check of the number of participants on.
    unfoldable pub enter :
        PublicKey
        → Bytes
        → Map PublicKey Identifier
        → DkgSessionState C
        → Attempt (CommsError S) (Joined C)
    enter comm_pubkey session_id pubkeys st =
        if ltb (length pubkeys) 2
        then refused too_few_participants
        else elim (with_pubkeys st pubkeys) [
          | none ↦ panicked
          | some next ↦ elim (derive (session_id ++ comm_pubkey)) [
            | none ↦ refused identifier_not_derived
            | some identifier ↦ returned (record {
              session_id = session_id;
              pubkeys = pubkeys;
              identifier = identifier;
              max_signers = length pubkeys % 2 ^ 16;
              state = next;
            })
          ]
        ]

    unfoldable pub get_identifier_and_max_signers :
        DkgConfig → Option Bytes → Server → DkgSessionState C → Attempt (CommsError S) (Joined C)
    get_identifier_and_max_signers config session_id server st =
        bind (lift (or_error config.comm_privkey comm_privkey_missing)) λ _.
          bind (lift (or_error config.comm_pubkey comm_pubkey_missing)) λ comm_pubkey.
            bind (lift (choose_session S config session_id server)) λ id.
              bind
                (lift
                  (or_error (identifiers id (server.session_pubkeys id) []) identifier_not_derived))
                λ pubkeys. enter comm_pubkey id pubkeys st
