-- ===== src/Session/Coordinator.antt =====
-- `CoordinatorSessionState` of mina-frost-client/src/session.rs: its data, `recv`, the two handlers
-- and the getters. A handler returns the state after the call with its result; the states in which
-- the Rust code panics are the outcome `panic`.
pub mod Invariant
pub mod Run
pub mod Getters
pub mod Progress
pub mod Refinement
pub mod Receive
pub mod Comms
pub mod Signing
mod Tests
use mina_multi_sig.Base.{
  ℕ, zero, suc, Bool, true, false, List, [], ◌∷◌, Option, none, some, length, ◌==◌, if◌then◌else◌,
  Outcome, done, fail, panic, get_elem?,
}
use mina_multi_sig.Map.{Map, get, insert, contains_key, same_keys}
use mina_multi_sig.Session.Types.{
  PublicKey, PublicKey-discrete, Msg, Ciphersuite, SessionError, malformed_message,
  received_message_during_wrong_state, wrong_number_of_commitments,
  wrong_number_of_signature_shares, unknown_participant, invalid_identifier,
}

pub record CoordinatorSessionStateArgs : Type 0 where
  pub num_messages : ℕ
  pub num_signers : ℕ

-- The fields of `WaitingForCommitments`.
pub record CommitmentRound (C : Ciphersuite) : Type 0 where
  pub args : CoordinatorSessionStateArgs
  pub pubkeys : Map PublicKey C.Identifier
  pub commitments : Map C.Identifier (List C.SigningCommitments)

-- The fields of `WaitingForSignatureShares`.
pub record ShareRound (C : Ciphersuite) : Type 0 where
  pub args : CoordinatorSessionStateArgs
  pub pubkeys : Map PublicKey C.Identifier
  pub commitments : Map C.Identifier (List C.SigningCommitments)
  pub signature_shares : Map C.Identifier (List C.SignatureShare)

-- The fields of `SignatureSharesReady`.
pub record SharesReady (C : Ciphersuite) : Type 0 where
  pub args : CoordinatorSessionStateArgs
  pub signature_shares : Map C.Identifier (List C.SignatureShare)

pub data CoordinatorSessionState (C : Ciphersuite) : Type 0 where
  waiting_for_commitments : CommitmentRound C → CoordinatorSessionState C
  waiting_for_signature_shares : ShareRound C → CoordinatorSessionState C
  signature_shares_ready : SharesReady C → CoordinatorSessionState C

module _ (C : Ciphersuite) where
  open C use {
    Identifier, SigningCommitments, SignatureShare, identifier_discrete, read_commitments,
    read_signature_shares,
  }

  abbrev State : Type 0
  State = CoordinatorSessionState C

  pub new : ℕ → ℕ → Map PublicKey Identifier → State
  new num_messages num_signers pubkeys = waiting_for_commitments (record {
    args = record { num_messages = num_messages; num_signers = num_signers };
    pubkeys = pubkeys;
    commitments = [];
  })

  -- `commitments_map.insert`, and the next state once every signer is there.
  pub store_commitments : CommitmentRound C → Identifier → List SigningCommitments → State
  store_commitments r identifier commitments =
      let all_commitments = insert identifier_discrete identifier commitments r.commitments in
      if length all_commitments == r.args.num_signers
      then waiting_for_signature_shares (record {
        args = r.args;
        pubkeys = r.pubkeys;
        commitments = all_commitments;
        signature_shares = [];
      })
      else waiting_for_commitments (record r { commitments = all_commitments })

  pub handle_commitments : State → PublicKey → List SigningCommitments → Outcome SessionError State
  unfolding store_commitments
  handle_commitments (waiting_for_commitments r) pubkey commitments =
      if length commitments == r.args.num_messages
      then elim (get PublicKey-discrete pubkey r.pubkeys) [
        | none ↦ fail (waiting_for_commitments r) unknown_participant
        | some identifier ↦ done (store_commitments r identifier commitments)
      ]
      else fail (waiting_for_commitments r) wrong_number_of_commitments
  handle_commitments (waiting_for_signature_shares r) pubkey commitments = panic
  handle_commitments (signature_shares_ready r) pubkey commitments = panic

  -- `signature_shares_map.insert`, and the next state once the keys are those of the commitments.
  pub store_signature_share : ShareRound C → Identifier → List SignatureShare → State
  store_signature_share r identifier signature_shares =
      let all_shares = insert identifier_discrete identifier signature_shares r.signature_shares in
      if same_keys identifier_discrete all_shares r.commitments
      then signature_shares_ready (record { args = r.args; signature_shares = all_shares })
      else waiting_for_signature_shares (record r { signature_shares = all_shares })

  pub handle_signature_share : State → PublicKey → List SignatureShare → Outcome SessionError State
  unfolding store_signature_share
  handle_signature_share (waiting_for_commitments r) pubkey signature_shares = panic
  handle_signature_share (waiting_for_signature_shares r) pubkey signature_shares =
      if length signature_shares == r.args.num_messages
      then elim (get PublicKey-discrete pubkey r.pubkeys) [
        | none ↦ fail (waiting_for_signature_shares r) unknown_participant
        | some identifier ↦
            if contains_key identifier_discrete identifier r.commitments
            then done (store_signature_share r identifier signature_shares)
            else fail (waiting_for_signature_shares r) invalid_identifier
      ]
      else fail (waiting_for_signature_shares r) wrong_number_of_signature_shares
  handle_signature_share (signature_shares_ready r) pubkey signature_shares = panic

  pub recv : State → Msg → Outcome SessionError State
  recv (waiting_for_commitments r) m = elim (read_commitments m.msg) [
    | none ↦ fail (waiting_for_commitments r) malformed_message
    | some commitments ↦ handle_commitments (waiting_for_commitments r) m.sender commitments
  ]
  recv (waiting_for_signature_shares r) m = elim (read_signature_shares m.msg) [
    | none ↦ fail (waiting_for_signature_shares r) malformed_message
    | some shares ↦ handle_signature_share (waiting_for_signature_shares r) m.sender shares
  ]
  recv (signature_shares_ready r) m =
      fail (signature_shares_ready r) received_message_during_wrong_state

  abbrev pub has_commitments : State → Bool
  has_commitments (waiting_for_signature_shares r) = true
  has_commitments _ = false

  abbrev pub has_signature_shares : State → Bool
  has_signature_shares (signature_shares_ready r) = true
  has_signature_shares _ = false

-- `map.iter().map(|(id, v)| (*id, v[i])).collect()`; an index out of range panics.
unfoldable pub column : {K V : Type 0} → Map K (List V) → ℕ → Option (Map K V)
column [] i = some []
column ((k, v) ∷ m) i = elim (get_elem? v i) [
  | none ↦ none
  | some a ↦ elim (column m i) [ none ↦ none | some rest ↦ some ((k, a) ∷ rest) ]
]

-- `(i..i + n).map(..).collect()` over the columns.
unfoldable pub columns : {K V : Type 0} → Map K (List V) → ℕ → ℕ → Option (List (Map K V))
columns m i zero = some []
columns m i (suc n) = elim (column m i) [
  | none ↦ none
  | some c ↦ elim (columns m (suc i) n) [ none ↦ none | some rest ↦ some (c ∷ rest) ]
]

module _ (C : Ciphersuite) where
  open C use {Identifier, SigningCommitments, SignatureShare}

  -- `none` is a panic.
  pub commitments :
      CoordinatorSessionState C
      → Option (List (Map Identifier SigningCommitments) × Map PublicKey Identifier)
  commitments (waiting_for_signature_shares r) =
      elim (columns r.commitments 0 r.args.num_messages) [
        | none ↦ none
        | some c ↦ some (c, r.pubkeys)
      ]
  commitments (waiting_for_commitments r) = none
  commitments (signature_shares_ready r) = none

  -- `none` is a panic.
  pub signature_shares : CoordinatorSessionState C → Option (List (Map Identifier SignatureShare))
  signature_shares (signature_shares_ready r) = columns r.signature_shares 0 r.args.num_messages
  signature_shares (waiting_for_commitments r) = none
  signature_shares (waiting_for_signature_shares r) = none
