-- ===== src/Session/Types.antt =====
-- What both sessions share: messages and keys (mina-frost-client/src/api.rs), the types that the
-- ciphersuite and serde_json provide, and the errors of session.rs.
use mina_multi_sig.Base.{ℕ, List, Option, ℕ_discrete}

-- `PublicKey(Vec<u8>)`
abbrev pub PublicKey : Type 0
PublicKey = List ℕ

unfoldable pub PublicKey-discrete : Discrete PublicKey
PublicKey-discrete = hlevel ℕ_discrete

-- `Msg`
pub record Msg : Type 0 where
  pub sender : PublicKey
  pub msg : List ℕ

-- frost-core's types for a ciphersuite, with the equality and the serde_json readers that the
-- sessions use. `none` is a parse error.
pub record Ciphersuite : Type 1 where
  pub Identifier : Type 0
  pub SigningCommitments : Type 0
  pub SignatureShare : Type 0
  pub Round1Package : Type 0
  pub Round2Package : Type 0
  pub identifier_discrete : Discrete Identifier
  pub round1_package_discrete : Discrete Round1Package
  pub read_commitments : List ℕ → Option (List SigningCommitments)
  pub read_signature_shares : List ℕ → Option (List SignatureShare)
  pub read_round1_package : List ℕ → Option Round1Package
  pub read_round1_broadcast : List ℕ → Option (Identifier × Round1Package)
  pub read_round2_package : List ℕ → Option Round2Package

-- The `eyre!` messages, and a failure of serde_json.
pub data SessionError : Type 0 where
  malformed_message : SessionError
  received_message_during_wrong_state : SessionError
  wrong_number_of_commitments : SessionError
  wrong_number_of_signature_shares : SessionError
  unknown_participant : SessionError
  invalid_identifier : SessionError
  received_own_broadcast : SessionError
  received_redundant_broadcast : SessionError
  round1_package_not_found : SessionError
  broadcast_mismatch : SessionError
  duplicated_broadcast : SessionError
