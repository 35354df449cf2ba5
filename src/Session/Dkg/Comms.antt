-- ===== src/Session/Dkg/Comms.antt =====
-- The receiving loops of mina-frost-client/src/dkg/comms/http.rs with the cipher: the server hands
-- out batches of messages; each is decrypted and given to `recv`, and after a batch the loop looks
-- whether the phase is over. A call of the server that fails is left out.
pub mod Sends
pub mod Ends
pub mod Openings
pub mod Join
pub mod Rounds
pub mod Identifiers
pub mod Inversion
pub mod Agreed
pub mod Round1
pub mod Round2
pub mod Returns
pub mod Calm
mod Tests
use mina_multi_sig.Base.{
  List, [], ◌∷◌, Bool, Attempt, returned, refused, panicked, Outcome, done, fail, panic,
  if◌then◌else◌,
}
use mina_multi_sig.Noise.{Snow}
use mina_multi_sig.Cipher.{Cipher, Error, decrypt}
use mina_multi_sig.Session.Types.{Msg, Ciphersuite, SessionError}
use mina_multi_sig.Session.Dkg.{
  DkgSessionState, recv, has_round1_packages, has_round1_broadcast_packages, has_round2_packages,
}

-- The `eyre!` messages, and the errors of the cipher, of the session and of frost-core.
pub data CommsError (S : Snow) : Type 0 where
  cipher_error : Error S → CommsError S
  session_error : SessionError → CommsError S
  comm_privkey_missing : CommsError S
  comm_pubkey_missing : CommsError S
  comm_keys_missing : CommsError S
  more_than_one_session : CommsError S
  no_active_session : CommsError S
  identifier_not_derived : CommsError S
  too_few_participants : CommsError S
  participant_not_registered : CommsError S
  round2_package_missing : CommsError S
  frost_error : CommsError S
  wrong_state : CommsError S

-- The fields of `HTTPComms` that the loops change.
pub record Link (C : Ciphersuite) (S : Snow) : Type 0 where
  pub cipher : Cipher S
  pub state : DkgSessionState C

-- A loop that was left, that waits for the next batch, or that was stopped by an error.
pub data Waited (C : Ciphersuite) (S : Snow) : Type 0 where
  left : Link C S → Waited C S
  waiting : Link C S → Waited C S
  stopped : Link C S → CommsError S → Waited C S
  crashed : Waited C S

module _ (C : Ciphersuite) (S : Snow) where
  open C use {Identifier}

  -- What `recv` made of the state, with the cipher after the decryption.
  abbrev pub delivered :
      Cipher S → Outcome SessionError (DkgSessionState C) → Outcome (CommsError S) (Link C S)
  delivered c (done st) = done (record { cipher = c; state = st })
  delivered c (fail st e) = fail (record { cipher = c; state = st }) (session_error e)
  delivered c panic = panic

  unfoldable pub receive_msg : Link C S → Identifier → Msg → Outcome (CommsError S) (Link C S)
  receive_msg l self msg =
      let opened = decrypt S l.cipher msg in
      elim opened.1 [
        | panicked ↦ panic
        | refused e ↦ fail (record l { cipher = opened.0 }) (cipher_error e)
        | returned m ↦ delivered opened.0 (recv C l.state m self)
      ]

  unfoldable pub receive_batch :
      Link C S → Identifier → List Msg → Outcome (CommsError S) (Link C S)
  receive_batch l self [] = done l
  receive_batch l self (msg ∷ msgs) = elim (receive_msg l self msg) [
    | done next ↦ receive_batch next self msgs
    | fail next e ↦ fail next e
    | panic ↦ panic
  ]

  -- `over` is the test of the loop.
  unfoldable pub receive_until :
      (DkgSessionState C → Bool) → Link C S → Identifier → List (List Msg) → Waited C S
  receive_until over l self [] = waiting l
  receive_until over l self (batch ∷ batches) = elim (receive_batch l self batch) [
    | done next ↦ if over next.state then left next else receive_until over next self batches
    | fail next e ↦ stopped next e
    | panic ↦ crashed
  ]

  -- The loop for the packages of round 1.
  unfoldable pub receive_round1 : Link C S → Identifier → List (List Msg) → Waited C S
  receive_round1 l self batches = receive_until (has_round1_packages C) l self batches

  -- The loop for the echoes, which is skipped if none is needed.
  unfoldable pub receive_broadcasts : Link C S → Identifier → List (List Msg) → Waited C S
  receive_broadcasts l self batches =
      if has_round1_broadcast_packages C l.state
      then left l
      else receive_until (has_round1_broadcast_packages C) l self batches

  -- The loop for the packages of round 2.
  unfoldable pub receive_round2 : Link C S → Identifier → List (List Msg) → Waited C S
  receive_round2 l self batches = receive_until (has_round2_packages C) l self batches
