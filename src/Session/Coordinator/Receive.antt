-- ===== src/Session/Coordinator/Receive.antt =====
-- The loop of mina-frost-client/src/coordinator/comms/http.rs that receives a batch of messages: one
-- from a sender that was heard is skipped, and so is one that does not decrypt or that the session
-- refuses.
pub mod FirstKept
pub mod Refused
use mina_multi_sig.Noise.{Snow}
use mina_multi_sig.Cipher.{Cipher, decrypt}
use mina_multi_sig.Base.{
  Attempt, returned, refused, panicked, List, [], ◌∷◌, Option, none, some, ℕ, if◌then◌else◌,
  Outcome, done, fail, panic,
}
use mina_multi_sig.Map.{Map, insert, contains_key}
use mina_multi_sig.Session.Types.{PublicKey, PublicKey-discrete, Msg, Ciphersuite, SessionError}
use mina_multi_sig.Session.Coordinator.{CoordinatorSessionState, recv}

pub record Receiver (C : Ciphersuite) (S : Snow) : Type 0 where
  pub seen_senders : Map PublicKey (Unit {0})
  pub cipher : Cipher S
  pub state : CoordinatorSessionState C

module _ (C : Ciphersuite) (S : Snow) where
  open C use {Identifier, SigningCommitments, identifier_discrete}

  -- `none` is a panic.
  unfoldable pub settle :
      Receiver C S
      → PublicKey
      → Outcome SessionError (CoordinatorSessionState C)
      → Option (Receiver C S)
  settle r sender panic = none
  settle r sender (fail st e) = some (record r { state = st })
  settle r sender (done st) =
      some
        (record r { seen_senders = insert PublicKey-discrete sender tt r.seen_senders; state = st })

  unfoldable pub receive_message : Receiver C S → Msg → Option (Receiver C S)
  receive_message r msg =
      if contains_key PublicKey-discrete msg.sender r.seen_senders
      then some r
      else let opened = decrypt S r.cipher msg in
        elim opened.1 [
          | panicked ↦ none
          | refused e ↦ some (record r { cipher = opened.0 })
          | returned m ↦ settle (record r { cipher = opened.0 }) msg.sender (recv C r.state m)
        ]

  unfoldable pub receive_messages : Receiver C S → List Msg → Option (Receiver C S)
  receive_messages r [] = some r
  receive_messages r (msg ∷ msgs) = elim (receive_message r msg) [
    | none ↦ none
    | some next ↦ receive_messages next msgs
  ]
