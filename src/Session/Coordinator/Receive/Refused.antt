-- ===== src/Session/Coordinator/Receive/Refused.antt =====
-- Messages that the coordinator cannot use.
use mina_multi_sig.Base.{
  List, [], ◌∷◌, ◌++◌, ◌≡◌, refl, ap, some, inl, inr, Bool-cases, refused, All,
}
use mina_multi_sig.Map.{contains_key}
use mina_multi_sig.Noise.{Snow}
use mina_multi_sig.Noise.Laws.{SnowLaws}
use mina_multi_sig.Cipher.{Error, Cipher, decrypt}
use mina_multi_sig.Cipher.Valid.{IsValid}
use mina_multi_sig.Cipher.Isolation.{decrypt_refused}
use mina_multi_sig.Session.Types.{PublicKey-discrete, Msg, Ciphersuite}
use mina_multi_sig.Session.Coordinator.Receive.{Receiver, receive_message, receive_messages}

module _ (S : Snow) where
  -- The message does not decrypt.
  pub record IsShut (c : Cipher S) (m : Msg) : Type 0 where
    pub error : Error S
    pub result : (decrypt S c m).1 ≡ refused error

module _ (C : Ciphersuite) (S : Snow) (L : SnowLaws S) where
  receive_message_shut :
      (r : Receiver C S) (m : Msg)
      → IsValid S r.cipher
      → IsShut S r.cipher m
      → receive_message C S r m ≡ some r
  unfolding receive_message
  receive_message_shut r m v shut =
      elim (Bool-cases (contains_key PublicKey-discrete m.sender r.seen_senders)) [
        | inl again ↦ rw (again, receive_message) refl
        | inr first ↦
            rw (first, shut.result, receive_message)
              (ap (λ c. some (record r { cipher = c }))
                (decrypt_refused S L r.cipher m shut.error v shut.result))
      ]

  -- Messages that do not decrypt, however many, change nothing for the coordinator: what follows them
  -- is received as if they had not come.
  pub receive_messages_shut :
      (r : Receiver C S) (forged rest : List Msg)
      → IsValid S r.cipher
      → All (IsShut S r.cipher) forged
      → receive_messages C S r (forged ++ rest) ≡ receive_messages C S r rest
  unfolding receive_messages
  receive_messages_shut r [] rest v shut = refl
  receive_messages_shut r (m ∷ forged) rest v shut =
      rw (receive_message_shut r m v shut.0, receive_messages)
        (receive_messages_shut r forged rest v shut.1)
