-- ===== src/Session/Coordinator/Comms/Collect.antt =====
-- What a property of the session that each message keeps says of a receiving loop.
use mina_multi_sig.Base.{
  ◌≡◌, refl, List, [], ◌∷◌, some, Bool, true, Outcome, done, fail, panic, inl, inr, Bool-cases,
  Attempt-cases,
}
use mina_multi_sig.Map.{insert, contains_key}
use mina_multi_sig.Noise.{Snow}
use mina_multi_sig.Noise.Laws.{SnowLaws}
use mina_multi_sig.Cipher.{decrypt}
use mina_multi_sig.Cipher.Valid as CipherValid
use mina_multi_sig.Cipher.Valid.{decrypt-Returns}
use mina_multi_sig.Session.Types.{PublicKey, PublicKey-discrete, Msg, Ciphersuite, SessionError}
use mina_multi_sig.Session.Coordinator.{CoordinatorSessionState, recv}
use mina_multi_sig.Session.Coordinator.Receive.{Receiver, settle, receive_message, receive_messages}
use mina_multi_sig.Session.Coordinator.Comms.{Collected, left, waiting, crashed, collect}

-- The state after a call, which does not panic, satisfies `P`.
abbrev pub Stays : {E A : Type 0} → (A → Type 0) → Outcome E A → Type 0
Stays P (done t) = P t
Stays P (fail t e) = P t
Stays P panic = ⊥

module _ (C : Ciphersuite) (S : Snow) (P : CoordinatorSessionState C → Type 0) where
  -- The cipher is valid, and the session satisfies `P`.
  pub record Holds (r : Receiver C S) : Type 0 where
    pub cipher : CipherValid.IsValid S r.cipher
    pub state : P r.state

  -- The loop does not panic; it is left with its test met and `P`.
  abbrev pub Ended : (CoordinatorSessionState C → Bool) → Collected C S → Type 0
  Ended over (left r) = Holds r × (over r.state ≡ true)
  Ended over (waiting r) = Holds r
  Ended over crashed = ⊥

  settle-Holds :
      (r : Receiver C S) (sender : PublicKey) (o : Outcome SessionError (CoordinatorSessionState C))
      → CipherValid.IsValid S r.cipher
      → Stays P o
      → (t : Receiver C S) × (settle C S r sender o ≡ some t) × Holds t
  unfolding settle
  settle-Holds r sender panic v h = absurd h
  settle-Holds r sender (fail st e) v h =
      (record r { state = st }, refl, record { cipher = v; state = h })
  settle-Holds r sender (done st) v h = (
    record r { seen_senders = insert PublicKey-discrete sender tt r.seen_senders; state = st },
    refl,
    record { cipher = v; state = h },
  )

  module _ (L : SnowLaws S)
      (keeps : (st : CoordinatorSessionState C) (m : Msg) → P st → Stays P (recv C st m)) where
    receive_message-Holds :
        (r : Receiver C S) (m : Msg)
        → Holds r
        → (t : Receiver C S) × (receive_message C S r m ≡ some t) × Holds t
    unfolding receive_message
    receive_message-Holds r m h =
        let opened = decrypt-Returns S L r.cipher m h.cipher in
        elim (Bool-cases (contains_key PublicKey-discrete m.sender r.seen_senders)) [
          | inl again ↦ (r, rw (again, receive_message) refl, h)
          | inr first ↦ elim (Attempt-cases (decrypt S r.cipher m).1) [
            | inl broken ↦ absurd (opened.result broken)
            | inr (inl (e, shut)) ↦ (
              record r { cipher = (decrypt S r.cipher m).0 },
              rw (first, shut, receive_message) refl,
              record { cipher = opened.valid; state = h.state },
            )
            | inr (inr (plain, was)) ↦
                let (t, e, w) =
                  settle-Holds (record r { cipher = (decrypt S r.cipher m).0 }) m.sender
                    (recv C r.state plain) opened.valid (keeps r.state plain h.state) in
                (t, rw (first, was, receive_message) e, w)
          ]
        ]

    receive_messages-Holds :
        (r : Receiver C S) (ms : List Msg)
        → Holds r
        → (t : Receiver C S) × (receive_messages C S r ms ≡ some t) × Holds t
    unfolding receive_messages
    receive_messages-Holds r [] h = (r, refl, h)
    receive_messages-Holds r (m ∷ ms) h =
        let (next, e, w) = receive_message-Holds r m h in
        rw (e, receive_messages) (receive_messages-Holds next ms w)

    pub collect-Ended :
        (over : CoordinatorSessionState C → Bool) (r : Receiver C S) (batches : List (List Msg))
        → Holds r
        → Ended over (collect C S over r batches)
    unfolding collect
    collect-Ended over r [] h = h
    collect-Ended over r (batch ∷ batches) h =
        let (next, e, w) = receive_messages-Holds r batch h in
        elim (Bool-cases (over next.state)) [
          | inl met ↦ rw (e, met, collect) (w, met)
          | inr unmet ↦ rw (e, unmet, collect) (collect-Ended over next batches w)
        ]
