-- ===== src/Session/Coordinator/Receive/FirstKept.antt =====
-- The first commitments of a signer are the ones that count.
use mina_multi_sig.Noise.{Snow}
use mina_multi_sig.Noise.Laws.{SnowLaws}
use mina_multi_sig.Cipher.{decrypt}
use mina_multi_sig.Cipher.Valid.{IsValid, decrypt-Returns}
use mina_multi_sig.Cipher.Isolation.{decrypt_sender}
use mina_multi_sig.Base.{
  Attempt-cases, false, ◌∙◌, subst, ◌≡◌, ◌≢◌, refl, sym, ap, true, List, [], ◌∷◌, some, length,
  arith, Outcome, done, fail, panic, Option-cases, Bool-cases, inl, inr, ◌==◌,
}
use mina_multi_sig.Map.{Map, get, insert, contains_key, same_keys}
use mina_multi_sig.Map.Laws.{get-insert}
use mina_multi_sig.Session.Types.{PublicKey, PublicKey-discrete, Msg, Ciphersuite, SessionError}
use mina_multi_sig.Session.Coordinator.{
  CoordinatorSessionState, CommitmentRound, ShareRound, waiting_for_commitments,
  waiting_for_signature_shares, signature_shares_ready, recv, handle_commitments,
  handle_signature_share, store_commitments, store_signature_share,
}
use mina_multi_sig.Session.Coordinator.Receive.{Receiver, settle, receive_message, receive_messages}

module _ (C : Ciphersuite) (S : Snow) where
  open C use {Identifier, SigningCommitments, identifier_discrete}

  -- The state still has the commitments of the identifier, unless it has all shares.
  abbrev pub Keeps :
      Map PublicKey Identifier
      → Identifier
      → List SigningCommitments
      → CoordinatorSessionState C
      → Type 0
  Keeps pubkeys id c (waiting_for_commitments r) =
      (r.pubkeys ≡ pubkeys) × (get identifier_discrete id r.commitments ≡ some c)
  Keeps pubkeys id c (waiting_for_signature_shares r) =
      get identifier_discrete id r.commitments ≡ some c
  Keeps pubkeys id c (signature_shares_ready r) = Unit

  abbrev KeepsAfter :
      Map PublicKey Identifier
      → Identifier
      → List SigningCommitments
      → Outcome SessionError (CoordinatorSessionState C)
      → Type 0
  KeepsAfter pubkeys id c (done st) = Keeps pubkeys id c st
  KeepsAfter pubkeys id c (fail st e) = Keeps pubkeys id c st
  KeepsAfter pubkeys id c panic = ⊥

  store_commitments-Keeps :
      (r : CommitmentRound C) (id other : Identifier) (c d : List SigningCommitments)
      → other ≢ id
      → get identifier_discrete id r.commitments ≡ some c
      → Keeps r.pubkeys id c (store_commitments C r other d)
  unfolding store_commitments
  store_commitments-Keeps r id other c d ne h =
      let stays : get identifier_discrete id (insert identifier_discrete other d r.commitments)
          ≡ some c =
        ground (arith, get-insert identifier_discrete other id d r.commitments) in
      elim (Bool-cases
        (length (insert identifier_discrete other d r.commitments) == r.args.num_signers)) [
          | inl full ↦ rw (full, store_commitments) stays
          | inr more ↦ rw (more, store_commitments) (refl, stays)
        ]

  handle_commitments-KeepsAfter :
      (r : CommitmentRound C) (id : Identifier) (c d : List SigningCommitments) (pk : PublicKey)
      → get PublicKey-discrete pk r.pubkeys ≢ some id
      → get identifier_discrete id r.commitments ≡ some c
      → KeepsAfter r.pubkeys id c (handle_commitments C (waiting_for_commitments r) pk d)
  unfolding handle_commitments
  handle_commitments-KeepsAfter r id c d pk ne h =
      elim (Bool-cases (length d == r.args.num_messages)) [
        | inr wrong ↦ rw (wrong, handle_commitments) (refl, h)
        | inl right ↦ elim (Option-cases (get PublicKey-discrete pk r.pubkeys)) [
          | inl unknown ↦ rw (right, unknown, handle_commitments) (refl, h)
          | inr (other, known) ↦
              rw (right, known, handle_commitments)
                (store_commitments-Keeps r id other c d (λ e. ne (known ∙ ap (λ i. some i) e)) h)
        ]
      ]

  handle_signature_share-KeepsAfter :
      (r : ShareRound C) (pubkeys : Map PublicKey Identifier) (id : Identifier)
      (c : List SigningCommitments) (s : List C.SignatureShare) (pk : PublicKey)
      → get identifier_discrete id r.commitments ≡ some c
      → KeepsAfter pubkeys id c (handle_signature_share C (waiting_for_signature_shares r) pk s)
  unfolding handle_signature_share store_signature_share
  handle_signature_share-KeepsAfter r pubkeys id c s pk h =
      elim (Bool-cases (length s == r.args.num_messages)) [
        | inr wrong ↦ rw (wrong, handle_signature_share) h
        | inl right ↦ elim (Option-cases (get PublicKey-discrete pk r.pubkeys)) [
          | inl unknown ↦ rw (right, unknown, handle_signature_share) h
          | inr (other, known) ↦
              elim (Bool-cases (contains_key identifier_discrete other r.commitments)) [
                | inr invalid ↦ rw (right, known, invalid, handle_signature_share) h
                | inl valid ↦
                    rw (right, known, valid, handle_signature_share)
                      (store_signature_share-Keeps other)
              ]
        ]
      ]
    where
      store_signature_share-Keeps :
          (other : Identifier) → Keeps pubkeys id c (store_signature_share C r other s)
      store_signature_share-Keeps other =
          elim (Bool-cases (
            same_keys identifier_discrete (insert identifier_discrete other s r.signature_shares)
              r.commitments)) [
                | inl full ↦ rw (full, store_signature_share) tt
                | inr more ↦ rw (more, store_signature_share) h
              ]

  recv-KeepsAfter :
      (pubkeys : Map PublicKey Identifier) (id : Identifier) (c : List SigningCommitments)
      (st : CoordinatorSessionState C) (m : Msg)
      → get PublicKey-discrete m.sender pubkeys ≢ some id
      → Keeps pubkeys id c st
      → KeepsAfter pubkeys id c (recv C st m)
  unfolding recv
  recv-KeepsAfter pubkeys id c (signature_shares_ready r) m ne k = tt
  recv-KeepsAfter pubkeys id c (waiting_for_commitments r) m ne k =
      elim (Option-cases (C.read_commitments m.msg)) [
        | inl bad ↦ rw (bad, recv) k
        | inr (d, good) ↦
            rw (good, recv)
              (subst
                (λ p.
                  KeepsAfter p id c (handle_commitments C (waiting_for_commitments r) m.sender d))
                k.0
                (handle_commitments-KeepsAfter r id c d m.sender
                  (λ e. ne (ap (get PublicKey-discrete m.sender) (sym k.0) ∙ e)) k.1))
      ]
  recv-KeepsAfter pubkeys id c (waiting_for_signature_shares r) m ne k =
      elim (Option-cases (C.read_signature_shares m.msg)) [
        | inl bad ↦ rw (bad, recv) k
        | inr (s, good) ↦
            rw (good, recv) (handle_signature_share-KeepsAfter r pubkeys id c s m.sender k)
      ]

  -- The key was heard, and what it sent is kept.
  record Kept (pubkeys : Map PublicKey Identifier) (pk : PublicKey) (id : Identifier)
      (c : List SigningCommitments) (r : Receiver C S) : Type 0 where
    heard : contains_key PublicKey-discrete pk r.seen_senders ≡ true
    sound : IsValid S r.cipher
    keeps : Keeps pubkeys id c r.state

  settle-Kept :
      (pubkeys : Map PublicKey Identifier) (pk sender : PublicKey) (id : Identifier)
      (c : List SigningCommitments) (r : Receiver C S)
      (o : Outcome SessionError (CoordinatorSessionState C))
      → contains_key PublicKey-discrete pk r.seen_senders ≡ true
      → IsValid S r.cipher
      → KeepsAfter pubkeys id c o
      → (t : Receiver C S) × (settle C S r sender o ≡ some t) × Kept pubkeys pk id c t
  unfolding settle
  settle-Kept pubkeys pk sender id c r panic h v k = absurd k
  settle-Kept pubkeys pk sender id c r (fail st e) h v k =
      (record r { state = st }, refl, record { heard = h; sound = v; keeps = k })
  settle-Kept pubkeys pk sender id c r (done st) h v k = (
    record r { seen_senders = insert PublicKey-discrete sender tt r.seen_senders; state = st },
    refl,
    record {
      heard = ground (arith, h, get-insert PublicKey-discrete sender pk tt r.seen_senders);
      sound = v;
      keeps = k;
    },
  )

  module _ (L : SnowLaws S) where
    receive_message-Kept :
        (pubkeys : Map PublicKey Identifier) (pk : PublicKey) (id : Identifier)
        (c : List SigningCommitments) (r : Receiver C S) (m : Msg)
        → ((other : PublicKey) → get PublicKey-discrete other pubkeys ≡ some id → other ≡ pk)
        → Kept pubkeys pk id c r
        → (t : Receiver C S) × (receive_message C S r m ≡ some t) × Kept pubkeys pk id c t
    unfolding receive_message
    receive_message-Kept pubkeys pk id c r m only k =
        let v = decrypt-Returns S L r.cipher m k.sound in
        elim (Bool-cases (contains_key PublicKey-discrete m.sender r.seen_senders)) [
          | inl again ↦ (r, rw (again, receive_message) refl, k)
          | inr first ↦ elim (Attempt-cases (decrypt S r.cipher m).1) [
            | inl broken ↦ absurd (v.result broken)
            | inr (inl (e, shut)) ↦ (
              record r { cipher = (decrypt S r.cipher m).0 },
              rw (first, shut, receive_message) refl,
              record { heard = k.heard; sound = v.valid; keeps = k.keeps },
            )
            | inr (inr (opened, was)) ↦
                let same = decrypt_sender S r.cipher m opened was in
                let (t, e, w) =
                  settle-Kept pubkeys pk m.sender id c
                    (record r { cipher = (decrypt S r.cipher m).0 }) (recv C r.state opened) k.heard
                    v.valid
                    (recv-KeepsAfter pubkeys id c r.state opened
                      (λ has.
                        other_sender m.sender
                          (subst (λ x. get PublicKey-discrete x pubkeys ≡ some id) same has) first)
                      k.keeps) in
                (t, rw (first, was, receive_message) e, w)
          ]
        ]
      where
        other_sender :
            (sender : PublicKey)
            → get PublicKey-discrete sender pubkeys ≡ some id
            → contains_key PublicKey-discrete sender r.seen_senders ≢ false
        other_sender sender has new = ground (arith, only sender has, k.heard, new)

    receive_messages-Kept :
        (pubkeys : Map PublicKey Identifier) (pk : PublicKey) (id : Identifier)
        (c : List SigningCommitments) (r : Receiver C S) (ms : List Msg)
        → ((other : PublicKey) → get PublicKey-discrete other pubkeys ≡ some id → other ≡ pk)
        → Kept pubkeys pk id c r
        → (t : Receiver C S) × (receive_messages C S r ms ≡ some t) × Kept pubkeys pk id c t
    unfolding receive_messages
    receive_messages-Kept pubkeys pk id c r [] only k = (r, refl, k)
    receive_messages-Kept pubkeys pk id c r (m ∷ ms) only k =
        let (next, e, w) = receive_message-Kept pubkeys pk id c r m only k in
        let (t, f, v) = receive_messages-Kept pubkeys pk id c next ms only w in
        (t, rw (e, receive_messages) f, v)

    -- Once the coordinator has heard the only key of an identifier, whatever messages follow, it does
    -- not panic, and the commitments of the identifier stay those it has, until all shares are there.
    pub first_commitments_kept :
        (r : Receiver C S) (round : CommitmentRound C) (pk : PublicKey) (id : Identifier)
        (c : List SigningCommitments) (ms : List Msg)
        → r.state ≡ waiting_for_commitments round
        → ((other : PublicKey) → get PublicKey-discrete other round.pubkeys ≡ some id → other ≡ pk)
        → contains_key PublicKey-discrete pk r.seen_senders ≡ true
        → IsValid S r.cipher
        → get identifier_discrete id round.commitments ≡ some c
        → (t : Receiver C S) × (receive_messages C S r ms ≡ some t)
          × Keeps round.pubkeys id c t.state
    first_commitments_kept r round pk id c ms at_first only heard sound has =
        let (t, e, k) = receive_messages-Kept round.pubkeys pk id c r ms only (record {
          heard = heard;
          sound = sound;
          keeps = subst (Keeps round.pubkeys id c) (sym at_first) (refl, has);
        }) in
        (t, e, k.keeps)
