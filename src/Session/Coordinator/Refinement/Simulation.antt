-- ===== src/Session/Coordinator/Refinement/Simulation.antt =====
-- Each message that the coordinator's session gets is a step of its abstract view.
use mina_multi_sig.Session.Coordinator.Refinement.Stores.{
  Follows, Settled, store_commitments-Stepped, store_signature_share-Stepped,
}
use mina_multi_sig.Session.Coordinator.Run.{serve}
use mina_multi_sig.Session.Coordinator.Refinement.{Steps, ignores, collecting, nothing, view}
use mina_multi_sig.Base.{
  some, Option-cases, List, [], ◌∷◌, done, fail, panic, Outcome, subst, ℕ, ◌≡◌, refl, inl, inr,
  Bool-cases, length, ◌==◌, arith,
}
use mina_multi_sig.Map.{contains_key, Map, get, Distinct}
use mina_multi_sig.Session.Types.{PublicKey, Ciphersuite, Msg, SessionError}
use mina_multi_sig.Session.Coordinator.{
  PublicKey-discrete, handle_signature_share, recv, handle_commitments, new, ShareRound,
  CoordinatorSessionState, CoordinatorSessionStateArgs, waiting_for_commitments,
  waiting_for_signature_shares, signature_shares_ready, CommitmentRound,
}

module _ (C : Ciphersuite) where
  open C use {Identifier, SigningCommitments, SignatureShare, identifier_discrete}

  handle_commitments-Settled :
      (r : CommitmentRound C) (m : Msg) (c : List SigningCommitments)
      → Distinct identifier_discrete r.commitments
      → C.read_commitments m.msg ≡ some c
      → Settled C r.args r.pubkeys m
          (waiting_for_commitments r)
          (handle_commitments C (waiting_for_commitments r) m.sender c)
  unfolding handle_commitments
  handle_commitments-Settled r m c d good = elim (Bool-cases (length c == r.args.num_messages)) [
    | inr wrong ↦
        rw (wrong, handle_commitments)
          (refl, λ id c' sent. ground (arith, wrong, good, sent.content, sent.number))
    | inl right ↦ elim (Option-cases (get PublicKey-discrete m.sender r.pubkeys)) [
      | inl unknown ↦
          rw (right, unknown, handle_commitments)
            (refl, λ id c' sent. ground (arith, unknown, sent.sender))
      | inr (id, known) ↦
          rw (right, known, handle_commitments)
            (store_commitments-Stepped C r m id c d
              (record { sender = known; content = good; number = ground (arith, right) }))
    ]
  ]

  handle_signature_share-Settled :
      (r : ShareRound C) (m : Msg) (s : List SignatureShare)
      → Distinct identifier_discrete r.commitments
      → Distinct identifier_discrete r.signature_shares
      → C.read_signature_shares m.msg ≡ some s
      → Settled C r.args r.pubkeys m
          (waiting_for_signature_shares r)
          (handle_signature_share C (waiting_for_signature_shares r) m.sender s)
  unfolding handle_signature_share
  handle_signature_share-Settled r m s d e good =
      elim (Bool-cases (length s == r.args.num_messages)) [
        | inr wrong ↦
            rw (wrong, handle_signature_share)
              (refl, λ id s' sent. absurd (ground (arith, wrong, good, sent.content, sent.number)))
        | inl right ↦ elim (Option-cases (get PublicKey-discrete m.sender r.pubkeys)) [
          | inl unknown ↦
              rw (right, unknown, handle_signature_share)
                (refl, λ id s' sent. absurd (ground (arith, unknown, sent.sender)))
          | inr (id, known) ↦
              elim (Bool-cases (contains_key identifier_discrete id r.commitments)) [
                | inr invalid ↦
                    rw (right, known, invalid, handle_signature_share)
                      (refl, λ id' s' sent. ground (arith, invalid, known, sent.sender))
                | inl valid ↦
                    rw (right, known, valid, handle_signature_share)
                      (store_signature_share-Stepped C r m id s d e
                        (record { sender = known; content = good; number = ground (arith, right) })
                        valid)
              ]
        ]
      ]

  -- Both parameters of `Settled` are those of the session.
  Settled-as :
      (args args' : CoordinatorSessionStateArgs) (pubkeys pubkeys' : Map PublicKey Identifier)
      (m : Msg) (s : CoordinatorSessionState C)
      (o : Outcome SessionError (CoordinatorSessionState C))
      → args ≡ args'
      → pubkeys ≡ pubkeys'
      → Settled C args pubkeys m s o
      → Settled C args' pubkeys' m s o
  Settled-as args args' pubkeys pubkeys' m s o e f h =
      subst (λ a. Settled C a pubkeys' m s o) e (subst (λ p. Settled C args p m s o) f h)

  recv-Settled :
      (args : CoordinatorSessionStateArgs) (pubkeys : Map PublicKey Identifier)
      (st : CoordinatorSessionState C) (m : Msg)
      → Follows C args pubkeys st
      → Settled C args pubkeys m st (recv C st m)
  unfolding recv
  recv-Settled args pubkeys (signature_shares_ready r) m h = (refl, tt)
  recv-Settled args pubkeys (waiting_for_commitments r) m h =
      Settled-as r.args args r.pubkeys pubkeys m (waiting_for_commitments r)
        (recv C (waiting_for_commitments r) m) h.0 h.1
        (elim (Option-cases (C.read_commitments m.msg)) [
          | inl bad ↦ rw (bad, recv) (refl, λ id c sent. ground (arith, bad, sent.content))
          | inr (c, good) ↦ rw (good, recv) (handle_commitments-Settled r m c h.2 good)
        ])
  recv-Settled args pubkeys (waiting_for_signature_shares r) m h =
      Settled-as r.args args r.pubkeys pubkeys m (waiting_for_signature_shares r)
        (recv C (waiting_for_signature_shares r) m) h.0 h.1
        (elim (Option-cases (C.read_signature_shares m.msg)) [
          | inl bad ↦ rw (bad, recv) (refl, λ id s sent. absurd (ground (arith, bad, sent.content)))
          | inr (s, good) ↦ rw (good, recv) (handle_signature_share-Settled r m s h.2 h.3 good)
        ])

  -- The messages lead to a state by their steps.
  abbrev Leads :
      CoordinatorSessionStateArgs
      → Map PublicKey Identifier
      → CoordinatorSessionState C
      → List Msg
      → Type 0
  Leads args pubkeys st ms =
      (t : CoordinatorSessionState C) × (serve C st ms ≡ some t)
      × Steps C args pubkeys (view C st) ms (view C t)

  serve-cons :
      (args : CoordinatorSessionStateArgs) (pubkeys : Map PublicKey Identifier)
      (st : CoordinatorSessionState C) (m : Msg) (ms : List Msg)
      (o : Outcome SessionError (CoordinatorSessionState C))
      → recv C st m ≡ o
      → Follows C args pubkeys st
      → Settled C args pubkeys m st o
      → ((next : CoordinatorSessionState C)
          → Follows C args pubkeys next
          → Leads args pubkeys next ms)
      → Leads args pubkeys st (m ∷ ms)
  unfolding serve
  serve-cons args pubkeys st m ms panic e h s rest = absurd s
  serve-cons args pubkeys st m ms (fail next x) e h s rest =
      let (t, f, w) = rest st h in (t, rw (e, s.0, serve) f, (view C st, ignores s.1 refl, w))
  serve-cons args pubkeys st m ms (done next) e h s rest =
      let (t, f, w) = rest next s.follows in (t, rw (e, serve) f, (view C next, s.step, w))

  serve-Leads :
      (args : CoordinatorSessionStateArgs) (pubkeys : Map PublicKey Identifier)
      (st : CoordinatorSessionState C) (ms : List Msg)
      → Follows C args pubkeys st
      → Leads args pubkeys st ms
  unfolding serve
  serve-Leads args pubkeys st [] h = (st, refl, refl)
  serve-Leads args pubkeys st (m ∷ ms) h =
      serve-cons args pubkeys st m ms (recv C st m) refl h (recv-Settled args pubkeys st m h)
        λ next. serve-Leads args pubkeys next ms

  -- Whatever messages arrive, the session does not panic, and message by message it makes the step
  -- of its abstract view. In the first phase the commitments that a participant sends are kept under
  -- its identifier, and the phase closes when exactly as many as there should be have sent some. In
  -- the second the shares of a participant that has sent commitments are kept, and the session is
  -- finished when exactly these have sent shares. Any other message changes nothing.
  pub serve-new_refines :
      (num_messages num_signers : ℕ) (pubkeys : Map PublicKey Identifier) (ms : List Msg)
      → (t : CoordinatorSessionState C) × (serve C (new C num_messages num_signers pubkeys) ms
          ≡ some t)
        × Steps C
            (record { num_messages = num_messages; num_signers = num_signers })
            pubkeys
            (collecting (nothing C))
            ms
            (view C t)
  unfolding new get
  serve-new_refines num_messages num_signers pubkeys ms =
      serve-Leads _ pubkeys (new C num_messages num_signers pubkeys) ms (refl, refl, tt)
