-- ===== src/Session/Coordinator/Comms/Phases.antt =====
-- What stays as it was while the coordinator collects: the arguments and the public keys, and, once
-- all commitments are there, the commitments.
use mina_multi_sig.Base.{
  ◌≡◌, refl, sym, subst, true, Outcome, done, fail, panic, inl, inr, Bool-cases, Option-cases,
  length, ◌==◌, List,
}
use mina_multi_sig.Map.{Map, get, insert, contains_key, same_keys}
use mina_multi_sig.Session.Types.{PublicKey, PublicKey-discrete, Msg, Ciphersuite}
use mina_multi_sig.Session.Coordinator.{
  CoordinatorSessionState, CoordinatorSessionStateArgs, CommitmentRound, ShareRound,
  waiting_for_commitments, waiting_for_signature_shares, signature_shares_ready, store_commitments,
  handle_commitments, store_signature_share, handle_signature_share, recv,
}
use mina_multi_sig.Session.Coordinator.Invariant.{coordinator_recv-Settles, IsValid, Settles}
use mina_multi_sig.Session.Coordinator.Comms.Collect.{Stays}

Stays-both :
    {E A : Type 0} (P Q : A → Type 0) (o : Outcome E A)
    → Stays P o
    → Stays Q o
    → Stays (λ a. P a × Q a) o
Stays-both P Q (done t) p q = (p, q)
Stays-both P Q (fail t e) p q = (p, q)
Stays-both P Q panic p q = p

Settles-Stays :
    {E A : Type 0} (P : A → Type 0) (s : A) (o : Outcome E A) → P s → Settles P s o → Stays P o
Settles-Stays P s (done t) p h = h
Settles-Stays P s (fail t e) p h = subst P (sym h) p
Settles-Stays P s panic p h = h

module _ (C : Ciphersuite) where
  open C use {Identifier, SigningCommitments, SignatureShare, identifier_discrete}

  abbrev pub Fixed :
      CoordinatorSessionStateArgs → Map PublicKey Identifier → CoordinatorSessionState C → Type 0
  Fixed args pubkeys (waiting_for_commitments r) = (r.args ≡ args) × (r.pubkeys ≡ pubkeys)
  Fixed args pubkeys (waiting_for_signature_shares r) = (r.args ≡ args) × (r.pubkeys ≡ pubkeys)
  Fixed args pubkeys (signature_shares_ready r) = r.args ≡ args

  abbrev pub Signing :
      CoordinatorSessionStateArgs
      → Map Identifier (List SigningCommitments)
      → CoordinatorSessionState C
      → Type 0
  Signing args commitments (waiting_for_commitments r) = ⊥
  Signing args commitments (waiting_for_signature_shares r) =
      (r.args ≡ args) × (r.commitments ≡ commitments)
  Signing args commitments (signature_shares_ready r) =
      (r.args ≡ args) × (same_keys identifier_discrete r.signature_shares commitments ≡ true)

  store_commitments-Fixed :
      (r : CommitmentRound C) (i : Identifier) (c : List SigningCommitments)
      → Fixed r.args r.pubkeys (store_commitments C r i c)
  unfolding store_commitments
  store_commitments-Fixed r i c =
      elim (Bool-cases
        (length (insert identifier_discrete i c r.commitments) == r.args.num_signers)) [
          | inl full ↦ rw (full, store_commitments) (refl, refl)
          | inr more ↦ rw (more, store_commitments) (refl, refl)
        ]

  store_signature_share-Fixed :
      (r : ShareRound C) (i : Identifier) (s : List SignatureShare)
      → Fixed r.args r.pubkeys (store_signature_share C r i s)
        × Signing r.args r.commitments (store_signature_share C r i s)
  unfolding store_signature_share
  store_signature_share-Fixed r i s =
      elim (Bool-cases (
        same_keys identifier_discrete (insert identifier_discrete i s r.signature_shares)
          r.commitments)) [
            | inl full ↦ rw (full, store_signature_share) (refl, (refl, full))
            | inr more ↦ rw (more, store_signature_share) ((refl, refl), (refl, refl))
          ]

  handle_commitments-Fixed :
      (r : CommitmentRound C) (pubkey : PublicKey) (c : List SigningCommitments)
      → Stays (Fixed r.args r.pubkeys) (handle_commitments C (waiting_for_commitments r) pubkey c)
  unfolding handle_commitments
  handle_commitments-Fixed r pubkey c = elim (Bool-cases (length c == r.args.num_messages)) [
    | inr bad ↦ rw (bad, handle_commitments) (refl, refl)
    | inl good ↦ elim (Option-cases (get PublicKey-discrete pubkey r.pubkeys)) [
      | inl unknown ↦ rw (good, unknown, handle_commitments) (refl, refl)
      | inr (i, known) ↦ rw (good, known, handle_commitments) (store_commitments-Fixed r i c)
    ]
  ]

  -- In the second phase both hold.
  abbrev Both : ShareRound C → CoordinatorSessionState C → Type 0
  Both r st = Fixed r.args r.pubkeys st × Signing r.args r.commitments st

  handle_signature_share-Both :
      (r : ShareRound C) (pubkey : PublicKey) (s : List SignatureShare)
      → Stays (Both r) (handle_signature_share C (waiting_for_signature_shares r) pubkey s)
  unfolding handle_signature_share
  handle_signature_share-Both r pubkey s = elim (Bool-cases (length s == r.args.num_messages)) [
    | inr bad ↦ rw (bad, handle_signature_share) same
    | inl good ↦ elim (Option-cases (get PublicKey-discrete pubkey r.pubkeys)) [
      | inl unknown ↦ rw (good, unknown, handle_signature_share) same
      | inr (i, known) ↦ elim (Bool-cases (contains_key identifier_discrete i r.commitments)) [
        | inr out ↦ rw (good, known, out, handle_signature_share) same
        | inl inside ↦
            rw (good, known, inside, handle_signature_share) (store_signature_share-Fixed r i s)
      ]
    ]
  ]
    where
      same : Both r (waiting_for_signature_shares r)
      same = ((refl, refl), (refl, refl))

  recv_share-Both :
      (r : ShareRound C) (m : Msg) → Stays (Both r) (recv C (waiting_for_signature_shares r) m)
  unfolding recv
  recv_share-Both r m = elim (Option-cases (C.read_signature_shares m.msg)) [
    | inl bad ↦ rw (bad, recv) ((refl, refl), (refl, refl))
    | inr (s, good) ↦ rw (good, recv) (handle_signature_share-Both r m.sender s)
  ]

  Stays-map :
      {E A : Type 0} (P Q : A → Type 0) (o : Outcome E A)
      → ((a : A) → P a → Q a)
      → Stays P o
      → Stays Q o
  Stays-map P Q (done t) f h = f t h
  Stays-map P Q (fail t e) f h = f t h
  Stays-map P Q panic f h = h

  recv-Fixed :
      (args : CoordinatorSessionStateArgs) (pubkeys : Map PublicKey Identifier)
      (st : CoordinatorSessionState C) (m : Msg)
      → Fixed args pubkeys st
      → Stays (Fixed args pubkeys) (recv C st m)
  unfolding recv
  recv-Fixed args pubkeys (signature_shares_ready r) m h = h
  recv-Fixed args pubkeys (waiting_for_signature_shares r) m (a, p) =
      Stays-map (Both r) (Fixed args pubkeys) (recv C (waiting_for_signature_shares r) m)
        (λ st b. subst (λ x. Fixed x pubkeys st) a (subst (λ x. Fixed r.args x st) p b.0))
        (recv_share-Both r m)
  recv-Fixed args pubkeys (waiting_for_commitments r) m (a, p) =
      elim (Option-cases (C.read_commitments m.msg)) [
        | inl bad ↦ rw (bad, recv) (a, p)
        | inr (c, good) ↦
            rw (good, recv)
              (Stays-map (Fixed r.args r.pubkeys) (Fixed args pubkeys)
                (handle_commitments C (waiting_for_commitments r) m.sender c)
                (λ st b. subst (λ x. Fixed x pubkeys st) a (subst (λ x. Fixed r.args x st) p b))
                (handle_commitments-Fixed r m.sender c))
      ]

  recv-Signing :
      (args : CoordinatorSessionStateArgs) (commitments : Map Identifier (List SigningCommitments))
      (st : CoordinatorSessionState C) (m : Msg)
      → Signing args commitments st
      → Stays (Signing args commitments) (recv C st m)
  unfolding recv
  recv-Signing args commitments (waiting_for_commitments r) m h = absurd h
  recv-Signing args commitments (signature_shares_ready r) m h = h
  recv-Signing args commitments (waiting_for_signature_shares r) m (a, p) =
      Stays-map (Both r) (Signing args commitments) (recv C (waiting_for_signature_shares r) m)
        (λ st b. subst (λ x. Signing x commitments st) a (subst (λ x. Signing r.args x st) p b.1))
        (recv_share-Both r m)

  -- A valid session with its arguments and public keys.
  abbrev pub FirstPhase :
      CoordinatorSessionStateArgs → Map PublicKey Identifier → CoordinatorSessionState C → Type 0
  FirstPhase args pubkeys st = IsValid C st × Fixed args pubkeys st

  -- A valid session with its arguments and commitments.
  abbrev pub SecondPhase :
      CoordinatorSessionStateArgs
      → Map Identifier (List SigningCommitments)
      → CoordinatorSessionState C
      → Type 0
  SecondPhase args commitments st = IsValid C st × Signing args commitments st

  pub recv-FirstPhase :
      (args : CoordinatorSessionStateArgs) (pubkeys : Map PublicKey Identifier)
      (st : CoordinatorSessionState C) (m : Msg)
      → FirstPhase args pubkeys st
      → Stays (FirstPhase args pubkeys) (recv C st m)
  recv-FirstPhase args pubkeys st m (v, h) =
      Stays-both (IsValid C) (Fixed args pubkeys) (recv C st m)
        (Settles-Stays (IsValid C) st (recv C st m) v (coordinator_recv-Settles C st m v))
        (recv-Fixed args pubkeys st m h)

  pub recv-SecondPhase :
      (args : CoordinatorSessionStateArgs) (commitments : Map Identifier (List SigningCommitments))
      (st : CoordinatorSessionState C) (m : Msg)
      → SecondPhase args commitments st
      → Stays (SecondPhase args commitments) (recv C st m)
  recv-SecondPhase args commitments st m (v, h) =
      Stays-both (IsValid C) (Signing args commitments) (recv C st m)
        (Settles-Stays (IsValid C) st (recv C st m) v (coordinator_recv-Settles C st m v))
        (recv-Signing args commitments st m h)
