-- ===== src/Session/Coordinator/Progress.antt =====
-- A session in which every signer answers comes to its end.
use mina_multi_sig.Base.{
  Option-cases, Bool-cases, inl, inr, false, if◌then◌else◌, refl, ℕ, suc, ◌+◌, ◌≡◌, refl, ap, ◌∙◌,
  ◌<◌, true, List, [], ◌∷◌, ◌++◌, Option, none, some, length, if◌then◌else◌, arith, All,
  append_assoc, length-append, done, Bool-cases, inl, inr,
}
use mina_multi_sig.Map.{Map, get, contains_key, keys_within, same_keys, Distinct}
use mina_multi_sig.Map.Laws.{insert_fresh, Distinct-middle, Distinct-front}
use mina_multi_sig.Map.Count.{same_keys-length, same_keys_of_length}
use mina_multi_sig.Session.Types.{PublicKey, PublicKey-discrete, Msg, Ciphersuite}
use mina_multi_sig.Session.Coordinator.{
  CoordinatorSessionState, waiting_for_commitments, waiting_for_signature_shares,
  signature_shares_ready, CommitmentRound, ShareRound, CoordinatorSessionStateArgs, new,
  store_commitments, handle_commitments, store_signature_share, handle_signature_share, recv,
}
use mina_multi_sig.Session.Coordinator.Run.{serve, after}
use mina_multi_sig.Map.Entries.{keys_within_middle}

module _ (C : Ciphersuite) where
  open C use {
    Identifier, SigningCommitments, SignatureShare, identifier_discrete, read_commitments,
    read_signature_shares,
  }

  -- A message with its sender's identifier and what it holds.
  pub record Sent (A : Type 0) : Type 0 where
    pub message : Msg
    pub identifier : Identifier
    pub content : List A

  abbrev pub entries : {A : Type 0} → List (Sent A) → Map Identifier (List A)
  entries [] = []
  entries (s ∷ ss) = (s.identifier, s.content) ∷ entries ss

  abbrev pub messages : {A : Type 0} → List (Sent A) → List Msg
  messages [] = []
  messages (s ∷ ss) = s.message ∷ messages ss

  -- A message of a participant that reads as `content`, one value for each message to sign.
  pub record IsWellFormed {A : Type 0} (read : List ℕ → Option (List A))
      (args : CoordinatorSessionStateArgs) (pubkeys : Map PublicKey Identifier) (s : Sent A)
      : Type 0 where
    pub reads : read s.message.msg ≡ some s.content
    pub counts : length s.content ≡ args.num_messages
    pub registered : get PublicKey-discrete s.message.sender pubkeys ≡ some s.identifier

  length-entries : {A : Type 0} (ss : List (Sent A)) → length (entries ss) ≡ length ss
  length-entries [] = refl
  length-entries (s ∷ ss) = ap suc (length-entries ss)

  length_snoc : {A : Type 0} (m : List A) (a : A) → length (m ++ a ∷ []) ≡ suc (length m)
  length_snoc m a = omega (arith, length-append m (a ∷ []))

  recv_commitments :
      (r : CommitmentRound C) (s : Sent SigningCommitments)
      → IsWellFormed read_commitments r.args r.pubkeys s
      → recv C (waiting_for_commitments r) s.message
        ≡ done (store_commitments C r s.identifier s.content)
  unfolding recv handle_commitments
  recv_commitments r s w =
      rw (w.reads, recv, handle_commitments, w.registered) (ground (arith, w.counts))

  store_last :
      (r : CommitmentRound C) (i : Identifier) (c : List SigningCommitments)
      → get identifier_discrete i r.commitments ≡ none
      → suc (length r.commitments) ≡ r.args.num_signers
      → store_commitments C r i c
        ≡ waiting_for_signature_shares (record {
          args = r.args;
          pubkeys = r.pubkeys;
          commitments = r.commitments ++ (i, c) ∷ [];
          signature_shares = [];
        })
  unfolding store_commitments
  store_last r i c fresh full =
      rw (insert_fresh identifier_discrete i c r.commitments fresh)
        (ground (arith, length_snoc r.commitments (i, c)))

  store_more :
      (r : CommitmentRound C) (i : Identifier) (c : List SigningCommitments)
      → get identifier_discrete i r.commitments ≡ none
      → suc (length r.commitments) < r.args.num_signers
      → store_commitments C r i c
        ≡ waiting_for_commitments (record r { commitments = r.commitments ++ (i, c) ∷ [] })
  unfolding store_commitments
  store_more r i c fresh more =
      rw (insert_fresh identifier_discrete i c r.commitments fresh)
        (ground (arith, length_snoc r.commitments (i, c)))

  serve_commitments :
      (r : CommitmentRound C) (s : Sent SigningCommitments) (ss : List (Sent SigningCommitments))
      → All (IsWellFormed read_commitments r.args r.pubkeys) (s ∷ ss)
      → Distinct identifier_discrete (r.commitments ++ entries (s ∷ ss))
      → length r.commitments + length (s ∷ ss) ≡ r.args.num_signers
      → serve C (waiting_for_commitments r) (messages (s ∷ ss))
        ≡ some (
            waiting_for_signature_shares (record {
              args = r.args;
              pubkeys = r.pubkeys;
              commitments = r.commitments ++ entries (s ∷ ss);
              signature_shares = [];
            }))
  unfolding serve
  serve_commitments r s [] (w, _) d l =
      rw
        (
          recv_commitments r s w,
          serve,
          store_last r s.identifier s.content
              (Distinct-middle identifier_discrete r.commitments [] s.identifier s.content d)
              (omega arith),
        )
        refl
  serve_commitments r s (t ∷ ts) (w, ws) d l =
      let fresh =
        Distinct-middle identifier_discrete r.commitments (entries (t ∷ ts)) s.identifier s.content
          d in
      let assoc = append_assoc r.commitments ((s.identifier, s.content) ∷ []) (entries (t ∷ ts)) in
      rw (recv_commitments r s w, serve, store_more r s.identifier s.content fresh (omega arith))
        (serve_commitments
            (record r { commitments = r.commitments ++ (s.identifier, s.content) ∷ [] }) t ts ws
            (rw assoc d) (omega (arith, length_snoc r.commitments (s.identifier, s.content)))
          ∙ rw assoc)

  short_not_same :
      {V W : Type 0} (n : Map Identifier W) (m : Map Identifier V)
      → Distinct identifier_discrete m
      → Distinct identifier_discrete n
      → length m < length n
      → same_keys identifier_discrete m n ≡ false
  short_not_same n m dm dn l = elim (Bool-cases (same_keys identifier_discrete m n)) [
    | inl same ↦ absurd (omega (arith, same_keys-length identifier_discrete m n dm dn same))
    | inr open' ↦ open'
  ]

  recv_shares :
      (r : ShareRound C) (s : Sent SignatureShare)
      → IsWellFormed read_signature_shares r.args r.pubkeys s
      → contains_key identifier_discrete s.identifier r.commitments ≡ true
      → recv C (waiting_for_signature_shares r) s.message
        ≡ done (store_signature_share C r s.identifier s.content)
  unfolding recv handle_signature_share
  recv_shares r s w inside =
      rw (w.reads, recv, handle_signature_share, w.registered) (ground (arith, w.counts))

  store_share :
      (r : ShareRound C) (i : Identifier) (c : List SignatureShare)
      → get identifier_discrete i r.signature_shares ≡ none
      → store_signature_share C r i c ≡ (
          if same_keys identifier_discrete (r.signature_shares ++ (i, c) ∷ []) r.commitments
          then signature_shares_ready
              (record { args = r.args; signature_shares = r.signature_shares ++ (i, c) ∷ [] })
          else waiting_for_signature_shares
              (record r { signature_shares = r.signature_shares ++ (i, c) ∷ [] }))
  unfolding store_signature_share
  store_share r i c fresh = rw (insert_fresh identifier_discrete i c r.signature_shares fresh)

  serve_shares :
      (r : ShareRound C) (s : Sent SignatureShare) (ss : List (Sent SignatureShare))
      → All (IsWellFormed read_signature_shares r.args r.pubkeys) (s ∷ ss)
      → Distinct identifier_discrete r.commitments
      → Distinct identifier_discrete (r.signature_shares ++ entries (s ∷ ss))
      → keys_within identifier_discrete (r.signature_shares ++ entries (s ∷ ss)) r.commitments
        ≡ true
      → length r.signature_shares + length (s ∷ ss) ≡ length r.commitments
      → serve C (waiting_for_signature_shares r) (messages (s ∷ ss))
        ≡ some (
            signature_shares_ready
              (record { args = r.args; signature_shares = r.signature_shares ++ entries (s ∷ ss) }))
  unfolding serve
  serve_shares r s [] (w, _) dc d k l =
      let fresh =
        Distinct-middle identifier_discrete r.signature_shares [] s.identifier s.content d in
      let full =
        same_keys_of_length identifier_discrete
          (r.signature_shares ++ (s.identifier, s.content) ∷ []) r.commitments d dc k
          (omega (arith, length_snoc r.signature_shares (s.identifier, s.content))) in
      rw
        (
          recv_shares r s w (
              keys_within_middle identifier_discrete r.signature_shares [] r.commitments
                s.identifier s.content k),
          serve,
          store_share r s.identifier s.content fresh,
          full,
        )
        refl
  serve_shares r s (t ∷ ts) (w, ws) dc d k l =
      let fresh =
        Distinct-middle identifier_discrete r.signature_shares (entries (t ∷ ts)) s.identifier
          s.content d in
      let assoc =
        append_assoc r.signature_shares ((s.identifier, s.content) ∷ []) (entries (t ∷ ts)) in
      let d' : Distinct identifier_discrete
          ((r.signature_shares ++ (s.identifier, s.content) ∷ []) ++ entries (t ∷ ts)) =
        rw assoc d in
      let open' =
        short_not_same r.commitments (r.signature_shares ++ (s.identifier, s.content) ∷ [])
          (Distinct-front identifier_discrete _ (entries (t ∷ ts)) d') dc
          (omega (arith, length_snoc r.signature_shares (s.identifier, s.content))) in
      rw
        (
          recv_shares r s w (
              keys_within_middle identifier_discrete r.signature_shares (entries (t ∷ ts))
                r.commitments s.identifier s.content k),
          serve,
          store_share r s.identifier s.content fresh,
          open',
        )
        (serve_shares
            (record r { signature_shares = r.signature_shares ++ (s.identifier, s.content) ∷ [] }) t
            ts ws dc d' (rw assoc k)
            (omega (arith, length_snoc r.signature_shares (s.identifier, s.content)))
          ∙ rw assoc)

  serve-append :
      (st t : CoordinatorSessionState C) (xs ys : List Msg)
      → serve C st xs ≡ some t
      → serve C st (xs ++ ys) ≡ serve C t ys
  unfolding serve
  serve-append st t [] ys h = ground arith
  serve-append st t (x ∷ xs) ys h = elim (Option-cases (after (recv C st x))) [
    | inl bad ↦ absurd (ground arith)
    | inr (n, e) ↦ rw (e, serve) (serve-append n t xs ys (rw (e, serve) at h))
  ]

  -- If each of the signers sends well-formed commitments, and then each of them well-formed
  -- signature shares, in any order within a phase, the session ends with exactly these shares.
  pub serve_complete :
      (args : CoordinatorSessionStateArgs) (pubkeys : Map PublicKey Identifier)
      (c : Sent SigningCommitments) (cs : List (Sent SigningCommitments)) (s : Sent SignatureShare)
      (ss : List (Sent SignatureShare))
      → All (IsWellFormed read_commitments args pubkeys) (c ∷ cs)
      → All (IsWellFormed read_signature_shares args pubkeys) (s ∷ ss)
      → length (c ∷ cs) ≡ args.num_signers
      → length (s ∷ ss) ≡ args.num_signers
      → Distinct identifier_discrete (entries (c ∷ cs))
      → Distinct identifier_discrete (entries (s ∷ ss))
      → keys_within identifier_discrete (entries (s ∷ ss)) (entries (c ∷ cs)) ≡ true
      → serve C
          (new C args.num_messages args.num_signers pubkeys)
          (messages (c ∷ cs) ++ messages (s ∷ ss))
        ≡ some
            (signature_shares_ready (record { args = args; signature_shares = entries (s ∷ ss) }))
  unfolding new
  serve_complete args pubkeys c cs s ss wc ws lc ls dc ds k =
      serve-append _ _ (messages (c ∷ cs)) (messages (s ∷ ss)) (
        serve_commitments (record { args = args; pubkeys = pubkeys; commitments = [] }) c cs wc dc
          (omega arith))
      ∙ serve_shares
          (record {
            args = args;
            pubkeys = pubkeys;
            commitments = entries (c ∷ cs);
            signature_shares = [];
          })
          s ss ws dc ds k (omega (arith, length-entries cs))
