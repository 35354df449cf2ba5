-- ===== src/Session/Coordinator/Invariant.antt =====
-- What every state of the coordinator satisfies, and that `recv` keeps it.
use mina_multi_sig.Base.{
  ℕ, suc, ◌≤◌, ◌<◌, ◌≡◌, refl, true, List, some, length, ◌==◌, Outcome, done, fail, panic, inl, inr,
  arith, Option-cases, Bool-cases, ◌∙◌,
}
use mina_multi_sig.Map.{Map, get, insert, contains_key, keys_within, same_keys, Distinct, has_value}
use mina_multi_sig.Map.Laws.{insert-Distinct}
use mina_multi_sig.Map.Count.{length-insert-le, same_keys-length}
use mina_multi_sig.Map.Entries.{Entries, Entries-insert, keys_within-insert, has_value-get}
use mina_multi_sig.Session.Types.{PublicKey, PublicKey-discrete, Msg, Ciphersuite}
use mina_multi_sig.Session.Coordinator.{
  CoordinatorSessionState, waiting_for_commitments, waiting_for_signature_shares,
  signature_shares_ready, CommitmentRound, ShareRound, SharesReady, new, store_commitments,
  handle_commitments, store_signature_share, handle_signature_share, recv,
}

-- A call that succeeds leaves a state with `P`, one that fails leaves the state as it was, and
-- none panics.
abbrev pub Settles : {E S : Type 0} → (S → Type 0) → S → Outcome E S → Type 0
Settles P s (done t) = P t
Settles P s (fail t e) = t ≡ s
Settles P s panic = ⊥

-- Each entry holds a value for each message.
abbrev pub Rows : {K V : Type 0} → ℕ → Map K (List V) → Type 0
Rows n = Entries (λ _ v. length v ≡ n)

module _ (C : Ciphersuite) where
  open C use {Identifier, SigningCommitments, SignatureShare, identifier_discrete}

  -- Each key is the identifier of a participant.
  abbrev pub Known : {V : Type 0} → Map PublicKey Identifier → Map Identifier V → Type 0
  Known pubkeys = Entries (λ k _. has_value identifier_discrete k pubkeys ≡ true)

  pub record CommitmentRoundInv (r : CommitmentRound C) : Type 0 where
    pub distinct : Distinct identifier_discrete r.commitments
    pub rows : Rows r.args.num_messages r.commitments
    pub known : Known r.pubkeys r.commitments
    pub open_places : length r.commitments < r.args.num_signers

  pub record ShareRoundInv (r : ShareRound C) : Type 0 where
    pub distinct : Distinct identifier_discrete r.commitments
    pub rows : Rows r.args.num_messages r.commitments
    pub known : Known r.pubkeys r.commitments
    pub complete : length r.commitments ≡ r.args.num_signers
    pub shares_distinct : Distinct identifier_discrete r.signature_shares
    pub shares_rows : Rows r.args.num_messages r.signature_shares
    pub shares_within : keys_within identifier_discrete r.signature_shares r.commitments ≡ true

  pub record SharesReadyInv (r : SharesReady C) : Type 0 where
    pub shares_distinct : Distinct identifier_discrete r.signature_shares
    pub shares_rows : Rows r.args.num_messages r.signature_shares
    pub shares_complete : length r.signature_shares ≡ r.args.num_signers

  abbrev pub IsValid : CoordinatorSessionState C → Type 0
  IsValid (waiting_for_commitments r) = CommitmentRoundInv r
  IsValid (waiting_for_signature_shares r) = ShareRoundInv r
  IsValid (signature_shares_ready r) = SharesReadyInv r

  pub new-IsValid :
      (num_messages num_signers : ℕ) (pubkeys : Map PublicKey Identifier)
      → 0 < num_signers
      → IsValid (new C num_messages num_signers pubkeys)
  unfolding new
  new-IsValid num_messages num_signers pubkeys h = record {
    distinct = tt;
    rows = tt;
    known = tt;
    open_places = h;
  }

  store_commitments-IsValid :
      (r : CommitmentRound C) (pubkey : PublicKey) (i : Identifier) (c : List SigningCommitments)
      → CommitmentRoundInv r
      → length c ≡ r.args.num_messages
      → get PublicKey-discrete pubkey r.pubkeys ≡ some i
      → IsValid (store_commitments C r i c)
  unfolding store_commitments
  store_commitments-IsValid r pubkey i c v e known =
      elim (Bool-cases
        (length (insert identifier_discrete i c r.commitments) == r.args.num_signers)) [
          | inl full ↦ rw full (record {
            distinct = distinct;
            rows = rows;
            known = knowns;
            complete = ground arith;
            shares_distinct = tt;
            shares_rows = tt;
            shares_within = unfold keys_within in refl;
          })
          | inr more ↦ rw more (record {
            distinct = distinct;
            rows = rows;
            known = knowns;
            open_places = ground (arith, bound);
          })
        ]
    where
      distinct : Distinct identifier_discrete (insert identifier_discrete i c r.commitments)
      distinct = insert-Distinct identifier_discrete i c r.commitments v.distinct

      rows : Rows r.args.num_messages (insert identifier_discrete i c r.commitments)
      rows = Entries-insert identifier_discrete _ i c r.commitments e v.rows

      knowns : Known r.pubkeys (insert identifier_discrete i c r.commitments)
      knowns =
          Entries-insert identifier_discrete _ i c r.commitments
            (has_value-get PublicKey-discrete identifier_discrete pubkey i r.pubkeys known) v.known

      bound : length (insert identifier_discrete i c r.commitments) ≤ suc (length r.commitments)
      bound = length-insert-le identifier_discrete i c r.commitments

  store_signature_share-IsValid :
      (r : ShareRound C) (i : Identifier) (s : List SignatureShare)
      → ShareRoundInv r
      → length s ≡ r.args.num_messages
      → contains_key identifier_discrete i r.commitments ≡ true
      → IsValid (store_signature_share C r i s)
  unfolding store_signature_share
  store_signature_share-IsValid r i s v e known =
      elim (Bool-cases (
        same_keys identifier_discrete (insert identifier_discrete i s r.signature_shares)
          r.commitments)) [
            | inl full ↦ rw full (record {
              shares_distinct = distinct;
              shares_rows = rows;
              shares_complete =
                  same_keys-length identifier_discrete _ r.commitments distinct v.distinct full
                  ∙ v.complete;
            })
            | inr more ↦ rw more (record {
              distinct = v.distinct;
              rows = v.rows;
              known = v.known;
              complete = v.complete;
              shares_distinct = distinct;
              shares_rows = rows;
              shares_within =
                  keys_within-insert identifier_discrete i s r.signature_shares r.commitments known
                    v.shares_within;
            })
          ]
    where
      distinct : Distinct identifier_discrete (insert identifier_discrete i s r.signature_shares)
      distinct = insert-Distinct identifier_discrete i s r.signature_shares v.shares_distinct

      rows : Rows r.args.num_messages (insert identifier_discrete i s r.signature_shares)
      rows = Entries-insert identifier_discrete _ i s r.signature_shares e v.shares_rows

  handle_commitments-Settles :
      (r : CommitmentRound C) (pubkey : PublicKey) (c : List SigningCommitments)
      → CommitmentRoundInv r
      → Settles IsValid
          (waiting_for_commitments r)
          (handle_commitments C (waiting_for_commitments r) pubkey c)
  unfolding handle_commitments
  handle_commitments-Settles r pubkey c v = elim (Bool-cases (length c == r.args.num_messages)) [
    | inr bad ↦ rw bad refl
    | inl good ↦ elim (Option-cases (get PublicKey-discrete pubkey r.pubkeys)) [
      | inl none' ↦ rw (good, none', handle_commitments) refl
      | inr (i, some') ↦
          rw (good, some', handle_commitments)
            (store_commitments-IsValid r pubkey i c v (ground arith) some')
    ]
  ]

  handle_signature_share-Settles :
      (r : ShareRound C) (pubkey : PublicKey) (s : List SignatureShare)
      → ShareRoundInv r
      → Settles IsValid
          (waiting_for_signature_shares r)
          (handle_signature_share C (waiting_for_signature_shares r) pubkey s)
  unfolding handle_signature_share
  handle_signature_share-Settles r pubkey s v =
      elim (Bool-cases (length s == r.args.num_messages)) [
        | inr bad ↦ rw bad refl
        | inl good ↦ elim (Option-cases (get PublicKey-discrete pubkey r.pubkeys)) [
          | inl none' ↦ rw (good, none', handle_signature_share) refl
          | inr (i, some') ↦ elim (Bool-cases (contains_key identifier_discrete i r.commitments)) [
            | inr out ↦ rw (good, some', handle_signature_share, out) refl
            | inl inside ↦
                rw (good, some', handle_signature_share, inside)
                  (store_signature_share-IsValid r i s v (ground arith) inside)
          ]
        ]
      ]

  -- `recv` of the coordinator never panics from a valid state: a message that is refused leaves
  -- the state as it was, and one that is accepted leaves a valid state.
  pub coordinator_recv-Settles :
      (st : CoordinatorSessionState C) (m : Msg) → IsValid st → Settles IsValid st (recv C st m)
  unfolding recv
  coordinator_recv-Settles (waiting_for_commitments r) m v =
      elim (Option-cases (C.read_commitments m.msg)) [
        | inl bad ↦ rw (bad, recv) refl
        | inr (c, good) ↦ rw (good, recv) (handle_commitments-Settles r m.sender c v)
      ]
  coordinator_recv-Settles (waiting_for_signature_shares r) m v =
      elim (Option-cases (C.read_signature_shares m.msg)) [
        | inl bad ↦ rw (bad, recv) refl
        | inr (s, good) ↦ rw (good, recv) (handle_signature_share-Settles r m.sender s v)
      ]
  coordinator_recv-Settles (signature_shares_ready r) m v = refl
