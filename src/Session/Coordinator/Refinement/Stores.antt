-- ===== src/Session/Coordinator/Refinement/Stores.antt =====
-- What the session of the coordinator stores is a step of its abstract view.
use mina_multi_sig.Session.Coordinator.Refinement.{
  collecting, signing, finished, nothing, update, table, view, Holds, SameSigners, Commits, Signs,
  Unfit, Step, commits, closes, signs, finishes,
}
use mina_multi_sig.Base.{
  Bool, none, List, [], ◌∷◌, done, fail, panic, Outcome, subst, ℕ, ◌≡◌, refl, sym, ap, ◌∙◌, true,
  false, is_some, inl, inr, Bool-cases, length, ◌==◌, arith,
}
use mina_multi_sig.Map.{contains_key, same_keys, Map, get, insert, Distinct, key_set}
use mina_multi_sig.Map.Count.{same_keys-contains, same_keys_of_contains}
use mina_multi_sig.Map.Entries.{contains-key_set}
use mina_multi_sig.Map.Laws.{get-insert, insert-Distinct}
use mina_multi_sig.Session.Types.{PublicKey, Ciphersuite, Msg, SessionError}
use mina_multi_sig.Session.Coordinator.{
  ShareRound, store_signature_share, CoordinatorSessionState, CoordinatorSessionStateArgs,
  waiting_for_commitments, waiting_for_signature_shares, signature_shares_ready, CommitmentRound,
  store_commitments,
}

-- The keys of a map, as a set.
module _ {K V : Type 0} (dec : Discrete K) where
  length-key_set : (m : Map K V) → length (key_set m) ≡ length m
  length-key_set [] = refl
  length-key_set ((k, v) ∷ m) = ground (arith, length-key_set m)

  get-key_set-none : (k : K) (m : Map K V) → get dec k m ≡ none → get dec k (key_set m) ≡ none
  unfolding get
  get-key_set-none k [] h = refl
  get-key_set-none k ((j, v) ∷ m) h = ground (arith, get-key_set-none k m)

  key_set-Distinct : (m : Map K V) → Distinct dec m → Distinct dec (key_set m)
  key_set-Distinct [] d = tt
  key_set-Distinct ((k, v) ∷ m) d = (get-key_set-none k m d.0, key_set-Distinct m d.1)

module _ (C : Ciphersuite) where
  open C use {Identifier, SigningCommitments, SignatureShare, identifier_discrete}

  table-insert :
      {V : Type 0} (id : Identifier) (v : List V) (m : Map Identifier (List V))
      → table C (insert identifier_discrete id v m) ≡ update C id v (table C m)
  table-insert id v m = λ i j. get-insert identifier_discrete id j v m i

  -- The map that an insertion leaves, as a table.
  insert-Holds :
      {V : Type 0} (id : Identifier) (v : List V) (m : Map Identifier (List V)) (n : ℕ)
      → Distinct identifier_discrete m
      → length (insert identifier_discrete id v m) ≡ n
      → Holds C n (update C id v (table C m))
  insert-Holds id v m n d e = record {
    signers = key_set (insert identifier_discrete id v m);
    distinct =
        key_set-Distinct identifier_discrete _ (insert-Distinct identifier_discrete id v m d);
    number = length-key_set identifier_discrete _ ∙ e;
    exactly = λ j.
        contains-key_set identifier_discrete j (insert identifier_discrete id v m)
        ∙ ap (λ t. is_some (t j)) (table-insert id v m);
  }

  module _ (args : CoordinatorSessionStateArgs) (pubkeys : Map PublicKey Identifier) where
    -- The session is the one of these participants, and no signer stands twice in its maps.
    abbrev pub Follows : CoordinatorSessionState C → Type 0
    Follows (waiting_for_commitments r) =
        (r.args ≡ args) × (r.pubkeys ≡ pubkeys) × Distinct identifier_discrete r.commitments
    Follows (waiting_for_signature_shares r) =
        (r.args ≡ args)
        × (r.pubkeys ≡ pubkeys)
        × Distinct identifier_discrete r.commitments
        × Distinct identifier_discrete r.signature_shares
    Follows (signature_shares_ready r) = Unit

    pub record Stepped (m : Msg) (s t : CoordinatorSessionState C) : Type 0 where
      pub step : Step C args pubkeys m (view C s) (view C t)
      pub follows : Follows t

    -- A message that is refused is ignored.
    abbrev pub Settled :
        Msg → CoordinatorSessionState C → Outcome SessionError (CoordinatorSessionState C) → Type 0
    Settled m s (done t) = Stepped m s t
    Settled m s (fail t e) = (t ≡ s) × Unfit C args pubkeys m (view C s)
    Settled m s panic = ⊥

  pub store_commitments-Stepped :
      (r : CommitmentRound C) (m : Msg) (id : Identifier) (c : List SigningCommitments)
      → Distinct identifier_discrete r.commitments
      → Commits C r.args r.pubkeys m id c
      → Stepped r.args r.pubkeys m (waiting_for_commitments r) (store_commitments C r id c)
  unfolding store_commitments get
  store_commitments-Stepped r m id c d sent =
      elim (Bool-cases
        (length (insert identifier_discrete id c r.commitments) == r.args.num_signers)) [
          | inl full ↦
              rw (full, store_commitments)
                (record {
                  step =
                      closes id c (table C r.commitments) sent
                        (insert-Holds id c r.commitments r.args.num_signers d
                          (ground (arith, full)))
                        refl (ap (λ t. signing t (nothing C)) (table-insert id c r.commitments));
                  follows =
                      (refl, refl, insert-Distinct identifier_discrete id c r.commitments d, tt);
                })
          | inr more ↦
              rw (more, store_commitments)
                (record {
                  step =
                      commits id c (length (insert identifier_discrete id c r.commitments))
                        (table C r.commitments) sent (insert-Holds id c r.commitments _ d refl)
                        (λ e. ground (arith, more, e)) refl
                        (ap (λ t. collecting t) (table-insert id c r.commitments));
                  follows = (refl, refl, insert-Distinct identifier_discrete id c r.commitments d);
                })
        ]

  pub store_signature_share-Stepped :
      (r : ShareRound C) (m : Msg) (id : Identifier) (s : List SignatureShare)
      → Distinct identifier_discrete r.commitments
      → Distinct identifier_discrete r.signature_shares
      → Signs C r.args r.pubkeys m id s
      → contains_key identifier_discrete id r.commitments ≡ true
      → Stepped r.args r.pubkeys m (waiting_for_signature_shares r) (store_signature_share C r id s)
  unfolding store_signature_share
  store_signature_share-Stepped r m id s d e sent committed =
      let all_shares = insert identifier_discrete id s r.signature_shares in
      let distinct = insert-Distinct identifier_discrete id s r.signature_shares e in
      elim (Bool-cases (same_keys identifier_discrete all_shares r.commitments)) [
        | inl full ↦
            rw (full, store_signature_share)
              (record {
                step =
                    finishes id s (table C r.commitments) (table C r.signature_shares) sent
                      committed
                      (subst (λ t. SameSigners C t (table C r.commitments))
                        (table-insert id s r.signature_shares)
                        (λ j.
                          same_keys-contains identifier_discrete all_shares r.commitments j full))
                      refl (ap (λ t. finished t) (table-insert id s r.signature_shares));
                follows = tt;
              })
        | inr more ↦
            rw (more, store_signature_share)
              (record {
                step =
                    signs id s (table C r.commitments) (table C r.signature_shares) sent committed
                      (λ same. differ more (
                        same_keys_of_contains identifier_discrete all_shares r.commitments distinct
                          d
                          (subst (λ t. SameSigners C t (table C r.commitments))
                            (sym (table-insert id s r.signature_shares)) same)))
                      refl
                      (ap (λ t. signing (table C r.commitments) t)
                        (table-insert id s r.signature_shares));
                follows = (refl, refl, d, distinct);
              })
      ]
    where
      differ : {b : Bool} → b ≡ false → b ≡ true → ⊥
      differ f t = ground (arith, f, t)
