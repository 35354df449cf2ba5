-- ===== src/Session/Coordinator/Comms/Shares.antt =====
-- What the second call of the coordinator gives.
use mina_multi_sig.Base.{
  Attempt-cases, is_some, ℕ, ◌≡◌, refl, sym, subst, ap, ◌∙◌, List, some, true, inl, inr, length,
  arith,
}
use mina_multi_sig.Text.{Bytes}
use mina_multi_sig.Map.{same_keys, get, Map}
use mina_multi_sig.Noise.{Snow}
use mina_multi_sig.Noise.Laws.{SnowLaws}
use mina_multi_sig.Map.Count.{same_keys-contains}
use mina_multi_sig.Session.Dkg.Comms.Returns.{send_all-Returns}
use mina_multi_sig.Session.Types.{PublicKey, Msg, Ciphersuite}
use mina_multi_sig.Session.Coordinator.{
  SharesReady, has_signature_shares, signature_shares, CoordinatorSessionState,
  CoordinatorSessionStateArgs, waiting_for_commitments, waiting_for_signature_shares,
  signature_shares_ready, column,
}
use mina_multi_sig.Session.Coordinator.Invariant.{Rows, SharesReadyInv}
use mina_multi_sig.Session.Coordinator.Getters.{column-some}
use mina_multi_sig.Session.Coordinator.Receive.{Receiver}
use mina_multi_sig.Session.Coordinator.Comms.{
  send_all, to_each, first_shares, send_signing_package_and_get_signature_shares, HttpComms,
  Collected, left, waiting, crashed, following, listening,
}
use mina_multi_sig.Session.Coordinator.Comms.Collect.{Ended, collect-Ended}
use mina_multi_sig.Session.Coordinator.Comms.Phases.{recv-SecondPhase, SecondPhase}
use mina_multi_sig.Session.Coordinator.Comms.Commitments.{
  column-keys, one_column, Ends, args_of, Committed,
}

module _ (C : Ciphersuite) (S : Snow) where
  open C use {Identifier, SigningCommitments, SignatureShare, identifier_discrete}

  -- There is a share of each signer whose commitments were chosen, and of no other.
  pub record Answered (num_signers : ℕ) (chosen : Map Identifier SigningCommitments)
      (shares : Map Identifier SignatureShare) : Type 0 where
    pub complete : length shares ≡ num_signers
    pub same_signers :
        (id : Identifier)
        → is_some (get identifier_discrete id shares) ≡ is_some (get identifier_discrete id chosen)

  first_shares-Answered :
      (num_signers : ℕ) (chosen : Map Identifier SigningCommitments)
      (all_commitments : Map Identifier (List SigningCommitments))
      (pubkeys : Map PublicKey Identifier) (sent : List (PublicKey × Bytes)) (r : Receiver C S)
      (q : SharesReady C)
      → r.state ≡ signature_shares_ready q
      → SharesReadyInv C q
      → q.args ≡ args_of C S num_signers
      → same_keys identifier_discrete q.signature_shares all_commitments ≡ true
      → column all_commitments 0 ≡ some chosen
      → Ends (λ h msgs shares. Answered num_signers chosen shares) (first_shares C S pubkeys sent r)
  unfolding first_shares signature_shares
  first_shares-Answered num_signers chosen all_commitments pubkeys sent r q st v args same taken =
      let one : q.args.num_messages ≡ 1 =
        ap (λ (a : CoordinatorSessionStateArgs). a.num_messages) args in
      let (shares, got, size) =
        column-some identifier_discrete q.signature_shares 0 1
          (subst (λ n. Rows n q.signature_shares) one v.shares_rows) (omega arith) in
      rw
        (
          st,
          one_column q.signature_shares q.args.num_messages shares one got,
          first_shares,
          signature_shares,
        )
        (record {
          complete =
              size
              ∙ v.shares_complete
              ∙ ap (λ (a : CoordinatorSessionStateArgs). a.num_signers) args;
          same_signers = λ id.
              column-keys identifier_discrete q.signature_shares 0 shares id got
              ∙ same_keys-contains identifier_discrete q.signature_shares all_commitments id same
              ∙ sym (column-keys identifier_discrete all_commitments 0 chosen id taken);
        })

  answered_state :
      (num_signers : ℕ) (all_commitments : Map Identifier (List SigningCommitments))
      (st : CoordinatorSessionState C)
      → SecondPhase C (args_of C S num_signers) all_commitments st
      → has_signature_shares C st ≡ true
      → (q : SharesReady C) × (st ≡ signature_shares_ready q)
        × SharesReadyInv C q
        × (q.args ≡ args_of C S num_signers)
        × (same_keys identifier_discrete q.signature_shares all_commitments ≡ true)
  answered_state num_signers all_commitments (waiting_for_commitments r) h met = absurd (cc)
  answered_state num_signers all_commitments (waiting_for_signature_shares r) h met = absurd (cc)
  answered_state num_signers all_commitments (signature_shares_ready r) h met =
      (r, refl, h.0, h.1.0, h.1.1)

  module _ (L : SnowLaws S) where
    following_shares :
        (num_signers : ℕ) (chosen : Map Identifier SigningCommitments)
        (all_commitments : Map Identifier (List SigningCommitments))
        (pubkeys : Map PublicKey Identifier) (sent : List (PublicKey × Bytes)) (w : Collected C S)
        → column all_commitments 0 ≡ some chosen
        → Ended C S
            (SecondPhase C (args_of C S num_signers) all_commitments)
            (has_signature_shares C)
            w
        → Ends
            (λ h msgs shares. Answered num_signers chosen shares)
            (following C S w (first_shares C S pubkeys sent))
    following_shares num_signers chosen all_commitments pubkeys sent (left r) taken e =
        let (q, st, v, args, same) =
          answered_state num_signers all_commitments r.state e.0.state e.1 in
        first_shares-Answered num_signers chosen all_commitments pubkeys sent r q st v args same
          taken
    following_shares num_signers chosen all_commitments pubkeys sent (waiting r) taken e = tt
    following_shares num_signers chosen all_commitments pubkeys sent crashed taken e = absurd e

    -- The second call does not panic after the first, and what it gives are the shares of the
    -- signers whose commitments were chosen.
    pub get_shares-Answered :
        (num_signers : ℕ) (signers : Map PublicKey Identifier) (h : HttpComms C S)
        (chosen : Map Identifier SigningCommitments) (content : Bytes) (batches : List (List Msg))
        → Committed C S num_signers signers h chosen
        → Ends
            (λ t msgs shares. Answered num_signers chosen shares)
            (send_signing_package_and_get_signature_shares C S h content batches)
    unfolding send_signing_package_and_get_signature_shares
    get_shares-Answered num_signers signers h chosen content batches c =
        let sealed = send_all-Returns S L h.cipher (to_each content h.pubkeys) c.cipher in
        elim (Attempt-cases (send_all S h.cipher (to_each content h.pubkeys)).1) [
          | inl bad ↦ absurd (sealed.result bad)
          | inr (inl (x, bad)) ↦ rw (bad, send_signing_package_and_get_signature_shares) tt
          | inr (inr (msgs, good)) ↦
              rw (good, send_signing_package_and_get_signature_shares)
                (following_shares num_signers chosen c.round.commitments h.pubkeys msgs _ c.taken (
                  collect-Ended C S (SecondPhase C (args_of C S num_signers) c.round.commitments) L
                    (recv-SecondPhase C (args_of C S num_signers) c.round.commitments)
                    (has_signature_shares C)
                    (listening C S (send_all S h.cipher (to_each content h.pubkeys)).0 h.state)
                    batches
                    (record {
                      cipher = sealed.valid;
                      state =
                          subst (SecondPhase C (args_of C S num_signers) c.round.commitments)
                            (sym c.state) (c.valid, (c.args, refl));
                    })))
        ]
