-- ===== src/Session/Coordinator/Comms/Commitments.antt =====
-- What the first call of the coordinator gives.
use mina_multi_sig.Base.{
  is_some, none, ℕ, ◌≡◌, ◌<◌, refl, sym, subst, ap, ◌∙◌, List, [], ◌∷◌, some, true, inl, inr,
  Option-cases, Result-cases, length, arith, get_elem?,
}
use mina_multi_sig.Text.{Bytes}
use mina_multi_sig.Map.{get, Distinct, Map, has_value}
use mina_multi_sig.Map.Entries.{Entries}
use mina_multi_sig.Noise.{Snow}
use mina_multi_sig.Noise.Laws.{SnowLaws}
use mina_multi_sig.Cipher
use mina_multi_sig.Cipher.Valid as CipherValid
use mina_multi_sig.Cipher.Valid.{new-IsValid}
use mina_multi_sig.Session.Types.{PublicKey, Msg, Ciphersuite}
use mina_multi_sig.Session.Coordinator.{
  CoordinatorSessionState, CoordinatorSessionStateArgs, ShareRound, waiting_for_commitments,
  waiting_for_signature_shares, signature_shares_ready, has_commitments, column, columns,
  commitments, new,
}
use mina_multi_sig.Session.Coordinator.Invariant.{IsValid, Rows, ShareRoundInv, SharesReadyInv}
use mina_multi_sig.Session.Coordinator.Invariant as Inv
use mina_multi_sig.Session.Coordinator.Getters.{column-some}
use mina_multi_sig.Session.Coordinator.Receive.{Receiver}
use mina_multi_sig.Session.Coordinator.Comms.{
  CoordinatorConfig, HttpComms, Collected, left, waiting, crashed, Call, gives, waits, fails,
  panics, keys, first_commitments, following, listening, get_signing_commitments,
}
use mina_multi_sig.Session.Coordinator.Comms.Collect.{Ended, collect-Ended}
use mina_multi_sig.Session.Coordinator.Comms.Phases.{FirstPhase, recv-FirstPhase}

-- A call does not panic, and what it gives satisfies `P`.
abbrev pub Ends :
    {C : Ciphersuite} {S : Snow} {A : Type 0}
    → (HttpComms C S → List (PublicKey × Bytes) → A → Type 0)
    → Call C S A
    → Type 0
Ends P (gives h sent a) = P h sent a
Ends P (waits r) = Unit
Ends P (fails e) = Unit
Ends P panics = ⊥

-- The column of a map for the only message.
module _ {K V : Type 0} where
  pub one_column :
      (m : Map K (List V)) (n : ℕ) (c : Map K V)
      → n ≡ 1
      → column m 0 ≡ some c
      → columns m 0 n ≡ some (c ∷ [])
  unfolding columns
  one_column m n c e h = subst (λ k. columns m 0 k ≡ some (c ∷ [])) (sym e) (rw (h, columns) refl)

  column-Entries :
      (Q : K → Type 0) (m : Map K (List V)) (i : ℕ) (c : Map K V)
      → column m i ≡ some c
      → Entries (λ k v. Q k) m
      → Entries (λ k v. Q k) c
  unfolding column
  column-Entries Q [] i c h q =
      let same : [] ≡ c = ground (arith, h) in subst (Entries (λ k v. Q k)) same tt
  column-Entries Q ((k, v) ∷ m) i c h q = elim (Option-cases (get_elem? v i)) [
    | inl bad ↦ absurd (ground (arith, bad))
    | inr (a, e) ↦ elim (Option-cases (column m i)) [
      | inl bad ↦ absurd (ground (arith, e, bad))
      | inr (rest, f) ↦
          let same : (k, a) ∷ rest ≡ c = ground (arith, e, f) in
          subst (Entries (λ k v. Q k)) same (q.0, column-Entries Q m i rest f q.1)
    ]
  ]

-- A column has the keys of its map.
module _ {K V : Type 0} (dec : Discrete K) where
  pub column-keys :
      (m : Map K (List V)) (i : ℕ) (c : Map K V) (k : K)
      → column m i ≡ some c
      → is_some (get dec k c) ≡ is_some (get dec k m)
  unfolding column get
  column-keys [] i c k h = ground (arith, h)
  column-keys ((j, v) ∷ m) i c k h = elim (Option-cases (get_elem? v i)) [
    | inl bad ↦ absurd (ground (arith, bad))
    | inr (a, e) ↦ elim (Option-cases (column m i)) [
      | inl bad ↦ absurd (ground (arith, e, bad))
      | inr (rest, f) ↦ ground (arith, e, f, column-keys m i rest k f)
    ]
  ]

  column-Distinct :
      (m : Map K (List V)) (i : ℕ) (c : Map K V)
      → column m i ≡ some c
      → Distinct dec m
      → Distinct dec c
  unfolding column
  column-Distinct [] i c h d = let same : [] ≡ c = ground (arith, h) in subst (Distinct dec) same tt
  column-Distinct ((k, v) ∷ m) i c h d = elim (Option-cases (get_elem? v i)) [
    | inl bad ↦ absurd (ground (arith, bad))
    | inr (a, e) ↦ elim (Option-cases (column m i)) [
      | inl bad ↦ absurd (ground (arith, e, bad))
      | inr (rest, f) ↦
          let same : (k, a) ∷ rest ≡ c = ground (arith, e, f) in
          let absent : get dec k rest ≡ none = ground (arith, column-keys m i rest k f, d.0) in
          subst (Distinct dec) same (absent, column-Distinct m i rest f d.1)
    ]
  ]

module _ (C : Ciphersuite) (S : Snow) where
  open C use {Identifier, SigningCommitments, SignatureShare, identifier_discrete}

  abbrev pub args_of : ℕ → CoordinatorSessionStateArgs
  args_of num_signers = record { num_messages = 1; num_signers = num_signers }

  -- The coordinator has commitments of as many signers as there should be, each of them one of the
  -- session.
  pub record Committed (num_signers : ℕ) (signers : Map PublicKey Identifier) (h : HttpComms C S)
      (chosen : Map Identifier SigningCommitments) : Type 0 where
    pub round : ShareRound C
    pub state : h.state ≡ waiting_for_signature_shares round
    pub valid : ShareRoundInv C round
    pub args : round.args ≡ args_of num_signers
    pub taken : column round.commitments 0 ≡ some chosen
    pub complete : length chosen ≡ num_signers
    pub distinct : Distinct identifier_discrete chosen
    pub known : Entries (λ id c. has_value identifier_discrete id signers ≡ true) chosen
    pub pubkeys : h.pubkeys ≡ signers
    pub cipher : CipherValid.IsValid S h.cipher

  first_commitments-Committed :
      (num_signers : ℕ) (signers : Map PublicKey Identifier) (r : Receiver C S)
      (round : ShareRound C)
      → r.state ≡ waiting_for_signature_shares round
      → CipherValid.IsValid S r.cipher
      → ShareRoundInv C round
      → (round.args ≡ args_of num_signers) × (round.pubkeys ≡ signers)
      → Ends (λ h sent chosen. Committed num_signers signers h chosen) (first_commitments C S r)
  unfolding first_commitments commitments
  first_commitments-Committed num_signers signers r round st c v (args, pubkeys) =
      let one : round.args.num_messages ≡ 1 =
        ap (λ (a : CoordinatorSessionStateArgs). a.num_messages) args in
      let (chosen, taken, size) =
        column-some identifier_discrete round.commitments 0 1
          (subst (λ n. Rows n round.commitments) one v.rows) (omega arith) in
      rw
        (
          st,
          one_column round.commitments round.args.num_messages chosen one taken,
          first_commitments,
          commitments,
        )
        (record {
          round = round;
          state = st;
          valid = v;
          args = args;
          taken = taken;
          complete =
              size ∙ v.complete ∙ ap (λ (a : CoordinatorSessionStateArgs). a.num_signers) args;
          distinct =
              column-Distinct identifier_discrete round.commitments 0 chosen taken v.distinct;
          known =
              subst (λ p. Entries (λ id c. has_value identifier_discrete id p ≡ true) chosen)
                pubkeys
                (column-Entries (λ id. has_value identifier_discrete id round.pubkeys ≡ true)
                  round.commitments 0 chosen taken v.known);
          pubkeys = pubkeys;
          cipher = c;
        })

  -- What a state that meets the test of the first loop is.
  committed_state :
      (num_signers : ℕ) (signers : Map PublicKey Identifier) (st : CoordinatorSessionState C)
      → FirstPhase C (args_of num_signers) signers st
      → has_commitments C st ≡ true
      → (round : ShareRound C) × (st ≡ waiting_for_signature_shares round)
        × ShareRoundInv C round
        × (round.args ≡ args_of num_signers)
        × (round.pubkeys ≡ signers)
  committed_state num_signers signers (waiting_for_commitments r) h met = absurd (cc)
  committed_state num_signers signers (waiting_for_signature_shares r) h met =
      (r, refl, h.0, h.1.0, h.1.1)
  committed_state num_signers signers (signature_shares_ready r) h met = absurd (cc)

  module _ (L : SnowLaws S) where
    following_commitments :
        (num_signers : ℕ) (signers : Map PublicKey Identifier) (w : Collected C S)
        → Ended C S (FirstPhase C (args_of num_signers) signers) (has_commitments C) w
        → Ends
            (λ h sent chosen. Committed num_signers signers h chosen)
            (following C S w (first_commitments C S))
    following_commitments num_signers signers (left r) e =
        let (round, st, v, args, pubkeys) =
          committed_state num_signers signers r.state e.0.state e.1 in
        first_commitments-Committed num_signers signers r round st e.0.cipher v (args, pubkeys)
    following_commitments num_signers signers (waiting r) e = tt
    following_commitments num_signers signers crashed e = absurd e

    -- The first call does not panic, and what it gives are the commitments of as many signers as
    -- there should be.
    pub get_commitments-Committed :
        (config : CoordinatorConfig C) (batches : List (List Msg))
        → 0 < config.num_signers
        → Ends
            (λ h sent chosen. Committed config.num_signers config.signers h chosen)
            (get_signing_commitments C S config batches)
    unfolding get_signing_commitments new
    get_commitments-Committed config batches some_signer = elim (Option-cases config.comm_privkey) [
      | inl e ↦ rw (e, get_signing_commitments) tt
      | inr (sk, e) ↦ elim (Option-cases config.comm_pubkey) [
        | inl f ↦ rw (e, f, get_signing_commitments) tt
        | inr (pk, f) ↦ elim (Result-cases (Cipher.new S sk (keys config.signers))) [
          | inr (x, bad) ↦ rw (e, f, bad, get_signing_commitments) tt
          | inl (c, good) ↦
              rw (e, f, good, get_signing_commitments)
                (following_commitments config.num_signers config.signers _ (
                  collect-Ended C S (FirstPhase C (args_of config.num_signers) config.signers) L
                    (recv-FirstPhase C (args_of config.num_signers) config.signers)
                    (has_commitments C)
                    (listening C S c (new C 1 config.num_signers config.signers)) batches
                    (record {
                      cipher = new-IsValid S L sk (keys config.signers) c good;
                      state = (
                        Inv.new-IsValid C 1 config.num_signers config.signers some_signer,
                        (refl, refl),
                      );
                    })))
        ]
      ]
    ]
