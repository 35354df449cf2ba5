-- ===== src/Session/Coordinator/Signing/Outcome.antt =====
-- How `coordinate_signing` ends.
use mina_multi_sig.Base.{
  ◌≡◌, ◌<◌, List, ◌++◌, some, true, returned, panicked, inl, inr, Option-cases, Attempt-cases,
  length,
}
use mina_multi_sig.Text.{Bytes}
use mina_multi_sig.Map.{Distinct, Map, has_value}
use mina_multi_sig.Map.Entries.{Entries}
use mina_multi_sig.Noise.{Snow}
use mina_multi_sig.Noise.Laws.{SnowLaws}
use mina_multi_sig.ZkApp.Types.{Mina}
use mina_multi_sig.Session.Types.{PublicKey, Msg, Ciphersuite}
use mina_multi_sig.Session.Payload.{PayloadCrates, signing_bytes}
use mina_multi_sig.Session.Coordinator.Comms.{
  CoordinatorConfig, HttpComms, Call, gives, waits, fails, panics, get_signing_commitments,
  send_signing_package_and_get_signature_shares,
}
use mina_multi_sig.Session.Coordinator.Comms.Commitments.{
  Ends, Committed, get_commitments-Committed,
}
use mina_multi_sig.Session.Coordinator.Comms.Shares.{Answered, get_shares-Answered}
use mina_multi_sig.Session.Coordinator.Signing.{
  Aggregation, and_call, aggregate_signature, coordinate_signing,
}

module _ (C : Ciphersuite) (S : Snow) (M : Mina) (R : PayloadCrates M) (F : Aggregation C) where
  open C use {Identifier, SigningCommitments, SignatureShare, identifier_discrete}

  -- What the bytes of the signature were made of.
  pub record Signed (config : CoordinatorConfig C) (bytes : Bytes) : Type 0 where
    pub commitments : Map Identifier SigningCommitments
    pub complete : length commitments ≡ config.num_signers
    pub distinct : Distinct identifier_discrete commitments
    pub known : Entries (λ id c. has_value identifier_discrete id config.signers ≡ true) commitments
    pub signatures : Map Identifier SignatureShare
    pub answered : Answered C S config.num_signers commitments signatures
    pub message : Bytes
    pub prepared : signing_bytes M R config.message ≡ returned message
    pub signature : F.Signature
    pub aggregated : F.aggregate commitments message signatures ≡ some signature
    pub written : F.serialize signature ≡ some bytes

  -- A panic comes of the message only.
  abbrev pub Reported : CoordinatorConfig C → Call C S Bytes → Type 0
  Reported config (gives h sent bytes) = Signed config bytes
  Reported config (waits r) = Unit
  Reported config (fails e) = Unit
  Reported config panics = signing_bytes M R config.message ≡ panicked

  and_call-Reported :
      {A : Type 0} (P : HttpComms C S → List (PublicKey × Bytes) → A → Type 0)
      (config : CoordinatorConfig C) (c : Call C S A)
      (next : HttpComms C S → List (PublicKey × Bytes) → A → Call C S Bytes)
      → Ends P c
      → ((h : HttpComms C S) (sent : List (PublicKey × Bytes)) (a : A)
          → P h sent a
          → Reported config (next h sent a))
      → Reported config (and_call c next)
  and_call-Reported P config (gives h sent a) next e f = f h sent a e
  and_call-Reported P config (waits r) next e f = tt
  and_call-Reported P config (fails x) next e f = tt
  and_call-Reported P config panics next e f = absurd e

  aggregate_signature-Reported :
      (config : CoordinatorConfig C) (h t : HttpComms C S) (sent : List (PublicKey × Bytes))
      (commitments : Map Identifier SigningCommitments) (signatures : Map Identifier SignatureShare)
      → Committed C S config.num_signers config.signers t commitments
      → Answered C S config.num_signers commitments signatures
      → Reported config (aggregate_signature C S M R F config.message h commitments sent signatures)
  unfolding aggregate_signature
  aggregate_signature-Reported config h t sent commitments signatures c a =
      elim (Attempt-cases (signing_bytes M R config.message)) [
        | inl bad ↦ rw (bad, aggregate_signature) bad
        | inr (inl (x, refusal)) ↦ rw (refusal, aggregate_signature) tt
        | inr (inr (message, prepared)) ↦
            elim (Option-cases (F.aggregate commitments message signatures)) [
              | inl e ↦ rw (prepared, e, aggregate_signature) tt
              | inr (signature, aggregated) ↦ elim (Option-cases (F.serialize signature)) [
                | inl e ↦ rw (prepared, aggregated, e, aggregate_signature) tt
                | inr (bytes, written) ↦
                    rw (prepared, aggregated, written, aggregate_signature)
                      (record {
                        commitments = commitments;
                        complete = c.complete;
                        distinct = c.distinct;
                        known = c.known;
                        signatures = signatures;
                        answered = a;
                        message = message;
                        prepared = prepared;
                        signature = signature;
                        aggregated = aggregated;
                        written = written;
                      })
              ]
            ]
      ]

  module _ (L : SnowLaws S) where
    -- If a signing session of at least one signer gives a signature, it was aggregated of the
    -- commitments of as many different signers of the session as there should be, of a share of each
    -- of these and of nobody else, and of the bytes of the transaction that was to be signed; and the
    -- coordinator panics only if that transaction makes `to_pallas_message` panic, whatever the
    -- server hands out.
    pub coordinate_signing-Reported :
        (config : CoordinatorConfig C) (batches share_batches : List (List Msg))
        → 0 < config.num_signers
        → Reported config (coordinate_signing C S M R F config batches share_batches)
    unfolding coordinate_signing
    coordinate_signing-Reported config batches share_batches some_signer =
        and_call-Reported
          (λ h sent chosen. Committed C S config.num_signers config.signers h chosen) config
          (get_signing_commitments C S config batches) _
          (get_commitments-Committed C S L config batches some_signer)
          λ h sent commitments c.
            and_call-Reported (λ t more shares. Answered C S config.num_signers commitments shares)
              config
              (send_signing_package_and_get_signature_shares C S h
                (F.write_package commitments config.message) share_batches)
              _
              (get_shares-Answered C S L config.num_signers config.signers h commitments
                (F.write_package commitments config.message) share_batches c)
              λ next more signatures a.
                aggregate_signature-Reported config next h (sent ++ more) commitments signatures c a
