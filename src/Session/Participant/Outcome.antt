-- ===== src/Session/Participant/Outcome.antt =====
-- How `sign` of a participant ends.
use mina_multi_sig.Base.{
  false, Attempt-cases, ◌⊎◌, err-ne-ok, ok, true, Bool, ◌≡◌, refl, List, [], ◌∷◌, none, some,
  returned, panicked, inl, inr, Option-cases, Result-cases,
}
use mina_multi_sig.Text.{Bytes}
use mina_multi_sig.Noise.{Snow}
use mina_multi_sig.Noise.Laws.{SnowLaws}
use mina_multi_sig.Cipher.{Cipher, encrypt}
use mina_multi_sig.Cipher.Single.{OnlyPeer, encrypt-OnlyPeer}
use mina_multi_sig.Session.Types.{PublicKey, Msg, Ciphersuite}
use mina_multi_sig.Session.Participant.{
  sign_confirmed, signing_bytes, send_signature_share, and_step, sign_first, confirm_message, sign,
  PayloadCrates, Mina, ParticipantConfig, SigningPackage, Signer, Step, gives, waits, fails, panics,
  and_cipher, first_message, receive_package, exchange_with, get_signing_package,
}
use mina_multi_sig.Session.Participant.Asked.{Ends, Asked, get_signing_package-Ends}

module _ (C : Ciphersuite) (S : Snow) (F : Signer C) (M : Mina) (R : PayloadCrates M) where
  -- What a share was made of: the user agreed to the packages, and the first of them was signed.
  pub record Signed (config : ParticipantConfig) (coordinator_pubkey : PublicKey)
      (batches : List (List Msg)) (confirmed : Bool) (line : Bytes) (share : C.SignatureShare)
      : Type 0 where
    pub signing_package : SigningPackage C
    pub others : List (SigningPackage C)
    pub asked :
        Asked C S F config.comm_coordinator_pubkey_getter coordinator_pubkey batches
          (signing_package ∷ others)
    pub agreed : confirm_message C S F M R (signing_package ∷ others) confirmed line ≡ ok tt
    pub message : Bytes
    pub prepared : signing_bytes M R signing_package.message ≡ returned message
    pub made : F.sign signing_package.signing_commitments message ≡ some share

  -- The panics: no package and no question, or a transaction without a message.
  pub record Crashed (config : ParticipantConfig) (coordinator_pubkey : PublicKey)
      (batches : List (List Msg)) (confirmed : Bool) : Type 0 where
    pub packages : List (SigningPackage C)
    pub asked :
        Asked C S F config.comm_coordinator_pubkey_getter coordinator_pubkey batches packages
    pub reason :
        ((packages ≡ []) × (confirmed ≡ true))
        ⊎ ((p : SigningPackage C) × (others : List (SigningPackage C)) × (packages ≡ p ∷ others)
            × (signing_bytes M R p.message ≡ panicked))

  abbrev pub Reported :
      ParticipantConfig
      → PublicKey
      → List (List Msg)
      → Bool
      → Bytes
      → Step S C.SignatureShare
      → Type 0
  Reported config coordinator_pubkey batches confirmed line (gives c sent share) =
      Signed config coordinator_pubkey batches confirmed line share
  Reported config coordinator_pubkey batches confirmed line waits = first_message batches ≡ none
  Reported config coordinator_pubkey batches confirmed line (fails e) = Unit
  Reported config coordinator_pubkey batches confirmed line panics =
      Crashed config coordinator_pubkey batches confirmed

  confirmed_empty :
      (confirmed : Bool) (line : Bytes)
      → confirm_message C S F M R [] confirmed line ≡ ok tt
      → confirmed ≡ true
  unfolding confirm_message
  confirmed_empty true line h = refl
  confirmed_empty false line h = absurd (err-ne-ok h)

  module _ (L : SnowLaws S) (config : ParticipantConfig) (coordinator_pubkey : PublicKey)
      (batches : List (List Msg)) (confirmed : Bool) (line : Bytes) where
    -- The share is sent to the coordinator.
    send-Reported :
        (k : PublicKey) (c : Cipher S) (sent : List Bytes) (share : C.SignatureShare)
        → OnlyPeer S k c
        → Signed config coordinator_pubkey batches confirmed line share
        → Reported config coordinator_pubkey batches confirmed line
            (send_signature_share C S F c sent share)
    unfolding send_signature_share
    send-Reported k c sent share o s =
        let sends = encrypt-OnlyPeer S L k c (F.write_shares (share ∷ [])) o in
        elim (Attempt-cases (encrypt S c none (F.write_shares (share ∷ []))).1) [
          | inl bad ↦ absurd (sends.1 bad)
          | inr (inl (x, bad)) ↦ rw (bad, send_signature_share) tt
          | inr (inr (msg, good)) ↦ rw (good, send_signature_share) s
        ]

    sign_first-Reported :
        (k : PublicKey) (c : Cipher S) (sent : List Bytes) (packages : List (SigningPackage C))
        → OnlyPeer S k c
        → Asked C S F config.comm_coordinator_pubkey_getter coordinator_pubkey batches packages
        → confirm_message C S F M R packages confirmed line ≡ ok tt
        → Reported config coordinator_pubkey batches confirmed line
            (sign_first C S F M R c sent packages)
    unfolding sign_first
    sign_first-Reported k c sent [] o asked agreed = record {
      packages = [];
      asked = asked;
      reason = inl (refl, confirmed_empty confirmed line agreed);
    }
    sign_first-Reported k c sent (p ∷ others) o asked agreed =
        elim (Attempt-cases (signing_bytes M R p.message)) [
          | inl bad ↦
              rw (bad, sign_first)
                (record {
                  packages = p ∷ others;
                  asked = asked;
                  reason = inr (p, others, refl, bad);
                })
          | inr (inl (x, refusal)) ↦ rw (refusal, sign_first) tt
          | inr (inr (message, prepared)) ↦
              elim (Option-cases (F.sign p.signing_commitments message)) [
                | inl bad ↦ rw (prepared, bad, sign_first) tt
                | inr (share, made) ↦
                    rw (prepared, made, sign_first)
                      (send-Reported k c sent share o (record {
                        signing_package = p;
                        others = others;
                        asked = asked;
                        agreed = agreed;
                        message = message;
                        prepared = prepared;
                        made = made;
                      }))
              ]
        ]

    and_step-Reported :
        (s : Step S (List (SigningPackage C)))
        → Ends
            (first_message batches ≡ none)
            (λ d packages.
              (k : PublicKey) × OnlyPeer S k d
              × Asked C S F config.comm_coordinator_pubkey_getter coordinator_pubkey batches
                  packages)
            s
        → Reported config coordinator_pubkey batches confirmed line
            (and_step s (sign_confirmed C S F M R confirmed line))
    unfolding sign_confirmed
    and_step-Reported (gives c sent packages) (k, o, asked) =
        elim (Result-cases (confirm_message C S F M R packages confirmed line)) [
          | inr (x, bad) ↦ rw (bad, sign_confirmed) tt
          | inl (u, good) ↦
              rw (good, sign_confirmed) (sign_first-Reported k c sent packages o asked good)
        ]
    and_step-Reported waits h = h
    and_step-Reported (fails e) h = tt
    and_step-Reported panics h = absurd h

  module _ (L : SnowLaws S) where
    -- A participant sends a share only for the first package of the first message of the server,
    -- which came from the key that it trusts for the coordinator, after the user agreed, and of the
    -- bytes of the transaction in that package. It waits only while there is no message. It panics
    -- only if such a message holds no package and no question is asked, or if the transaction of the
    -- first package makes `to_pallas_message` panic.
    pub sign-Reported :
        (config : ParticipantConfig) (coordinator_pubkey : PublicKey) (batches : List (List Msg))
        (confirmed : Bool) (line : Bytes)
        → Reported config coordinator_pubkey batches confirmed line
            (sign C S F M R config coordinator_pubkey batches confirmed line)
    unfolding sign mina_multi_sig.Session.Participant.sign_confirmed
    sign-Reported config coordinator_pubkey batches confirmed line =
        and_step-Reported L config coordinator_pubkey batches confirmed line
          (get_signing_package C S F config coordinator_pubkey batches)
          (get_signing_package-Ends C S F L config coordinator_pubkey batches)
