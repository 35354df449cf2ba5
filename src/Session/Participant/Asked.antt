-- ===== src/Session/Participant/Asked.antt =====
-- What a participant gets of the coordinator.
use mina_multi_sig.Base.{
  ◌≢◌, ℕ, ◌≡◌, refl, List, [], ◌∷◌, Option, none, some, Attempt, returned, refused, panicked, inl,
  inr, Option-cases, Result-cases,
}
use mina_multi_sig.Text.{Bytes}
use mina_multi_sig.Noise.{Snow}
use mina_multi_sig.Noise.Laws.{SnowLaws}
use mina_multi_sig.Cipher
use mina_multi_sig.Cipher.{Cipher, Error, encrypt, decrypt}
use mina_multi_sig.Cipher.Single.{
  OnlyPeer, new-OnlyPeer, encrypt-OnlyPeer, decrypt-OnlyPeer, decrypt_only,
}
use mina_multi_sig.Session.Types.{PublicKey, Msg, Ciphersuite}
use mina_multi_sig.Session.Participant.{
  ParticipantConfig, SigningPackage, Signer, Step, gives, waits, fails, panics, and_cipher,
  first_message, receive_package, exchange_with, get_signing_package,
}

-- A call does not panic, waits only if `W`, and what it gives satisfies `P`.
abbrev pub Ends : {S : Snow} {A : Type 0} → Type 0 → (Cipher S → A → Type 0) → Step S A → Type 0
Ends W P (gives c sent a) = P c a
Ends W P waits = W
Ends W P (fails e) = Unit
Ends W P panics = ⊥

module _ {S : Snow} {A B : Type 0} (W : Type 0) (P : Cipher S → B → Type 0) where
  and_cipher-Ends :
      (r : Cipher S × Attempt (Error S) A) (next : Cipher S → A → Step S B)
      → r.1 ≢ panicked
      → ((a : A) → r.1 ≡ returned a → Ends W P (next r.0 a))
      → Ends W P (and_cipher r next)
  and_cipher-Ends (c, returned a) next ne h = h a refl
  and_cipher-Ends (c, refused e) next ne h = tt
  and_cipher-Ends (c, panicked) next ne h = absurd (ne refl)

Ends-map :
    {S : Snow} {A : Type 0} (W : Type 0) (P Q : Cipher S → A → Type 0) (s : Step S A)
    → ((c : Cipher S) (a : A) → P c a → Q c a)
    → Ends W P s
    → Ends W Q s
Ends-map W P Q (gives c sent a) f h = f c a h
Ends-map W P Q waits f h = h
Ends-map W P Q (fails e) f h = h
Ends-map W P Q panics f h = h

module _ (C : Ciphersuite) (S : Snow) (F : Signer C) where
  -- What the coordinator sent: its key is the one that the user trusts.
  pub record Asked (trust : Option (PublicKey → Option PublicKey)) (coordinator_pubkey : PublicKey)
      (batches : List (List Msg)) (packages : List (SigningPackage C)) : Type 0 where
    pub getter : PublicKey → Option PublicKey
    pub configured : trust ≡ some getter
    pub coordinator : PublicKey
    pub trusted : getter coordinator_pubkey ≡ some coordinator
    pub received : Msg
    pub first : first_message batches ≡ some received
    pub from : received.sender ≡ coordinator
    pub cipher : Cipher S
    pub opened : Msg
    pub decrypted : (decrypt S cipher received).1 ≡ returned opened
    pub read : F.read_packages opened.msg ≡ some packages

  -- The packages, before the keys of the configuration.
  record Heard (k : PublicKey) (batches : List (List Msg)) (packages : List (SigningPackage C))
      : Type 0 where
    received : Msg
    first : first_message batches ≡ some received
    from : received.sender ≡ k
    cipher : Cipher S
    opened : Msg
    decrypted : (decrypt S cipher received).1 ≡ returned opened
    read : F.read_packages opened.msg ≡ some packages

  Heard-Asked :
      (getter : PublicKey → Option PublicKey) (coordinator_pubkey k : PublicKey)
      (batches : List (List Msg)) (packages : List (SigningPackage C))
      → getter coordinator_pubkey ≡ some k
      → Heard k batches packages
      → Asked (some getter) coordinator_pubkey batches packages
  Heard-Asked getter coordinator_pubkey k batches packages e h = record {
    getter = getter;
    configured = refl;
    coordinator = k;
    trusted = e;
    received = h.received;
    first = h.first;
    from = h.from;
    cipher = h.cipher;
    opened = h.opened;
    decrypted = h.decrypted;
    read = h.read;
  }

  module _ (L : SnowLaws S) where
    receive_package-Ends :
        (k : PublicKey) (c : Cipher S) (sent : List Bytes) (batches : List (List Msg))
        → OnlyPeer S k c
        → Ends
            (first_message batches ≡ none)
            (λ d packages. OnlyPeer S k d × Heard k batches packages)
            (receive_package C S F c sent batches)
    unfolding receive_package
    receive_package-Ends k c sent batches o = elim (Option-cases (first_message batches)) [
      | inl e ↦ rw (e, receive_package) refl
      | inr (m, e) ↦
          let opens = decrypt-OnlyPeer S L k c m o in
          rw (e, receive_package)
            (and_cipher-Ends _ (λ d packages. OnlyPeer S k d × Heard k (batches) packages)
              (decrypt S c m) _ opens.1
              λ opened was. elim (Option-cases (F.read_packages opened.msg)) [
                | inl bad ↦ rw bad tt
                | inr (packages, good) ↦ rw good (
                  opens.0,
                  record {
                    received = m;
                    first = e;
                    from = decrypt_only S k c m opened o was;
                    cipher = c;
                    opened = opened;
                    decrypted = was;
                    read = good;
                  },
                )
              ])
    ]

    exchange_with-Ends :
        (sk : List ℕ) (k : PublicKey) (batches : List (List Msg))
        → Ends
            (first_message batches ≡ none)
            (λ d packages. OnlyPeer S k d × Heard k batches packages)
            (exchange_with C S F sk k batches)
    unfolding exchange_with
    exchange_with-Ends sk k batches = elim (Result-cases (Cipher.new S sk (k ∷ []))) [
      | inr (x, bad) ↦ rw (bad, exchange_with) tt
      | inl (c, good) ↦
          let sends =
            encrypt-OnlyPeer S L k c (F.write_commitments (F.commitments ∷ []))
              (new-OnlyPeer S L sk k c good) in
          rw (good, exchange_with)
            (and_cipher-Ends _ _ (encrypt S c none (F.write_commitments (F.commitments ∷ []))) _
              sends.1 λ msg was. receive_package-Ends k _ (msg ∷ []) batches sends.0)
    ]

    -- The key of the only peer is that of the coordinator.
    pub get_signing_package-Ends :
        (config : ParticipantConfig) (coordinator_pubkey : PublicKey) (batches : List (List Msg))
        → Ends
            (first_message batches ≡ none)
            (λ d packages.
              (k : PublicKey) × OnlyPeer S k d
              × Asked config.comm_coordinator_pubkey_getter coordinator_pubkey batches packages)
            (get_signing_package C S F config coordinator_pubkey batches)
    unfolding get_signing_package
    get_signing_package-Ends config coordinator_pubkey batches =
        elim (Option-cases config.comm_privkey) [
          | inl e ↦ rw (e, get_signing_package) tt
          | inr (sk, e) ↦ elim (Option-cases config.comm_pubkey) [
            | inl f ↦ rw (e, f, get_signing_package) tt
            | inr (pk, f) ↦ elim (Option-cases config.session_id) [
              | inl g ↦ rw (e, f, g, get_signing_package) tt
              | inr (id, g) ↦ elim (Option-cases config.comm_coordinator_pubkey_getter) [
                | inl h ↦ rw (e, f, g, h, get_signing_package) tt
                | inr (getter, h) ↦ elim (Option-cases (getter coordinator_pubkey)) [
                  | inl i ↦ rw (e, f, g, h, i, get_signing_package) tt
                  | inr (k, i) ↦
                      rw (e, f, g, h, i, get_signing_package)
                        (Ends-map (first_message batches ≡ none)
                          (λ d packages. OnlyPeer S k d × Heard k batches packages) _
                          (exchange_with C S F sk k batches)
                          (λ d packages heard. (
                            k,
                            heard.0,
                            Heard-Asked getter coordinator_pubkey k batches packages i heard.1,
                          ))
                          (exchange_with-Ends sk k batches))
                ]
              ]
            ]
          ]
        ]
