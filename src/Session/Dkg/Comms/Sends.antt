-- ===== src/Session/Dkg/Comms/Sends.antt =====
-- What a participant of mina-frost-client/src/dkg/comms/http.rs sends: its package to every other
-- participant, and then the packages of the others as echoes. The writers of serde_json are
-- parameters.
use mina_multi_sig.Base.{
  ◌≢◌, ◌≡◌, ◌≢◌, ◌∙◌, sym, ap, subst, refl, Bool-cases, List, [], ◌∷◌, ◌++◌, Bool, true, false,
  Option, none, some, Attempt, returned, refused, panicked, ite, if◌then◌else◌, ◌⊎◌, inl, inr,
  arith, bind,
}
use mina_multi_sig.Text.{Bytes}
use mina_multi_sig.Map.{Map, get}
use mina_multi_sig.Noise.{Snow}
use mina_multi_sig.Cipher.{Cipher, Error, encrypt}
use mina_multi_sig.Session.Types.{PublicKey, PublicKey-discrete, Ciphersuite}

-- `Some(pubkey) == self.config.comm_pubkey.as_ref()`
abbrev pub is_own : Option PublicKey → PublicKey → Bool
is_own none pubkey = false
is_own (some own) pubkey = ite (PublicKey-discrete pubkey own) true false

module _ (C : Ciphersuite) where
  open C use {Identifier, Round1Package, identifier_discrete}

  -- The same package for every other participant.
  unfoldable pub round1_sends :
      Option PublicKey → Bytes → Map PublicKey Identifier → List (PublicKey × Bytes)
  round1_sends own pkg [] = []
  round1_sends own pkg ((pubkey, identifier) ∷ pubkeys) =
      if is_own own pubkey
      then round1_sends own pkg pubkeys
      else (pubkey, pkg) ∷ round1_sends own pkg pubkeys

  module _ (write : Identifier → Round1Package → Bytes) where
    -- The packages of all but the recipient.
    unfoldable pub echoes_to :
        PublicKey → Identifier → Map Identifier Round1Package → List (PublicKey × Bytes)
    echoes_to recipient identifier [] = []
    echoes_to recipient identifier ((sender, pkg) ∷ packages) =
        ite (identifier_discrete sender identifier) (echoes_to recipient identifier packages)
          ((recipient, write sender pkg) ∷ echoes_to recipient identifier packages)

    unfoldable pub broadcast_sends :
        Option PublicKey
        → Map Identifier Round1Package
        → Map PublicKey Identifier
        → List (PublicKey × Bytes)
    broadcast_sends own packages [] = []
    broadcast_sends own packages ((pubkey, identifier) ∷ pubkeys) =
        if is_own own pubkey
        then broadcast_sends own packages pubkeys
        else echoes_to pubkey identifier packages ++ broadcast_sends own packages pubkeys

    -- The plaintext stands in what is sent.
    abbrev pub Sent : PublicKey → Bytes → List (PublicKey × Bytes) → Type 0
    Sent k b [] = ⊥
    Sent k b ((j, c) ∷ sends) = ((j ≡ k) × (c ≡ b)) ⊎ Sent k b sends

    Sent-append_left :
        (k : PublicKey) (b : Bytes) (xs ys : List (PublicKey × Bytes))
        → Sent k b xs
        → Sent k b (xs ++ ys)
    Sent-append_left k b [] ys h = absurd h
    Sent-append_left k b ((j, c) ∷ xs) ys (inl e) = inl e
    Sent-append_left k b ((j, c) ∷ xs) ys (inr h) = inr (Sent-append_left k b xs ys h)

    Sent-append_right :
        (k : PublicKey) (b : Bytes) (xs ys : List (PublicKey × Bytes))
        → Sent k b ys
        → Sent k b (xs ++ ys)
    Sent-append_right k b [] ys h = h
    Sent-append_right k b ((j, c) ∷ xs) ys h = inr (Sent-append_right k b xs ys h)

    echoes_to_other :
        (k : PublicKey) (i s : Identifier) (q : Round1Package) (m : Map Identifier Round1Package)
        → s ≢ i
        → echoes_to k i ((s, q) ∷ m) ≡ (k, write s q) ∷ echoes_to k i m
    unfolding echoes_to
    echoes_to_other k i s q m ne = ground arith

    echoes_to_own :
        (k : PublicKey) (i s : Identifier) (q : Round1Package) (m : Map Identifier Round1Package)
        → s ≡ i
        → echoes_to k i ((s, q) ∷ m) ≡ echoes_to k i m
    unfolding echoes_to
    echoes_to_own k i s q m e = ground arith

    echoes_to-Sent :
        (k : PublicKey) (i o : Identifier) (p : Round1Package) (m : Map Identifier Round1Package)
        → get identifier_discrete o m ≡ some p
        → o ≢ i
        → Sent k (write o p) (echoes_to k i m)
    unfolding echoes_to get
    echoes_to-Sent k i o p [] h ne = absurd (ground arith)
    echoes_to-Sent k i o p ((s, q) ∷ m) h ne =
        let later : (s ≢ o) → Sent k (write o p) (echoes_to k i m) =
          λ n. echoes_to-Sent k i o p m (ground (arith, n)) ne in
        elim (identifier_discrete s o) [
          | yes e ↦
              let same : q ≡ p = ground (arith, e) in
              rw (echoes_to_other k i s q m (λ f. ne (sym e ∙ f)))
                (inl (refl, ap (write s) same ∙ ap (λ x. write x p) e))
          | no n ↦ elim (identifier_discrete s i) [
            | yes f ↦ rw (echoes_to_own k i s q m f) (later n)
            | no f ↦ rw (echoes_to_other k i s q m f) (inr (later n))
          ]
        ]

    -- Every participant of the session but the sender itself is sent the round 1 package of each
    -- participant other than it, of which the sender has one.
    pub broadcast_sends-Sent :
        (own : Option PublicKey) (packages : Map Identifier Round1Package)
        (pubkeys : Map PublicKey Identifier) (k : PublicKey) (i o : Identifier) (p : Round1Package)
        → get PublicKey-discrete k pubkeys ≡ some i
        → is_own own k ≡ false
        → get identifier_discrete o packages ≡ some p
        → o ≢ i
        → Sent k (write o p) (broadcast_sends own packages pubkeys)
    unfolding broadcast_sends get
    broadcast_sends-Sent own packages [] k i o p h other held ne = absurd (ground arith)
    broadcast_sends-Sent own packages ((j, l) ∷ pubkeys) k i o p h other held ne =
        let later : (j ≢ k) → Sent k (write o p) (broadcast_sends own packages pubkeys) = λ n.
          broadcast_sends-Sent own packages pubkeys k i o p (ground (arith, n)) other held ne in
        elim (PublicKey-discrete j k) [
          | yes e ↦
              let same : l ≡ i = ground (arith, e) in
              let sends : is_own own j ≡ false = ap (is_own own) e ∙ other in
              let echoes : Sent j (write o p) (echoes_to j l packages) =
                echoes_to-Sent j l o p packages held (λ f. ne (f ∙ same)) in
              rw (sends, broadcast_sends)
                (subst
                  (λ key.
                    Sent key (write o p)
                      (echoes_to j l packages ++ broadcast_sends own packages pubkeys))
                  e (Sent-append_left j (write o p) (echoes_to j l packages) _ echoes))
          | no n ↦ elim (Bool-cases (is_own own j)) [
            | inl own_key ↦ rw (own_key, broadcast_sends) (later n)
            | inr sends ↦
                rw (sends, broadcast_sends)
                  (Sent-append_right k (write o p) (echoes_to j l packages) _ (later n))
          ]
        ]

module _ (S : Snow) where
  -- Each plaintext is encrypted for its recipient and sent, up to the first error.
  unfoldable pub send_all :
      Cipher S → List (PublicKey × Bytes) → Cipher S × Attempt (Error S) (List (PublicKey × Bytes))
  send_all c [] = (c, returned [])
  send_all c ((pubkey, content) ∷ sends) =
      let sealed = encrypt S c (some pubkey) content in
      let rest = send_all sealed.0 sends in
      elim sealed.1 [
        | panicked ↦ (sealed.0, panicked)
        | refused e ↦ (sealed.0, refused e)
        | returned msg ↦ (rest.0, bind rest.1 λ msgs. returned ((pubkey, msg) ∷ msgs))
      ]
