-- ===== src/Cipher/Single.antt =====
-- A cipher with one peer, as a signer has it for the coordinator.
use mina_multi_sig.Base.{
  arith, ◌≡◌, ◌≢◌, refl, sym, ap, ◌∙◌, ok, err-ne-ok, ok-inj, List, [], ◌∷◌, ℕ, none, some,
  returned, panicked, inl, inr, Option-cases, Result-cases, refused-ne-returned,
}
use mina_multi_sig.Map.{get, insert}
use mina_multi_sig.Map.Laws.{get-insert_other}
use mina_multi_sig.Session.Types.{PublicKey, PublicKey-discrete, Msg}
use mina_multi_sig.Noise
use mina_multi_sig.Noise.{Snow, Noise}
use mina_multi_sig.Noise.Laws.{SnowLaws}
use mina_multi_sig.Cipher.{
  Cipher, add_peer, add_peers, new, encrypt, encrypt_to, decrypt, get_recipient,
}
use mina_multi_sig.Cipher.Valid.{IsValid, encrypt_to-Returns, decrypt-Returns, new-IsValid}

module _ {V : Type 0} where
  insert_only :
      (k : PublicKey) (v w : V) → insert PublicKey-discrete k w ((k, v) ∷ []) ≡ (k, w) ∷ []
  unfolding insert
  insert_only k v w = ground arith

  get_only : (k j : PublicKey) (v w : V) → get PublicKey-discrete j ((k, v) ∷ []) ≡ some w → j ≡ k
  unfolding get
  get_only k j v w h = ground arith

module _ (S : Snow) where
  pub record OnlyPeer (k : PublicKey) (c : Cipher S) : Type 0 where
    pub sender : Noise S
    pub sends : c.send_noise_map ≡ (k, sender) ∷ []
    pub hears :
        (j : PublicKey) (n : Noise S) → get PublicKey-discrete j c.recv_noise_map ≡ some n → j ≡ k
    pub valid : IsValid S c

  -- Only a message of the peer decrypts.
  pub decrypt_only :
      (k : PublicKey) (c : Cipher S) (m opened : Msg)
      → OnlyPeer k c
      → (decrypt S c m).1 ≡ returned opened
      → m.sender ≡ k
  unfolding decrypt
  decrypt_only k c m opened o h =
      elim (Option-cases (get PublicKey-discrete m.sender c.recv_noise_map)) [
        | inl unknown ↦ absurd (refused-ne-returned (rw (unknown, decrypt) at h))
        | inr (n, known) ↦ o.hears m.sender n known
      ]

  module _ (L : SnowLaws S) where
    pub new-OnlyPeer :
        (sk : List ℕ) (k : PublicKey) (c : Cipher S) → new S sk (k ∷ []) ≡ ok c → OnlyPeer k c
    unfolding new add_peers add_peer insert
    new-OnlyPeer sk k c e = elim (Result-cases (S.build_initiator sk k)) [
      | inr (x, bad) ↦ absurd (err-ne-ok (rw (bad, new, add_peers, add_peer) at e))
      | inl (h, good) ↦ elim (Result-cases (S.build_responder sk k)) [
        | inr (x, bad) ↦ absurd (err-ne-ok (rw (good, bad, new, add_peers, add_peer) at e))
        | inl (g, fine) ↦
            let made = ok-inj (rw (good, fine, new, add_peers, add_peer) at e) in
            record {
              sender = Noise.new S h;
              sends = ap (λ (d : Cipher S). d.send_noise_map) (sym made);
              hears = λ j n was.
                  get_only k j (Noise.new S g) n
                    (ap (λ (d : Cipher S). get PublicKey-discrete j d.recv_noise_map) made ∙ was);
              valid = new-IsValid S L sk (k ∷ []) c e;
            }
      ]
    ]

    encrypt_to-OnlyPeer :
        (k : PublicKey) (c : Cipher S) (b : List ℕ)
        → OnlyPeer k c
        → OnlyPeer k (encrypt_to S c k b).0
    unfolding encrypt_to
    encrypt_to-OnlyPeer k c b o = elim (Option-cases (get PublicKey-discrete k c.send_noise_map)) [
      | inl unknown ↦ rw (unknown, encrypt_to) o
      | inr (n, known) ↦
          let valid = (encrypt_to-Returns S L c k b o.valid).valid in
          rw (known, encrypt_to)
            (record {
              sender = _;
              sends = ap (insert PublicKey-discrete k _) o.sends ∙ insert_only k o.sender _;
              hears = o.hears;
              valid = rw (known, encrypt_to) at valid;
            })
    ]

    -- Without a recipient the message is for the peer.
    pub encrypt-OnlyPeer :
        (k : PublicKey) (c : Cipher S) (b : List ℕ)
        → OnlyPeer k c
        → OnlyPeer k (encrypt S c none b).0 × ((encrypt S c none b).1 ≢ panicked)
    unfolding encrypt
    encrypt-OnlyPeer k c b o =
        let same : get_recipient S none c.send_noise_map ≡ some k =
          ap (get_recipient S none) o.sends in
        rw (same, encrypt)
          (encrypt_to-OnlyPeer k c b o, (encrypt_to-Returns S L c k b o.valid).result)

    pub decrypt-OnlyPeer :
        (k : PublicKey) (c : Cipher S) (m : Msg)
        → OnlyPeer k c
        → OnlyPeer k (decrypt S c m).0 × ((decrypt S c m).1 ≢ panicked)
    unfolding decrypt
    decrypt-OnlyPeer k c m o =
        let r = decrypt-Returns S L c m o.valid in
        (
          record { sender = o.sender; sends = kept.0 ∙ o.sends; hears = kept.1; valid = r.valid },
          r.result,
        )
      where
        kept :
            ((decrypt S c m).0.send_noise_map ≡ c.send_noise_map)
            × ((j : PublicKey) (n : Noise S)
                → get PublicKey-discrete j (decrypt S c m).0.recv_noise_map ≡ some n
                → j ≡ k)
        kept = elim (Option-cases (get PublicKey-discrete m.sender c.recv_noise_map)) [
          | inl unknown ↦ rw (unknown, decrypt) (refl, o.hears)
          | inr (n, known) ↦
              rw (known, decrypt)
                (
                  refl,
                  λ j x was. elim (PublicKey-discrete m.sender j) [
                    | yes e ↦ sym e ∙ o.hears m.sender n known
                    | no ne ↦ o.hears j x (
                        sym (get-insert_other PublicKey-discrete m.sender j _ c.recv_noise_map ne)
                        ∙ was)
                  ],
                )
        ]
