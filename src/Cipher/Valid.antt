-- ===== src/Cipher/Valid.antt =====
-- No call of a cipher panics, whatever was sent and received before.
use mina_multi_sig.Base.{
  err-ne-ok, ok-inj, ℕ, List, [], ◌∷◌, ◌≡◌, ◌≢◌, refl, subst, Option-cases, ok, Result-cases,
  Attempt, returned, refused, panicked, inl, inr,
}
use mina_multi_sig.Map.{get}
use mina_multi_sig.Map.Entries.{Entries, Entries-insert, Entries-get}
use mina_multi_sig.Session.Types.{PublicKey, PublicKey-discrete, Msg}
use mina_multi_sig.Noise.{Snow}
use mina_multi_sig.Noise.Laws.{SnowLaws}
use mina_multi_sig.Noise.Valid.{Answers, write_message-Answers, read_message-Answers}
use mina_multi_sig.Noise.Valid as NoiseValid
use mina_multi_sig.Cipher.{
  zeros, Cipher, Error, add_peer, add_peers, new, encrypt_to, decrypt, truncated, from_sender,
}

module _ (S : Snow) where
  -- Each Noise state of the cipher has one of its two states.
  pub record IsValid (c : Cipher S) : Type 0 where
    pub sends : Entries (λ pk n. NoiseValid.IsValid S n) c.send_noise_map
    pub receives : Entries (λ pk n. NoiseValid.IsValid S n) c.recv_noise_map

  -- The call leaves a valid cipher and does not panic.
  pub record Returns {A : Type 0} (call : Cipher S × Attempt (Error S) A) : Type 0 where
    pub valid : IsValid call.0
    pub result : call.1 ≢ panicked

  truncated-ne-panicked :
      (b : List ℕ) (r : Attempt S.SnowError ℕ) → r ≢ panicked → truncated S b r ≢ panicked
  truncated-ne-panicked b (returned n) h = cc
  truncated-ne-panicked b (refused e) h = cc
  truncated-ne-panicked b panicked h = absurd (h refl)

  from_sender-ne-panicked :
      (pk : PublicKey) (r : Attempt (Error S) (List ℕ))
      → r ≢ panicked
      → from_sender S pk r ≢ panicked
  from_sender-ne-panicked pk (returned n) h = cc
  from_sender-ne-panicked pk (refused e) h = cc
  from_sender-ne-panicked pk panicked h = absurd (h refl)

  module _ (L : SnowLaws S) where
    pub encrypt_to-Returns :
        (c : Cipher S) (pk : PublicKey) (p : List ℕ) → IsValid c → Returns (encrypt_to S c pk p)
    unfolding encrypt_to
    encrypt_to-Returns c pk p v = elim (Option-cases (get PublicKey-discrete pk c.send_noise_map)) [
      | inl unknown ↦ rw (unknown, encrypt_to) (record { valid = v; result = cc })
      | inr (n, known) ↦
          let a =
            write_message-Answers S L n p zeros
              (Entries-get PublicKey-discrete _ pk n c.send_noise_map v.sends known) in
          rw (known, encrypt_to)
            (record {
              valid = record {
                sends =
                    Entries-insert PublicKey-discrete (λ k n. NoiseValid.IsValid S n) pk _
                      c.send_noise_map a.valid v.sends;
                receives = v.receives;
              };
              result = truncated-ne-panicked _ _ a.result;
            })
    ]

    pub decrypt-Returns : (c : Cipher S) (m : Msg) → IsValid c → Returns (decrypt S c m)
    unfolding decrypt
    decrypt-Returns c m v = elim (Option-cases (get PublicKey-discrete m.sender c.recv_noise_map)) [
      | inl unknown ↦ rw (unknown, decrypt) (record { valid = v; result = cc })
      | inr (n, known) ↦
          let a =
            read_message-Answers S L n m.msg zeros
              (Entries-get PublicKey-discrete _ m.sender n c.recv_noise_map v.receives known) in
          rw (known, decrypt)
            (record {
              valid = record {
                sends = v.sends;
                receives =
                    Entries-insert PublicKey-discrete (λ k n. NoiseValid.IsValid S n) m.sender _
                      c.recv_noise_map a.valid v.receives;
              };
              result = from_sender-ne-panicked m.sender _ (truncated-ne-panicked _ _ a.result);
            })
    ]

    add_peer-IsValid :
        (sk pk : List ℕ) (c d : Cipher S) → IsValid c → add_peer S sk pk c ≡ ok d → IsValid d
    unfolding add_peer
    add_peer-IsValid sk pk c d v e = elim (Result-cases (S.build_initiator sk pk)) [
      | inr (x, bad) ↦ absurd (err-ne-ok (rw (bad, add_peer) at e))
      | inl (h, good) ↦ elim (Result-cases (S.build_responder sk pk)) [
        | inr (x, bad) ↦ absurd (err-ne-ok (rw (good, bad, add_peer) at e))
        | inl (g, fine) ↦ subst IsValid (ok-inj (rw (good, fine, add_peer) at e)) (record {
          sends =
              Entries-insert PublicKey-discrete (λ k n. NoiseValid.IsValid S n) pk _
                c.send_noise_map (L.build_initiator_unfinished sk pk h good) v.sends;
          receives =
              Entries-insert PublicKey-discrete (λ k n. NoiseValid.IsValid S n) pk _
                c.recv_noise_map (L.build_responder_unfinished sk pk g fine) v.receives;
        })
      ]
    ]

    add_peers-IsValid :
        (sk : List ℕ) (pks : List PublicKey) (c d : Cipher S)
        → IsValid c
        → add_peers S sk pks c ≡ ok d
        → IsValid d
    unfolding add_peers
    add_peers-IsValid sk [] c d v e = subst IsValid (ok-inj e) v
    add_peers-IsValid sk (pk ∷ pks) c d v e = elim (Result-cases (add_peer S sk pk c)) [
      | inr (x, bad) ↦ absurd (err-ne-ok (rw (bad, add_peers) at e))
      | inl (next, good) ↦
          add_peers-IsValid sk pks next d (add_peer-IsValid sk pk c next v good)
            (rw (good, add_peers) at e)
    ]

    pub new-IsValid :
        (sk : List ℕ) (pks : List PublicKey) (c : Cipher S) → new S sk pks ≡ ok c → IsValid c
    unfolding add_peers new
    new-IsValid sk pks c e = add_peers-IsValid sk pks _ c (record { sends = tt; receives = tt }) e
