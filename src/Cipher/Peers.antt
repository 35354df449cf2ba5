-- ===== src/Cipher/Peers.antt =====
-- The channels that `Cipher::new` makes, one pair for each peer.
use mathlib.Core.List.{Memᴰ}
use mina_multi_sig.Base.{
  List, [], ◌∷◌, ℕ, ◌≡◌, ◌≢◌, sym, subst, ◌∙◌, some, ok, inl, inr, Result-cases, err-ne-ok, ok-inj,
}
use mina_multi_sig.Map.{get, insert}
use mina_multi_sig.Map.Laws.{get-insert_other, get-insert_self}
use mina_multi_sig.Session.Types.{PublicKey, PublicKey-discrete}
use mina_multi_sig.Noise
use mina_multi_sig.Noise.{Snow}
use mina_multi_sig.Cipher.{Cipher, add_peer, add_peers, new}

module _ (S : Snow) where
  -- The channels of the peer are new handshakes between the private key and the key of the peer.
  pub record Fresh (sk : List ℕ) (pk : PublicKey) (c : Cipher S) : Type 0 where
    pub initiator : S.HandshakeState
    pub responder : S.HandshakeState
    pub initiator_built : S.build_initiator sk pk ≡ ok initiator
    pub responder_built : S.build_responder sk pk ≡ ok responder
    pub sends : get PublicKey-discrete pk c.send_noise_map ≡ some (Noise.new S initiator)
    pub receives : get PublicKey-discrete pk c.recv_noise_map ≡ some (Noise.new S responder)

  -- What a round of the loop adds.
  record Added (sk : List ℕ) (pk : PublicKey) (c d : Cipher S) : Type 0 where
    h : S.HandshakeState
    g : S.HandshakeState
    h_built : S.build_initiator sk pk ≡ ok h
    g_built : S.build_responder sk pk ≡ ok g
    result :
        record {
          send_noise_map = insert PublicKey-discrete pk (Noise.new S h) c.send_noise_map;
          recv_noise_map = insert PublicKey-discrete pk (Noise.new S g) c.recv_noise_map;
        }
        ≡ d

  add_peer-Added :
      (sk : List ℕ) (pk : PublicKey) (c d : Cipher S) → add_peer S sk pk c ≡ ok d → Added sk pk c d
  unfolding add_peer
  add_peer-Added sk pk c d e = elim (Result-cases (S.build_initiator sk pk)) [
    | inr (x, bad) ↦ absurd (err-ne-ok (rw (bad, add_peer) at e))
    | inl (h, good) ↦ elim (Result-cases (S.build_responder sk pk)) [
      | inr (x, bad) ↦ absurd (err-ne-ok (rw (good, bad, add_peer) at e))
      | inl (g, fine) ↦ record {
        h = h;
        g = g;
        h_built = good;
        g_built = fine;
        result = ok-inj (rw (good, fine, add_peer) at e);
      }
    ]
  ]

  Added-Fresh : (sk : List ℕ) (pk : PublicKey) (c d : Cipher S) → Added sk pk c d → Fresh sk pk d
  Added-Fresh sk pk c d a = record {
    initiator = a.h;
    responder = a.g;
    initiator_built = a.h_built;
    responder_built = a.g_built;
    sends =
        subst (λ x. get PublicKey-discrete pk x.send_noise_map ≡ some (Noise.new S a.h)) a.result
          (get-insert_self PublicKey-discrete pk (Noise.new S a.h) c.send_noise_map);
    receives =
        subst (λ x. get PublicKey-discrete pk x.recv_noise_map ≡ some (Noise.new S a.g)) a.result
          (get-insert_self PublicKey-discrete pk (Noise.new S a.g) c.recv_noise_map);
  }

  -- A round for another peer leaves the channels of this one.
  Fresh-other :
      (sk : List ℕ) (pk other : PublicKey) (c d : Cipher S)
      → other ≢ pk
      → Fresh sk pk c
      → Added sk other c d
      → Fresh sk pk d
  Fresh-other sk pk other c d ne f a = record {
    initiator = f.initiator;
    responder = f.responder;
    initiator_built = f.initiator_built;
    responder_built = f.responder_built;
    sends =
        subst (λ x. get PublicKey-discrete pk x.send_noise_map ≡ some (Noise.new S f.initiator))
          a.result
          (get-insert_other PublicKey-discrete other pk (Noise.new S a.h) c.send_noise_map ne
            ∙ f.sends);
    receives =
        subst (λ x. get PublicKey-discrete pk x.recv_noise_map ≡ some (Noise.new S f.responder))
          a.result
          (get-insert_other PublicKey-discrete other pk (Noise.new S a.g) c.recv_noise_map ne
            ∙ f.receives);
  }

  Added-Fresh_kept :
      (sk : List ℕ) (pk other : PublicKey) (c d : Cipher S)
      → Fresh sk pk c
      → Added sk other c d
      → Fresh sk pk d
  Added-Fresh_kept sk pk other c d f a = elim (PublicKey-discrete other pk) [
    | yes same ↦ subst (λ x. Fresh sk x d) same (Added-Fresh sk other c d a)
    | no ne ↦ Fresh-other sk pk other c d ne f a
  ]

  add_peers-Fresh_kept :
      (sk : List ℕ) (pks : List PublicKey) (pk : PublicKey) (c d : Cipher S)
      → Fresh sk pk c
      → add_peers S sk pks c ≡ ok d
      → Fresh sk pk d
  unfolding add_peers
  add_peers-Fresh_kept sk [] pk c d f e = subst (Fresh sk pk) (ok-inj e) f
  add_peers-Fresh_kept sk (other ∷ pks) pk c d f e = elim (Result-cases (add_peer S sk other c)) [
    | inr (x, bad) ↦ absurd (err-ne-ok (rw (bad, add_peers) at e))
    | inl (next, good) ↦
        add_peers-Fresh_kept sk pks pk next d
          (Added-Fresh_kept sk pk other c next f (add_peer-Added sk other c next good))
          (rw (good, add_peers) at e)
  ]

  add_peers-Fresh :
      (sk : List ℕ) (pks : List PublicKey) (pk : PublicKey) (c d : Cipher S)
      → Memᴰ pk pks
      → add_peers S sk pks c ≡ ok d
      → Fresh sk pk d
  unfolding add_peers
  add_peers-Fresh sk [] pk c d m e = elim m [ ]
  add_peers-Fresh sk (other ∷ pks) pk c d m e = elim (Result-cases (add_peer S sk other c)) [
    | inr (x, bad) ↦ absurd (err-ne-ok (rw (bad, add_peers) at e))
    | inl (next, good) ↦ elim m [
      | Memᴰ.head here ↦
          add_peers-Fresh_kept sk pks pk next d
            (subst (λ x. Fresh sk x next) (sym here)
              (Added-Fresh sk other c next (add_peer-Added sk other c next good)))
            (rw (good, add_peers) at e)
      | Memᴰ.tail later ↦ add_peers-Fresh sk pks pk next d later (rw (good, add_peers) at e)
    ]
  ]

  pub new-Fresh :
      (sk : List ℕ) (pks : List PublicKey) (pk : PublicKey) (c : Cipher S)
      → Memᴰ pk pks
      → new S sk pks ≡ ok c
      → Fresh sk pk c
  unfolding new
  new-Fresh sk pks pk c m e = add_peers-Fresh sk pks pk _ c m e
