-- ===== src/Cipher/Isolation.antt =====
-- What one peer sends does not touch the channels of the others, and a message that does not decrypt
-- touches no channel.
use mina_multi_sig.Base.{
  ℕ, List, ◌≡◌, ◌≢◌, refl, ap, ◌∙◌, Option, Option-cases, Attempt, returned, refused, panicked, inl,
  inr, arith,
}
use mina_multi_sig.Map.{get, insert}
use mina_multi_sig.Map.Laws.{get-insert, insert_same}
use mina_multi_sig.Map.Entries.{Entries-get}
use mina_multi_sig.Session.Types.{PublicKey, PublicKey-discrete, Msg}
use mina_multi_sig.Noise.{Snow, Noise, read_message}
use mina_multi_sig.Noise.Laws.{SnowLaws}
use mina_multi_sig.Noise.Valid.{read_message_refused}
use mina_multi_sig.Cipher.{zeros, Cipher, Error, decrypt, truncated, from_sender}
use mina_multi_sig.Cipher.Valid.{IsValid}

module _ (S : Snow) where
  -- The channels of one peer.
  abbrev pub channels : Cipher S → PublicKey → Option (Noise S) × Option (Noise S)
  channels c pk =
      (get PublicKey-discrete pk c.send_noise_map, get PublicKey-discrete pk c.recv_noise_map)

  pub channels-decrypt :
      (c : Cipher S) (m : Msg) (pk : PublicKey)
      → m.sender ≢ pk
      → channels (decrypt S c m).0 pk ≡ channels c pk
  unfolding decrypt
  channels-decrypt c m pk ne =
      elim (Option-cases (get PublicKey-discrete m.sender c.recv_noise_map)) [
        | inl unknown ↦ rw (unknown, decrypt) refl
        | inr (n, known) ↦
            rw (known, decrypt)
              (ap (λ x. (get PublicKey-discrete pk c.send_noise_map, x))
                (ground (
                  arith,
                  get-insert PublicKey-discrete m.sender pk (read_message S n m.msg zeros).state
                      c.recv_noise_map,
                )))
      ]

  -- The message that comes out has the sender of the one that went in.
  pub decrypt_sender :
      (c : Cipher S) (m opened : Msg)
      → (decrypt S c m).1 ≡ returned opened
      → opened.sender ≡ m.sender
  unfolding decrypt
  decrypt_sender c m opened e =
      elim (Option-cases (get PublicKey-discrete m.sender c.recv_noise_map)) [
        | inl unknown ↦ absurd (refused-ne-returned (rw (unknown, decrypt) at e))
        | inr (n, known) ↦ keeps _ (rw (known, decrypt) at e)
      ]
    where
      refused-ne-returned : {x : Error S} → refused x ≢ returned opened
      refused-ne-returned = cc

      keeps :
          (r : Attempt (Error S) (List ℕ))
          → from_sender S m.sender r ≡ returned opened
          → opened.sender ≡ m.sender
      keeps (returned b) f = cc
      keeps (refused x) f = cc
      keeps panicked f = cc

  module _ (L : SnowLaws S) where
    pub decrypt_refused :
        (c : Cipher S) (m : Msg) (e : Error S)
        → IsValid S c
        → (decrypt S c m).1 ≡ refused e
        → (decrypt S c m).0 ≡ c
    unfolding decrypt
    decrypt_refused c m e v f =
        elim (Option-cases (get PublicKey-discrete m.sender c.recv_noise_map)) [
          | inl unknown ↦ rw (unknown, decrypt) refl
          | inr (n, known) ↦
              let valid =
                Entries-get PublicKey-discrete _ m.sender n c.recv_noise_map v.receives known in
              let (x, r) = snow_refused _ _ (rw (known, decrypt) at f) in
              rw (known, decrypt)
                (ap (λ m. record c { recv_noise_map = m })
                  (ap (λ s. insert PublicKey-discrete m.sender s c.recv_noise_map)
                      (read_message_refused S L n m.msg _ x valid r)
                    ∙ insert_same PublicKey-discrete m.sender n c.recv_noise_map known))
        ]
      where
        snow_refused :
            (b : List ℕ) (r : Attempt S.SnowError ℕ)
            → from_sender S m.sender (truncated S b r) ≡ refused e
            → (x : S.SnowError) × (r ≡ refused x)
        snow_refused b (returned k) f = absurd (cc)
        snow_refused b (refused x) f = (x, refl)
        snow_refused b panicked f = absurd (cc)
