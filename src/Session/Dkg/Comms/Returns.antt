-- ===== src/Session/Dkg/Comms/Returns.antt =====
-- Sending never makes the cipher panic.
use mina_multi_sig.Base.{
  ◌≢◌, refl, List, [], ◌∷◌, some, Attempt-cases, Attempt, returned, refused, panicked, bind, inl,
  inr,
}
use mina_multi_sig.Text.{Bytes}
use mina_multi_sig.Noise.{Snow}
use mina_multi_sig.Noise.Laws.{SnowLaws}
use mina_multi_sig.Cipher.{Cipher, Error, encrypt}
use mina_multi_sig.Cipher.Valid as CipherValid
use mina_multi_sig.Cipher.Valid.{Returns, encrypt_to-Returns, new-IsValid}
use mina_multi_sig.Session.Types.{PublicKey}
use mina_multi_sig.Session.Dkg.Comms.Sends.{send_all}
use mina_multi_sig.Session.Dkg.Comms.Rounds.{from_cipher}

-- What is encrypted for a recipient that is named never makes the cipher panic.
module _ (S : Snow) (L : SnowLaws S) where
  pub encrypt-Returns :
      (c : Cipher S) (k : PublicKey) (b : Bytes)
      → CipherValid.IsValid S c
      → Returns S (encrypt S c (some k) b)
  unfolding encrypt
  encrypt-Returns c k b v = encrypt_to-Returns S L c k b v

  pub bind-ne-panicked :
      {E A B : Type 0} (r : Attempt E A) (f : A → B)
      → r ≢ panicked
      → bind r (λ a. returned (f a)) ≢ panicked
  bind-ne-panicked (returned a) f h = cc
  bind-ne-panicked (refused e) f h = cc
  bind-ne-panicked panicked f h = absurd (h refl)

  pub send_all-Returns :
      (c : Cipher S) (sends : List (PublicKey × Bytes))
      → CipherValid.IsValid S c
      → Returns S (send_all S c sends)
  unfolding send_all
  send_all-Returns c [] v = record { valid = v; result = cc }
  send_all-Returns c ((k, b) ∷ sends) v =
      let sealed : Returns S (encrypt S c (some k) b) = encrypt-Returns c k b v in
      let rest : Returns S (send_all S (encrypt S c (some k) b).0 sends) =
        send_all-Returns (encrypt S c (some k) b).0 sends sealed.valid in
      elim (Attempt-cases (encrypt S c (some k) b).1) [
        | inl e ↦ absurd (sealed.result e)
        | inr (inl (x, e)) ↦ rw (e, send_all) (record { valid = sealed.valid; result = cc })
        | inr (inr (msg, e)) ↦
            rw (e, send_all)
              (record {
                valid = rest.valid;
                result = bind-ne-panicked _ (λ msgs. (k, msg) ∷ msgs) rest.result;
              })
      ]

  pub from_cipher-ne-panicked :
      {A : Type 0} (r : Attempt (Error S) A) → r ≢ panicked → from_cipher r ≢ panicked
  from_cipher-ne-panicked (returned a) h = cc
  from_cipher-ne-panicked (refused e) h = cc
  from_cipher-ne-panicked panicked h = absurd (h refl)
