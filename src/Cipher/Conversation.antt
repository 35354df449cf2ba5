-- ===== src/Cipher/Conversation.antt =====
-- Two users whose key pairs belong together: what one encrypts in order the other decrypts in order.
use mathlib.Core.List.{Memᴰ}
use mina_multi_sig.Cipher.Peers.{new-Fresh}
use mina_multi_sig.Base.{
  ok, subst, ap, ℕ, List, [], ◌∷◌, ◌≡◌, refl, Option, none, some, Attempt, returned, refused,
  panicked, arith, take, length, All, map, ◌+◌, ◌≤◌, length-replicate,
}
use mina_multi_sig.Map.{get, insert}
use mina_multi_sig.Map.Laws.{get-insert_self}
use mina_multi_sig.Session.Types.{PublicKey, PublicKey-discrete, Msg}
use mina_multi_sig.Noise
use mina_multi_sig.Noise.{Snow, Noise, write_message, read_message}
use mina_multi_sig.Noise.Laws.{SnowLaws, SnowChannel, overhead}
use mina_multi_sig.Noise.Channel.{Joined, Joined-Delivered}
use mina_multi_sig.Cipher.{new, Cipher, Error, encrypt_to, encrypt, decrypt, max_msg_size, zeros}

module _ (S : Snow) where
  -- What a call of the cipher gave, if it succeeded.
  abbrev pub success : {A : Type 0} → Cipher S × Attempt (Error S) A → Option (Cipher S × A)
  success (c, returned a) = some (c, a)
  success (c, refused e) = none
  success (c, panicked) = none

  -- Calls of `encrypt` for one recipient, one after the other.
  unfoldable pub encrypt_messages :
      Cipher S → PublicKey → List (List ℕ) → Option (Cipher S × List (List ℕ))
  encrypt_messages c pk [] = some (c, [])
  encrypt_messages c pk (p ∷ ps) = elim (success (encrypt S c (some pk) p)) [
    | none ↦ none
    | some (d, m) ↦ elim (encrypt_messages d pk ps) [
      | none ↦ none
      | some (e, ms) ↦ some (e, m ∷ ms)
    ]
  ]

  -- Calls of `decrypt`, one after the other.
  unfoldable pub decrypt_messages : Cipher S → List Msg → Option (Cipher S × List Msg)
  decrypt_messages c [] = some (c, [])
  decrypt_messages c (m ∷ ms) = elim (success (decrypt S c m)) [
    | none ↦ none
    | some (d, opened) ↦ elim (decrypt_messages d ms) [
      | none ↦ none
      | some (e, all_opened) ↦ some (e, opened ∷ all_opened)
    ]
  ]

  abbrev pub sent_by : PublicKey → List ℕ → Msg
  sent_by pk content = record { sender = pk; msg = content }

  -- The payload fits a Noise message.
  abbrev pub Fits : List ℕ → Type 0
  Fits p = length p + overhead ≤ max_msg_size

  length-zeros : length zeros ≡ max_msg_size
  unfolding zeros
  length-zeros = length-replicate {A = ℕ} max_msg_size 0

  encrypt_writes :
      (c : Cipher S) (pk : PublicKey) (p : List ℕ) (n : Noise S) (k : ℕ)
      → get PublicKey-discrete pk c.send_noise_map ≡ some n
      → (write_message S n p zeros).result ≡ returned k
      → encrypt S c (some pk) p ≡ (
        record c {
          send_noise_map =
              insert PublicKey-discrete pk (write_message S n p zeros).state c.send_noise_map;
        },
        returned (take k (write_message S n p zeros).buffer),
      )
  unfolding encrypt encrypt_to
  encrypt_writes c pk p n k known w = rw (known, w, encrypt, encrypt_to) refl

  decrypt_reads :
      (c : Cipher S) (m : Msg) (n : Noise S) (k : ℕ)
      → get PublicKey-discrete m.sender c.recv_noise_map ≡ some n
      → (read_message S n m.msg zeros).result ≡ returned k
      → decrypt S c m ≡ (
        record c {
          recv_noise_map =
              insert PublicKey-discrete m.sender
                (read_message S n m.msg zeros).state
                c.recv_noise_map;
        },
        returned (sent_by m.sender (take k (read_message S n m.msg zeros).buffer)),
      )
  unfolding decrypt
  decrypt_reads c m n k known r = rw (known, r, decrypt) refl

  encrypt_messages-cons :
      (c d e : Cipher S) (pk : PublicKey) (p m : List ℕ) (ps ms : List (List ℕ))
      → encrypt S c (some pk) p ≡ (d, returned m)
      → encrypt_messages d pk ps ≡ some (e, ms)
      → encrypt_messages c pk (p ∷ ps) ≡ some (e, m ∷ ms)
  unfolding encrypt_messages
  encrypt_messages-cons c d e pk p m ps ms f g =
      rw (ap (λ x. x.1) f, ap (λ x. x.0) f, g, encrypt_messages) refl

  decrypt_messages-cons :
      (c d e : Cipher S) (m opened : Msg) (ms all_opened : List Msg)
      → decrypt S c m ≡ (d, returned opened)
      → decrypt_messages d ms ≡ some (e, all_opened)
      → decrypt_messages c (m ∷ ms) ≡ some (e, opened ∷ all_opened)
  unfolding decrypt_messages
  decrypt_messages-cons c d e m opened ms all_opened f g =
      rw (ap (λ x. x.1) f, ap (λ x. x.0) f, g, decrypt_messages) refl

  -- The payloads are encrypted for the recipient, and decrypt to themselves.
  pub record Arrives (c d : Cipher S) (from to : PublicKey) (ps : List (List ℕ)) : Type 0 where
    pub messages : List (List ℕ)
    pub sender_after : Cipher S
    pub receiver_after : Cipher S
    pub encrypted : encrypt_messages c to ps ≡ some (sender_after, messages)
    pub decrypted :
        decrypt_messages d (map (sent_by from) messages)
        ≡ some (receiver_after, map (sent_by from) ps)

  module _ (L : SnowLaws S) (K : SnowChannel S) where
    Joined-Arrives :
        (c d : Cipher S) (from to : PublicKey) (n m : Noise S) (ps : List (List ℕ))
        → get PublicKey-discrete to c.send_noise_map ≡ some n
        → get PublicKey-discrete from d.recv_noise_map ≡ some m
        → Joined S L K n m
        → All Fits ps
        → Arrives c d from to ps
    unfolding encrypt_messages decrypt_messages
    Joined-Arrives c d from to n m [] out_at in_at j fits = record {
      messages = [];
      sender_after = c;
      receiver_after = d;
      encrypted = refl;
      decrypted = refl;
    }
    Joined-Arrives c d from to n m (p ∷ ps) out_at in_at j (fit, fits) =
        let v =
          Joined-Delivered S L K n m p zeros zeros j (omega (arith, length-zeros, fit), fit)
            (omega (arith, length-zeros, fit)) in
        let w = write_message S n p zeros in
        let r = read_message S m (take v.sent w.buffer) zeros in
        let c2 : Cipher S = record c {
          send_noise_map = insert PublicKey-discrete to w.state c.send_noise_map;
        } in
        let d2 : Cipher S = record d {
          recv_noise_map = insert PublicKey-discrete from r.state d.recv_noise_map;
        } in
        let rest =
          Joined-Arrives c2 d2 from to w.state r.state ps
            (get-insert_self PublicKey-discrete to w.state c.send_noise_map)
            (get-insert_self PublicKey-discrete from r.state d.recv_noise_map) v.joined fits in
        record {
          messages = take v.sent w.buffer ∷ rest.messages;
          sender_after = rest.sender_after;
          receiver_after = rest.receiver_after;
          encrypted =
              encrypt_messages-cons c c2 rest.sender_after to p (take v.sent w.buffer) ps
                rest.messages (encrypt_writes c to p n v.sent out_at v.writes) rest.encrypted;
          decrypted =
              decrypt_messages-cons d d2 rest.receiver_after (sent_by from (take v.sent w.buffer))
                (sent_by from p) (map (sent_by from) rest.messages) (map (sent_by from) ps)
                (subst
                  (λ x.
                    decrypt S d (sent_by from (take v.sent w.buffer))
                    ≡ (d2, returned (sent_by from x)))
                  v.content
                  (decrypt_reads d (sent_by from (take v.sent w.buffer)) m v.got in_at v.reads))
                rest.decrypted;
        }

    -- Whatever one user encrypts for another, in any number of messages that fit, is what the other
    -- decrypts, in the same order and from the same sender, if each made a cipher with the key of the
    -- other among its peers.
    pub decrypt_messages-encrypt_messages :
        (sk_a pk_a sk_b pk_b : List ℕ) (peers_a peers_b : List PublicKey) (c d : Cipher S)
        (ps : List (List ℕ))
        → K.KeyPair sk_a pk_a
        → K.KeyPair sk_b pk_b
        → Memᴰ pk_b peers_a
        → Memᴰ pk_a peers_b
        → new S sk_a peers_a ≡ ok c
        → new S sk_b peers_b ≡ ok d
        → All Fits ps
        → Arrives c d pk_a pk_b ps
    decrypt_messages-encrypt_messages sk_a pk_a sk_b pk_b peers_a peers_b c d ps ka kb at_a at_b ea
          eb fits =
        let a = new-Fresh S sk_a peers_a pk_b c at_a ea in
        let b = new-Fresh S sk_b peers_b pk_a d at_b eb in
        Joined-Arrives c d pk_a pk_b (Noise.new S a.initiator) (Noise.new S b.responder) ps a.sends
          b.receives
          (K.build_Matching sk_a pk_a sk_b pk_b a.initiator b.responder ka kb a.initiator_built
            b.responder_built)
          fits
