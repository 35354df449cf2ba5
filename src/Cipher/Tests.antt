-- ===== src/Cipher/Tests.antt =====
-- Ciphers of three users with the keys 9, 11 and 13, run on concrete messages.
use mathlib.Core.List.{Memᴰ}
use mina_multi_sig.Base.{List, [], ◌∷◌, ℕ, ◌≡◌, refl, sym, some, none, Option, ok, arith, map}
use mina_multi_sig.Session.Types.{PublicKey-discrete}
use mina_multi_sig.Cipher.{Cipher, new, encrypt, decrypt}
use mina_multi_sig.Cipher.Samples.{
  own_key, numbered, numbered-SnowLaws, numbered-SnowChannel, waiting,
}
use mina_multi_sig.Cipher.Conversation.{Arrives, decrypt_messages-encrypt_messages}
use mina_multi_sig.Cipher.Run.{Action, encrypts, decrypts, run, run-new}
use mina_multi_sig.Cipher.Valid.{IsValid}

abbrev of_9 : Cipher numbered
of_9 = record {
  send_noise_map = (11 ∷ [], waiting (9 ∷ 11 ∷ [])) ∷ (13 ∷ [], waiting (9 ∷ 13 ∷ [])) ∷ [];
  recv_noise_map = (11 ∷ [], waiting (11 ∷ 9 ∷ [])) ∷ (13 ∷ [], waiting (13 ∷ 9 ∷ [])) ∷ [];
}

abbrev of_11 : Cipher numbered
of_11 = record {
  send_noise_map = (9 ∷ [], waiting (11 ∷ 9 ∷ [])) ∷ [];
  recv_noise_map = (9 ∷ [], waiting (9 ∷ 11 ∷ [])) ∷ [];
}

new_9 : new numbered (9 ∷ []) ((11 ∷ []) ∷ (13 ∷ []) ∷ []) ≡ ok of_9
unfolding new mina_multi_sig.Cipher.add_peers mina_multi_sig.Cipher.add_peer
    mina_multi_sig.Map.insert PublicKey-discrete mina_multi_sig.Base.ℕ_discrete
new_9 = refl

new_11 : new numbered (11 ∷ []) ((9 ∷ []) ∷ []) ≡ ok of_11
unfolding new mina_multi_sig.Cipher.add_peers mina_multi_sig.Cipher.add_peer
    mina_multi_sig.Map.insert
new_11 = refl

decrypt_messages-encrypt_messages_example :
    Arrives numbered of_11 of_9 (11 ∷ []) (9 ∷ []) ((4 ∷ 5 ∷ []) ∷ (6 ∷ []) ∷ [])
decrypt_messages-encrypt_messages_example =
    decrypt_messages-encrypt_messages numbered numbered-SnowLaws numbered-SnowChannel (11 ∷ [])
      (11 ∷ []) (9 ∷ []) (9 ∷ []) ((9 ∷ []) ∷ []) ((11 ∷ []) ∷ (13 ∷ []) ∷ []) of_11 of_9
      ((4 ∷ 5 ∷ []) ∷ (6 ∷ []) ∷ []) (own_key _) (own_key _) (Memᴰ.head refl) (Memᴰ.head refl)
      new_11 new_9 (omega arith, (omega arith, tt))

abbrev actions : List Action
actions =
    encrypts (some (11 ∷ [])) (4 ∷ [])
    ∷ decrypts (record { sender = 12 ∷ []; msg = 0 ∷ [] })
    ∷ decrypts (record { sender = 13 ∷ []; msg = 1 ∷ [] })
    ∷ decrypts (record { sender = 13 ∷ []; msg = 0 ∷ 7 ∷ [] })
    ∷ []

run-new_example : (d : Cipher numbered) × (run numbered of_9 actions ≡ some d) × IsValid numbered d
run-new_example =
    run-new numbered numbered-SnowLaws (9 ∷ []) ((11 ∷ []) ∷ (13 ∷ []) ∷ []) of_9 actions new_9
      (refl, (tt, (tt, (tt, tt))))

-- The participant, who has one peer, does not name it.
only_peer :
    (encrypt numbered of_11 none (4 ∷ [])).0 ≡ (encrypt numbered of_11 (some (9 ∷ [])) (4 ∷ [])).0
unfolding encrypt
only_peer = refl
