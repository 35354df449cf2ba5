-- ===== src/NetworkId/Packing.antt =====
-- The bit packing of a custom network name is the reversal of its bytes.
use mina_multi_sig.Base.{
  sym, append_assoc, append-nil, All, ◌++◌, ap, ◌∙◌, [], ◌∷◌, List, ℕ, zero, suc, ◌<◌, ◌≡◌, refl,
  Bool, true, ◌&&◌, ◌==◌, arith,
}
use mathlib.Core.List.{reverse, reverse-cons, reverse-reverse}
use mina_multi_sig.Text.{Bytes, IsByte}
use mina_multi_sig.NetworkId.{
  push_bits, pack_chunks, network_id_to_bytes, into_bytes, custom, byte_bits, pack_from,
}

-- A property of every byte, by trying all of them.
holds_below : ℕ → (ℕ → Bool) → Bool
holds_below zero p = true
holds_below (suc n) p = p n && holds_below n p

holds_below-lt : (n : ℕ) (p : ℕ → Bool) (x : ℕ) → holds_below n p ≡ true → x < n → p x ≡ true
unfolding holds_below
holds_below-lt zero p x h l = absurd (omega arith)
holds_below-lt (suc n) p x h l = ground (arith, holds_below-lt n p x)

every_byte : holds_below 256 (λ ch. pack_from 0 0 (byte_bits ch) == ch) ≡ true
unfolding holds_below
every_byte = refl

pack-byte_bits : (ch : ℕ) → IsByte ch → pack_from 0 0 (byte_bits ch) ≡ ch
pack-byte_bits ch h =
    let e = holds_below-lt 256 (λ c. pack_from 0 0 (byte_bits c) == c) ch every_byte h in
    eq_of_test _ ch e
  where
    eq_of_test : (a b : ℕ) → (a == b) ≡ true → a ≡ b
    eq_of_test a b e = ground arith

push_bits-append : (bits : List ℕ) (s : Bytes) → push_bits bits s ≡ bits ++ push_bits [] s
push_bits-append bits [] = sym (append-nil bits)
push_bits-append bits (ch ∷ rest) =
    push_bits-append (bits ++ byte_bits ch) rest
    ∙ append_assoc bits (byte_bits ch) (push_bits [] rest)
    ∙ ap (◌++◌ bits) (sym (push_bits-append (byte_bits ch) rest))

pack_chunks-push_bits : (s : Bytes) → All IsByte s → pack_chunks (push_bits [] s) ≡ s
unfolding pack_chunks
pack_chunks-push_bits [] h = refl
pack_chunks-push_bits (ch ∷ rest) h =
    rw (push_bits-append (byte_bits ch) rest)
      (cc (pack-byte_bits ch h.0, pack_chunks-push_bits rest h.1))

All-snoc : (s : Bytes) (ch : ℕ) → All IsByte s → IsByte ch → All IsByte (s ++ ch ∷ [])
All-snoc [] ch h b = (b, tt)
All-snoc (x ∷ xs) ch h b = (h.0, All-snoc xs ch h.1 b)

All-reverse : (s : Bytes) → All IsByte s → All IsByte (reverse s)
All-reverse [] h = tt
All-reverse (ch ∷ rest) h =
    rw (reverse-cons ch rest) (All-snoc (reverse rest) ch (All-reverse rest h.1) h.0)

-- The bit packing of a custom network name is the reversal of its bytes.
pub network_id_to_bytes-reverse : (s : Bytes) → All IsByte s → network_id_to_bytes s ≡ reverse s
unfolding network_id_to_bytes
network_id_to_bytes-reverse s h = pack_chunks-push_bits (reverse s) (All-reverse s h)

-- Two custom networks have the same bytes for domain hashing only if they have the same name.
pub into_bytes-injective :
    (s t : Bytes)
    → All IsByte s
    → All IsByte t
    → into_bytes (custom s) ≡ into_bytes (custom t)
    → s ≡ t
unfolding into_bytes
into_bytes-injective s t hs ht e =
    sym (reverse-reverse s)
    ∙ ap reverse (sym (network_id_to_bytes-reverse s hs) ∙ e ∙ network_id_to_bytes-reverse t ht)
    ∙ reverse-reverse t
