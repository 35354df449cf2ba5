-- ===== src/NetworkId/Domain.antt =====
-- The domain strings: their length, and which networks they tell apart.
use mina_multi_sig.Base.{
  append_assoc, false, sym, ℕ, zero, suc, ◌+◌, ◌-◌, ◌≤◌, ◌≡◌, ◌≢◌, refl, sym, ◌∙◌, true, false, [],
  ◌∷◌, ◌++◌, leb, length, length-append, length-replicate, replicate, arith, append_assoc,
  Bool-cases, inl, inr,
}
use mathlib.Core.List.{append_cancel_right}
use mina_multi_sig.Text.{Bytes, ascii, take_chars, IsAscii}
use mina_multi_sig.NetworkId.{
  custom, create_custom_prefix, into_domain_string, max_prefix_length, padding_char,
}

take_chars-length : (n : ℕ) (s : Bytes) → IsAscii s → n ≤ length s → length (take_chars n s) ≡ n
unfolding take_chars
take_chars-length zero [] a h = refl
take_chars-length (suc n) [] a h = absurd (omega arith)
take_chars-length zero (b ∷ bs) a h = ground arith
take_chars-length (suc n) (b ∷ bs) a h = ground (arith, take_chars-length n bs a.1)

-- A prefix of ASCII characters is padded or cut to exactly 20 bytes.
pub create_custom_prefix-length :
    (s : Bytes) → IsAscii s → length (create_custom_prefix s) ≡ max_prefix_length
unfolding create_custom_prefix
create_custom_prefix-length s a = elim (Bool-cases (leb (length s) 20)) [
  | inl short ↦ rw short (
      omega (
        arith,
        length-append s (replicate (20 - length s) 42),
        length-replicate {A = ℕ} (20 - length s) 42,
        short_le s short,
      ))
  | inr long ↦ rw long (take_chars-length 20 s a (ground arith))
]
  where
    short_le : (t : Bytes) → leb (length t) 20 ≡ true → length t ≤ 20
    short_le t h = ground arith

-- Only the padding follows the last byte that is not the padding.
replicate-append : (j c p : ℕ) (ys zs : Bytes) → replicate j p ≡ ys ++ c ∷ zs → c ≡ p
replicate-append zero c p [] zs e = cc
replicate-append zero c p (y ∷ ys) zs e = cc
replicate-append (suc j) c p [] zs e = cc
replicate-append (suc j) c p (y ∷ ys) zs e = replicate-append j c p ys zs (cc)

last_before_padding :
    (xs ys : Bytes) (c p j k : ℕ)
    → c ≢ p
    → xs ++ c ∷ replicate j p ≡ ys ++ c ∷ replicate k p
    → xs ≡ ys
last_before_padding [] [] c p j k h e = refl
last_before_padding [] (y ∷ ys) c p j k h e =
    absurd (h (replicate-append j c p ys (replicate k p) (cc)))
last_before_padding (x ∷ xs) [] c p j k h e =
    absurd (h (replicate-append k c p xs (replicate j p) (cc)))
last_before_padding (x ∷ xs) (y ∷ ys) c p j k h e = cc (last_before_padding xs ys c p j k h (cc))

short_domain :
    (s : Bytes)
    → length s ≤ 11
    → into_domain_string (custom s)
      ≡ (s ++ ascii "Signatur") ++ b'e' ∷ replicate (11 - length s) padding_char
unfolding into_domain_string create_custom_prefix
short_domain s h =
    let name : Bytes = s ++ ascii "Signature" in
    let size : length name ≡ length s + 9 = length-append s (ascii "Signature") in
    let fits : leb (length name) 20 ≡ true = ground (arith, size) in
    let room : 20 - length name ≡ 11 - length s = omega (arith, size) in
    rw (fits, room)
      (append_assoc s (ascii "Signature") (replicate (11 - length s) padding_char)
        ∙ sym (append_assoc s (ascii "Signatur") (b'e' ∷ replicate (11 - length s) padding_char)))

-- Two custom networks with names of at most 11 bytes have different domain strings.
pub into_domain_string-injective :
    (s t : Bytes)
    → length s ≤ 11
    → length t ≤ 11
    → into_domain_string (custom s) ≡ into_domain_string (custom t)
    → s ≡ t
into_domain_string-injective s t hs ht e = append_cancel_right s t (ascii "Signatur") (
    last_before_padding (s ++ ascii "Signatur") (t ++ ascii "Signatur") b'e' padding_char
      (11 - length s) (11 - length t) (omega arith)
      (sym (short_domain s hs) ∙ e ∙ short_domain t ht))

take_chars-append : (a r : Bytes) → IsAscii a → IsAscii r → take_chars (length a) (a ++ r) ≡ a
unfolding take_chars
take_chars-append [] [] h g = refl
take_chars-append [] (b ∷ bs) h g = ground arith
take_chars-append (x ∷ xs) r h g = ground (arith, take_chars-append xs r h.1 g)

IsAscii-append : (a b : Bytes) → IsAscii a → IsAscii b → IsAscii (a ++ b)
IsAscii-append [] b h g = g
IsAscii-append (x ∷ xs) b h g = (h.0, IsAscii-append xs b h.1 g)

-- The domain string of a custom name of ASCII characters that is 20 bytes or longer is its first 20
-- bytes, so a name that begins with another network's domain string of 20 bytes gets that very one.
pub into_domain_string-long :
    (a s : Bytes)
    → IsAscii a
    → IsAscii s
    → length a ≡ max_prefix_length
    → into_domain_string (custom (a ++ s)) ≡ a
unfolding into_domain_string create_custom_prefix
into_domain_string-long a s ha hs l =
    let name : Bytes = (a ++ s) ++ ascii "Signature" in
    let size : length name ≡ 20 + length s + 9 =
      omega (arith, length-append (a ++ s) (ascii "Signature"), length-append a s) in
    let long : leb (length name) 20 ≡ false = ground (arith, size) in
    rw (long, append_assoc a s (ascii "Signature"), sym l)
      (take_chars-append a (s ++ ascii "Signature") ha
        (IsAscii-append s (ascii "Signature") hs (omega arith)))
