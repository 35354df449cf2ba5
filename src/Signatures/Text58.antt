-- ===== src/Signatures/Text58.antt =====
-- The base58 text of a signature stands for that signature only.
use mina_multi_sig.Base.{
  ◌*◌, ◌^◌, ◌<◌, ◌≡◌, refl, sym, ap, ◌∙◌, [], ◌∷◌, some, ok-inj, length, All, arith, length-append,
  drop,
}
use mina_multi_sig.Text.{Bytes}
use mina_multi_sig.Text.LittleEndian.{le_bytes, length-le_bytes, append-inj, le_bytes-inj}
use mina_multi_sig.Base58.{Base58Crates, from_base58_check}
use mina_multi_sig.Base58.RoundTrip.{from_base58_check-to_base58_check}
use mina_multi_sig.Signatures.{
  Sig, BigInt4, IsBigInt4, bigint_to_bytes, to_bytes, to_base58, signature_version_byte,
}

bigint_to_bytes-length : (limbs : BigInt4) → length (bigint_to_bytes limbs) ≡ 8 * length limbs
bigint_to_bytes-length [] = refl
bigint_to_bytes-length (limb ∷ limbs) = omega (
  arith,
  length-append (le_bytes 8 limb) (bigint_to_bytes limbs),
  length-le_bytes 8 limb,
  bigint_to_bytes-length limbs,
)

bigint_to_bytes-inj :
    (xs ys : BigInt4)
    → length xs ≡ length ys
    → All (λ limb. limb < 2 ^ 64) xs
    → All (λ limb. limb < 2 ^ 64) ys
    → bigint_to_bytes xs ≡ bigint_to_bytes ys
    → xs ≡ ys
bigint_to_bytes-inj [] [] l hx hy e = refl
bigint_to_bytes-inj [] (y ∷ ys) l hx hy e = absurd (omega arith)
bigint_to_bytes-inj (x ∷ xs) [] l hx hy e = absurd (omega arith)
bigint_to_bytes-inj (x ∷ xs) (y ∷ ys) l hx hy e =
    let (limb, rest) =
      append-inj (le_bytes 8 x) (le_bytes 8 y) (bigint_to_bytes xs) (bigint_to_bytes ys) refl e in
    ap (λ n. n ∷ xs) (le_bytes-inj 8 x y (omega (arith, hx.0)) (omega (arith, hy.0)) limb)
    ∙ ap (◌∷◌ y) (bigint_to_bytes-inj xs ys (omega arith) hx.1 hy.1 rest)

-- Both numbers have four limbs of 64 bits.
pub record IsSig (sig : Sig) : Type 0 where
  pub field_value : IsBigInt4 sig.field_value
  pub scalar : IsBigInt4 sig.scalar

to_bytes-inj : (s t : Sig) → IsSig s → IsSig t → to_bytes s ≡ to_bytes t → s ≡ t
unfolding to_bytes
to_bytes-inj s t hs ht e =
    let (f, r) =
      append-inj (bigint_to_bytes s.field_value) (bigint_to_bytes t.field_value)
        (bigint_to_bytes s.scalar) (bigint_to_bytes t.scalar)
        (omega (
          arith,
          bigint_to_bytes-length s.field_value,
          bigint_to_bytes-length t.field_value,
          hs.field_value.0,
          ht.field_value.0,
        ))
        (ap (drop 1) e) in
    let same_field =
      bigint_to_bytes-inj s.field_value t.field_value (hs.field_value.0 ∙ sym ht.field_value.0)
        hs.field_value.1 ht.field_value.1 f in
    let same_scalar =
      bigint_to_bytes-inj s.scalar t.scalar (hs.scalar.0 ∙ sym ht.scalar.0) hs.scalar.1 ht.scalar.1
        r in
    λ i. record { field_value = same_field i; scalar = same_scalar i }

-- A signature has 65 bytes: the version number, and 32 for each number.
pub length-to_bytes : (sig : Sig) → IsSig sig → length (to_bytes sig) ≡ 65
unfolding to_bytes
length-to_bytes sig h = omega (
  arith,
  length-append (bigint_to_bytes sig.field_value) (bigint_to_bytes sig.scalar),
  bigint_to_bytes-length sig.field_value,
  bigint_to_bytes-length sig.scalar,
  h.field_value.0,
  h.scalar.0,
)

module _ (B : Base58Crates) where
  -- Two signatures have the same text only if they are the same, where bs58 decodes what it encodes
  -- and SHA-256 gives 32 bytes.
  pub to_base58-injective :
      (s t : Sig)
      → IsSig s
      → IsSig t
      → ((bytes : Bytes) → B.decode (B.encode bytes) ≡ some bytes)
      → ((bytes : Bytes) → length (B.digest bytes) ≡ 32)
      → to_base58 B s ≡ to_base58 B t
      → s ≡ t
  unfolding to_base58
  to_base58-injective s t hs ht decodes digests e =
      let back_s =
        from_base58_check-to_base58_check B (to_bytes s) signature_version_byte decodes digests in
      let back_t =
        from_base58_check-to_base58_check B (to_bytes t) signature_version_byte decodes digests in
      to_bytes-inj s t hs ht (
        ok-inj
          (sym back_s ∙ ap (λ text. from_base58_check B text signature_version_byte) e ∙ back_t))
