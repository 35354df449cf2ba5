-- ===== src/Base58/RoundTrip.antt =====
-- Which texts decode, and to what.
use mina_multi_sig.Base.{
  zero, ℕ, suc, ◌+◌, ◌-◌, ◌≤◌, ◌≡◌, refl, ap, true, false, [], ◌∷◌, ◌++◌, ltb, length, take, drop,
  some, ok, Option-cases, inl, inr, arith, take-append, drop-append, length-append, length-take,
}
use mina_multi_sig.Text.{Bytes, bytes_eq, bytes_eq→eq, bytes_eq_refl}
use mina_multi_sig.Base58.{
  Base58Crates, compute_checksum, to_base58_check, check_bytes, from_base58_check,
}

take-drop : (n : ℕ) (xs : Bytes) → take n xs ++ drop n xs ≡ xs
take-drop zero xs = refl
take-drop (suc n) [] = refl
take-drop (suc n) (x ∷ xs) = ap (◌∷◌ x) (take-drop n xs)

module _ (B : Base58Crates) where
  open B use {digest, encode, decode}

  compute_checksum-length :
      (input : Bytes) → length (digest (digest input)) ≡ 32 → length (compute_checksum B input) ≡ 4
  unfolding compute_checksum
  compute_checksum-length input h = omega (arith, h, length-take 4 (digest (digest input)))

  check_bytes-checksum :
      (payload : Bytes) (version : ℕ)
      → length (digest (digest (version ∷ payload))) ≡ 32
      → check_bytes B (version ∷ (payload ++ compute_checksum B (version ∷ payload))) version
        ≡ ok payload
  unfolding check_bytes
  check_bytes-checksum payload version h =
      let sum : Bytes = compute_checksum B (version ∷ payload) in
      let four : length sum ≡ 4 = compute_checksum-length (version ∷ payload) h in
      let size : length (payload ++ sum) + 1 - 4 ≡ length (version ∷ payload) =
        omega (arith, four, length-append payload sum) in
      let long : ltb (length (payload ++ sum) + 1) 5 ≡ false =
        ground (arith, four, length-append payload sum) in
      rw
        (
          size,
          long,
          take-append (version ∷ payload) sum,
          drop-append (version ∷ payload) sum,
          bytes_eq_refl sum,
        )
        (ground (arith, take-append payload sum))

  check_bytes-ok :
      (bytes : Bytes) (version : ℕ) (payload : Bytes)
      → check_bytes B bytes version ≡ ok payload
      → bytes ≡ version ∷ (payload ++ compute_checksum B (version ∷ payload))
  unfolding check_bytes
  check_bytes-ok [] version payload h = absurd (ground arith)
  check_bytes-ok (b ∷ rest) version payload h =
      let same : b ≡ version = ground arith in
      let long : 4 ≤ length rest = ground arith in
      let count : length rest + 1 - 4 ≡ suc (length rest - 4) = omega (arith, long) in
      let content : take (length rest - 4) rest ≡ payload = ground (arith, count) in
      let sums : bytes_eq (drop (length rest - 4) rest)
            (compute_checksum B (b ∷ take (length rest - 4) rest))
          ≡ true =
        ground (arith, count) in
      let sum : drop (length rest - 4) rest ≡ compute_checksum B (b ∷ take (length rest - 4) rest) =
        bytes_eq→eq _ _ sums in
      cc (same, content, sum, take-drop (length rest - 4) rest)

  -- A payload that is encoded under a version byte is decoded under it, where bs58 decodes what it
  -- encodes and SHA-256 gives 32 bytes.
  pub from_base58_check-to_base58_check :
      (payload : Bytes) (version : ℕ)
      → ((bytes : Bytes) → decode (encode bytes) ≡ some bytes)
      → ((bytes : Bytes) → length (digest bytes) ≡ 32)
      → from_base58_check B (to_base58_check B payload version) version ≡ ok payload
  unfolding from_base58_check to_base58_check
  from_base58_check-to_base58_check payload version back size =
      let with_sum : Bytes = version ∷ (payload ++ compute_checksum B (version ∷ payload)) in
      rw (back with_sum, from_base58_check)
        (check_bytes-checksum payload version (size (digest (version ∷ payload))))

  -- A text is decoded to a payload only if it stands for the version byte, the payload and their
  -- checksum.
  pub from_base58_check-ok :
      (input : Bytes) (version : ℕ) (payload : Bytes)
      → from_base58_check B input version ≡ ok payload
      → decode input ≡ some (version ∷ (payload ++ compute_checksum B (version ∷ payload)))
  unfolding from_base58_check
  from_base58_check-ok input version payload h = elim (Option-cases (decode input)) [
    | inl bad ↦ absurd (ground (arith, bad))
    | inr (bytes, good) ↦
        let e = check_bytes-ok bytes version payload (ground (arith, good)) in cc (good, e)
  ]
