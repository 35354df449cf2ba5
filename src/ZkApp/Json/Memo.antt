-- ===== src/ZkApp/Json/Memo.antt =====
-- Which texts are memos.
use mina_multi_sig.Base.{
  subst, ◌≡◌, refl, true, ◌∷◌, ◌++◌, length, some, ok, err, if◌then◌else◌, Result-cases, inl, inr,
  arith,
}
use mina_multi_sig.Text.{Bytes}
use mina_multi_sig.Base58.{Base58Crates, compute_checksum, from_base58_check}
use mina_multi_sig.Base58.RoundTrip.{from_base58_check-to_base58_check, from_base58_check-ok}
use mina_multi_sig.ZkApp.Json.{
  missing_memo_header, check_memo, memo_deser, memo_serde, memo_version_byte, starts_with_one,
}

module _ (B : Base58Crates) where
  open B use {digest, encode, decode}

  check_memo_lem :
      (memo : Bytes)
      → length memo ≡ 34
      → check_memo B memo ≡ (if starts_with_one memo then ok memo else err missing_memo_header)
  unfolding check_memo
  check_memo_lem memo h = rw (h, check_memo) refl

  -- A memo of 34 bytes that is written is read back if its first byte is 1, and is refused if it is
  -- not, where bs58 decodes what it encodes and SHA-256 gives 32 bytes.
  pub memo_deser-memo_serde :
      (memo : Bytes)
      → length memo ≡ 34
      → ((bytes : Bytes) → decode (encode bytes) ≡ some bytes)
      → ((bytes : Bytes) → length (digest bytes) ≡ 32)
      → memo_deser B (memo_serde B memo)
        ≡ (if starts_with_one memo then ok memo else err missing_memo_header)
  unfolding memo_deser memo_serde
  memo_deser-memo_serde memo h back size =
      rw (from_base58_check-to_base58_check B memo memo_version_byte back size, memo_deser)
        (check_memo_lem memo h)

  check_memo-ok :
      (decoded memo : Bytes)
      → check_memo B decoded ≡ ok memo
      → (decoded ≡ memo) × (length memo ≡ 34) × (starts_with_one memo ≡ true)
  unfolding check_memo
  check_memo-ok decoded memo h =
      let same : decoded ≡ memo = ground arith in (same, ground (arith, same), ground (arith, same))

  -- A text is read to a memo only if it stands for the version byte, the memo and their checksum, and
  -- the memo has 34 bytes, of which the first is 1.
  pub memo_deser-ok :
      (s memo : Bytes)
      → memo_deser B s ≡ ok memo
      → (length memo ≡ 34)
        × (starts_with_one memo ≡ true)
        × (decode s
            ≡ some (memo_version_byte ∷ (memo ++ compute_checksum B (memo_version_byte ∷ memo))))
  unfolding memo_deser
  memo_deser-ok s memo h = elim (Result-cases (from_base58_check B s memo_version_byte)) [
    | inr (e, bad) ↦ absurd (ground (arith, bad))
    | inl (decoded, good) ↦
        let checked : check_memo B decoded ≡ ok memo = ground (arith, good) in
        let (same, size, head) = check_memo-ok decoded memo checked in
        let read = from_base58_check-ok B s memo_version_byte decoded good in
        (
          size,
          head,
          subst
              (λ m.
                decode s
                ≡ some (memo_version_byte ∷ (m ++ compute_checksum B (memo_version_byte ∷ m))))
              same read,
        )
  ]
