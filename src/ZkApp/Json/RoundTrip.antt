-- ===== src/ZkApp/Json/RoundTrip.antt =====
-- What is written of the parts of a command is read back.
use mina_multi_sig.Base.{
  ℕ, zero, suc, ◌≡◌, refl, ◌≤◌, ◌-◌, ◌++◌, true, Option, none, some, Result, ok, err, ◌>>=◌, length,
  replicate, inl, inr, arith,
}
use mina_multi_sig.Text.{Bytes, is_utf8}
use mina_multi_sig.Text.Decimal.RoundTrip.{parse-to_string}
use mina_multi_sig.Base58.{Base58Crates}
use mina_multi_sig.Base58.RoundTrip.{from_base58_check-to_base58_check}
use mina_multi_sig.ZkApp.Types.{Mina, ℤ, pos, negsuc, u32_max, u64_max, BalanceChange, FeePayerBody}
use mina_multi_sig.ZkApp.Packing.Basic.{to_bytes}
use mina_multi_sig.ZkApp.Packing.Total.{to_bytes_lem}
use mina_multi_sig.ZkApp.Json.{
  serialize_public_key, symbol_from_str, deserialize_public_key, check_token_id, MinaText,
  SerdeError, sign_zero, serialize_u64_string, deserialize_u64_string, serialize_u32_string,
  deserialize_u32_string, serialize_option_u32_string, deserialize_option_u32_string,
  serialize_sign, deserialize_sign, serialize_balance_change, deserialize_balance_change,
  serialize_fee_payer_body, deserialize_fee_payer_body, serialize_token_id, deserialize_token_id,
  token_id_version_byte, serialize_symbol, deserialize_symbol,
}

deserialize_u64_string-serialize_u64_string :
    (n : ℕ) → n ≤ u64_max → deserialize_u64_string (serialize_u64_string n) ≡ ok n
unfolding deserialize_u64_string serialize_u64_string
deserialize_u64_string-serialize_u64_string n fits =
    rw (parse-to_string u64_max n fits (omega (arith, fits)), deserialize_u64_string) refl

deserialize_u32_string-serialize_u32_string :
    (n : ℕ) → n ≤ u32_max → deserialize_u32_string (serialize_u32_string n) ≡ ok n
unfolding deserialize_u32_string serialize_u32_string
deserialize_u32_string-serialize_u32_string n fits =
    rw (parse-to_string u32_max n fits (omega (arith, fits)), deserialize_u32_string) refl

abbrev pub FitsU32 : Option ℕ → Type 0
FitsU32 none = Unit
FitsU32 (some n) = n ≤ u32_max

deserialize_option-serialize_option :
    (n : Option ℕ)
    → FitsU32 n
    → deserialize_option_u32_string (serialize_option_u32_string n) ≡ ok n
unfolding deserialize_option_u32_string serialize_option_u32_string
deserialize_option-serialize_option none fits = refl
deserialize_option-serialize_option (some n) fits =
    rw (parse-to_string u32_max n fits (omega (arith, fits)), deserialize_option_u32_string) refl

-- What `sgn` becomes when it is written and read.
abbrev signum : ℤ → Result SerdeError ℤ
signum (pos zero) = err sign_zero
signum (pos (suc n)) = ok (pos 1)
signum (negsuc n) = ok (negsuc 0)

abbrev pub with_signum : BalanceChange → Result SerdeError BalanceChange
with_signum b = do sgn ← signum b.sgn; ok (record { magnitude = b.magnitude; sgn = sgn })

change_read_back :
    (magnitude : ℕ) (sgn : ℤ)
    → magnitude ≤ u64_max
    → (serialize_balance_change (record { magnitude = magnitude; sgn = sgn })
        >>= deserialize_balance_change)
      ≡ with_signum (record { magnitude = magnitude; sgn = sgn })
unfolding serialize_balance_change deserialize_balance_change serialize_sign deserialize_sign
change_read_back m (pos zero) fits = refl
change_read_back m (pos (suc n)) fits = rw (deserialize_u64_string-serialize_u64_string m fits) refl
change_read_back m (negsuc n) fits = rw (deserialize_u64_string-serialize_u64_string m fits) refl

-- A balance change that is written is read back with the sign 1 or -1 for a number above or below 0,
-- and is not written if its sign is 0.
pub balance_change_read_back :
    (b : BalanceChange)
    → b.magnitude ≤ u64_max
    → (serialize_balance_change b >>= deserialize_balance_change) ≡ with_signum b
balance_change_read_back b fits = change_read_back b.magnitude b.sgn fits

module _ (M : Mina) (T : MinaText M) where
  -- The numbers fit their types, and the address of the key is read back.
  pub record IsWritable (b : FeePayerBody M) : Type 0 where
    pub public_key : T.from_address (M.into_address b.public_key) ≡ some b.public_key
    pub fee : b.fee ≤ u64_max
    pub valid_until : FitsU32 b.valid_until
    pub nonce : b.nonce ≤ u32_max

  -- The body of a fee payer whose numbers fit their types and whose address is read back is read as
  -- it was written.
  pub deserialize-serialize_fee_payer_body :
      (b : FeePayerBody M)
      → IsWritable b
      → deserialize_fee_payer_body M T (serialize_fee_payer_body M T b) ≡ ok b
  unfolding deserialize_fee_payer_body serialize_fee_payer_body deserialize_public_key
      serialize_public_key
  deserialize-serialize_fee_payer_body b h =
      rw
        (
          h.public_key,
          deserialize_u64_string-serialize_u64_string b.fee h.fee,
          deserialize_option-serialize_option b.valid_until h.valid_until,
          deserialize_u32_string-serialize_u32_string b.nonce h.nonce,
          deserialize_fee_payer_body,
        )
        refl

  -- A token id is read back as it was written, where a field element is 32 bytes, of which it is made
  -- again, bs58 decodes what it encodes and SHA-256 gives 32 bytes.
  pub token_id_read_back :
      (B : Base58Crates) (id : M.Fp)
      → length (T.fp_to_bytes_le id) ≡ 32
      → T.from_le_bytes_mod_order (T.fp_to_bytes_le id) ≡ id
      → ((bytes : Bytes) → B.decode (B.encode bytes) ≡ some bytes)
      → ((bytes : Bytes) → length (B.digest bytes) ≡ 32)
      → (serialize_token_id M T B id >>= deserialize_token_id M T B) ≡ ok id
  unfolding serialize_token_id deserialize_token_id check_token_id
  token_id_read_back B id size same back digests =
      rw
        (
          size,
          from_base58_check-to_base58_check B (T.fp_to_bytes_le id) token_id_version_byte back
              digests,
          size,
          same,
        )
        refl

-- A token symbol that was read is written as it was, and its packing does not panic: it fills the
-- buffer of six bytes with zeros.
pub deserialize_symbol-packs :
    (s symbol : Bytes)
    → is_utf8 s ≡ true
    → deserialize_symbol s ≡ ok symbol
    → (serialize_symbol symbol ≡ ok s)
      × (to_bytes symbol (replicate 6 0) ≡ some (symbol ++ replicate (6 - length symbol) 0))
unfolding deserialize_symbol serialize_symbol symbol_from_str
deserialize_symbol-packs s symbol text h =
    let same : s ≡ symbol = ground arith in
    let short : length symbol ≤ 6 = ground (arith, same) in
    elim (to_bytes_lem symbol) [
      | inl (fits, packed) ↦ (ground (arith, same), packed)
      | inr (long, bad) ↦ absurd (omega (arith, long, short))
    ]
