-- ===== src/Base58.antt =====
-- mina-tx/src/base58.rs: base58check, over the crates sha2 and bs58.
pub mod RoundTrip
pub mod Samples
mod Tests
use mina_multi_sig.Base.{
  ℕ, ◌+◌, ◌-◌, ◌==◌, List, [], ◌∷◌, ◌++◌, ltb, if◌then◌else◌, length, take, drop, Option, none,
  some, Result, ok, err,
}
use mina_multi_sig.Text.{Bytes, bytes_eq}

-- `Sha256::digest`, `bs58::encode` and `bs58::decode`.
pub record Base58Crates : Type 0 where
  pub digest : Bytes → Bytes
  pub encode : Bytes → Bytes
  pub decode : Bytes → Option Bytes

pub data Base58Error : Type 0 where
  invalid_base58 : Base58Error
  too_short : Base58Error
  invalid_version_byte : ℕ → ℕ → Base58Error
  invalid_checksum : Base58Error
  invalid_length : ℕ → ℕ → Base58Error

module _ (B : Base58Crates) where
  open B use {digest, encode, decode}

  unfoldable pub compute_checksum : Bytes → Bytes
  compute_checksum input = take 4 (digest (digest input))

  unfoldable pub to_base58_check : Bytes → ℕ → Bytes
  to_base58_check input version_byte =
      let with_version : Bytes = version_byte ∷ input in
      encode (with_version ++ compute_checksum with_version)

  -- The checks of the decoded bytes, in their order.
  unfoldable pub check_bytes : Bytes → ℕ → Result Base58Error Bytes
  check_bytes [] expected_version_byte = err too_short
  check_bytes (version_byte ∷ rest) expected_version_byte =
      let payload_with_version : Bytes = take (length rest + 1 - 4) (version_byte ∷ rest) in
      let provided_checksum : Bytes = drop (length rest + 1 - 4) (version_byte ∷ rest) in
      if ltb (length rest + 1) 5
      then err too_short
      else if version_byte == expected_version_byte
      then if bytes_eq provided_checksum (compute_checksum payload_with_version)
        then ok (drop 1 payload_with_version)
        else err invalid_checksum
      else err (invalid_version_byte expected_version_byte version_byte)

  unfoldable pub from_base58_check : Bytes → ℕ → Result Base58Error Bytes
  from_base58_check input expected_version_byte = elim (decode input) [
    | none ↦ err invalid_base58
    | some bytes ↦ check_bytes bytes expected_version_byte
  ]
