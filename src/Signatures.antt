-- ===== src/Signatures.antt =====
-- mina-tx/src/signatures.rs: the bytes and the text of a signature, and its serde form. The decimal
-- text of `ark_ff::BigInt` is the interface `BigIntText`.
pub mod Text58
mod Tests
use mina_multi_sig.Base.{
  ℕ, ◌^◌, ◌<◌, ◌≡◌, List, [], ◌∷◌, ◌++◌, Option, none, some, Result, ok, err, length, All,
}
use mina_multi_sig.Text.{Bytes}
use mina_multi_sig.Text.LittleEndian.{le_bytes}
use mina_multi_sig.Base58.{Base58Crates, to_base58_check}

-- `SIGNATURE_VERSION_BYTE` and `SIGNATURE_VERSION_NUMBER`
abbrev pub signature_version_byte : ℕ
signature_version_byte = 154

abbrev pub signature_version_number : ℕ
signature_version_number = 1

-- `BigInt<4>`: four limbs of 64 bits, the lowest first.
abbrev pub BigInt4 : Type 0
BigInt4 = List ℕ

abbrev pub IsBigInt4 : BigInt4 → Type 0
IsBigInt4 limbs = (length limbs ≡ 4) × All (λ limb. limb < 2 ^ 64) limbs

pub record Sig : Type 0 where
  pub field_value : BigInt4
  pub scalar : BigInt4

-- Limb `i` stands at the bytes from `8 * i` on.
abbrev pub bigint_to_bytes : BigInt4 → Bytes
bigint_to_bytes [] = []
bigint_to_bytes (limb ∷ limbs) = le_bytes 8 limb ++ bigint_to_bytes limbs

unfoldable pub to_bytes : Sig → Bytes
to_bytes sig =
    signature_version_number ∷ (bigint_to_bytes sig.field_value ++ bigint_to_bytes sig.scalar)

unfoldable pub to_base58 : Base58Crates → Sig → Bytes
to_base58 B sig = to_base58_check B (to_bytes sig) signature_version_byte

pub record BigIntText : Type 0 where
  pub print : BigInt4 → Bytes
  pub parse : Bytes → Option BigInt4

-- What serde_json writes of a signature. A reader ignores `base58`.
pub record SigHelper : Type 0 where
  pub field_text : Bytes
  pub scalar_text : Bytes
  pub base58 : Option Bytes

pub data SigError : Type 0 where
  failed_to_parse_field : SigError
  failed_to_parse_scalar : SigError

module _ (B : Base58Crates) (T : BigIntText) where
  unfoldable pub serialize : Sig → SigHelper
  serialize sig = record {
    field_text = T.print sig.field_value;
    scalar_text = T.print sig.scalar;
    base58 = some (to_base58 B sig);
  }

unfoldable pub deserialize : BigIntText → SigHelper → Result SigError Sig
deserialize T helper = elim (T.parse helper.field_text) [
  | none ↦ err failed_to_parse_field
  | some f ↦ elim (T.parse helper.scalar_text) [
    | none ↦ err failed_to_parse_scalar
    | some s ↦ ok (record { field_value = f; scalar = s })
  ]
]
