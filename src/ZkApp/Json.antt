-- ===== src/ZkApp/Json.antt =====
-- The serde forms of a zkApp command that are written by hand
-- (mina-tx/src/transactions/zkapp_tx/zkapp_serde.rs and the end of
-- mina-tx/src/transactions/zkapp_tx.rs), between the structs and the texts that serde_json writes and
-- reads. A JSON string is a list of bytes. The decimal text and the bytes of a field element, and
-- `CompressedPubKey::from_address`, are the interface `MinaText`.
pub mod Memo
pub mod RoundTrip
mod Tests
use mina_multi_sig.Base.{
  ℕ, zero, suc, ◌==◌, ◌≤◌, List, [], ◌∷◌, Option, none, some, Result, ok, err, ◌>>=◌, length, leb,
  if◌then◌else◌, Bool, true, false,
}
use mina_multi_sig.Text.{Bytes, ascii, bytes_eq, is_utf8}
use mina_multi_sig.Text.Decimal.{to_string, parse}
use mina_multi_sig.Base58.{Base58Crates, Base58Error, to_base58_check, from_base58_check}
use mina_multi_sig.ZkApp.Types.{Mina, ℤ, pos, negsuc, u32_max, u64_max, BalanceChange, FeePayerBody}
use mina_multi_sig.LegacyTx.{memo_bytes}

-- `MEMO_VERSION_BYTE` and `TOKEN_ID_VERSION_BYTE`
abbrev pub memo_version_byte : ℕ
memo_version_byte = 20

abbrev pub token_id_version_byte : ℕ
token_id_version_byte = 28

abbrev pub token_bytes : ℕ
token_bytes = 32

-- What the code takes of mina_signer and ark_ff to read and to write texts.
pub record MinaText (M : Mina) : Type 0 where
  pub from_address : Bytes → Option M.CompressedPubKey
  pub fp_to_string : M.Fp → Bytes
  pub fp_parse : Bytes → Option M.Fp
  pub fp_to_bytes_le : M.Fp → Bytes
  pub from_le_bytes_mod_order : Bytes → M.Fp

-- The messages that `serde::de::Error::custom` and `serde::ser::Error::custom` wrap.
pub data SerdeError : Type 0 where
  invalid_address : SerdeError
  invalid_field : SerdeError
  invalid_number : SerdeError
  bad_base58 : Base58Error → SerdeError
  invalid_memo_length : ℕ → ℕ → SerdeError
  missing_memo_header : SerdeError
  failed_to_convert_token_id : SerdeError
  invalid_token_id_length : ℕ → ℕ → SerdeError
  invalid_utf8 : SerdeError
  token_symbol_too_long : SerdeError
  sign_zero : SerdeError
  invalid_sign : SerdeError

-- `map_err(custom)?` on a value of another crate.
abbrev pub ok_or : {A : Type 0} → SerdeError → Option A → Result SerdeError A
ok_or e none = err e
ok_or e (some a) = ok a

abbrev custom_base58 : {A : Type 0} → Result Base58Error A → Result SerdeError A
custom_base58 (ok a) = ok a
custom_base58 (err e) = err (bad_base58 e)

unfoldable pub serialize_u64_string : ℕ → Bytes
serialize_u64_string value = to_string value

unfoldable pub deserialize_u64_string : Bytes → Result SerdeError ℕ
deserialize_u64_string s = ok_or invalid_number (parse u64_max s)

unfoldable pub serialize_u32_string : ℕ → Bytes
serialize_u32_string value = to_string value

unfoldable pub deserialize_u32_string : Bytes → Result SerdeError ℕ
deserialize_u32_string s = ok_or invalid_number (parse u32_max s)

-- `serialize_none` writes null.
unfoldable pub serialize_option_u32_string : Option ℕ → Option Bytes
serialize_option_u32_string none = none
serialize_option_u32_string (some v) = some (to_string v)

unfoldable pub deserialize_option_u32_string : Option Bytes → Result SerdeError (Option ℕ)
deserialize_option_u32_string none = ok none
deserialize_option_u32_string (some s) = do v ← ok_or invalid_number (parse u32_max s); ok (some v)

unfoldable pub serialize_sign : ℤ → Result SerdeError Bytes
serialize_sign (pos zero) = err sign_zero
serialize_sign (pos (suc n)) = ok (ascii "Positive")
serialize_sign (negsuc n) = ok (ascii "Negative")

unfoldable pub deserialize_sign : Bytes → Result SerdeError ℤ
deserialize_sign s =
    if bytes_eq s (ascii "Positive")
    then ok (pos 1)
    else if bytes_eq s (ascii "Negative")
    then ok (negsuc 0)
    else err invalid_sign

-- `TokenSymbol::from_str`
unfoldable pub symbol_from_str : Bytes → Result SerdeError Bytes
symbol_from_str s = if leb (length s) 6 then ok s else err token_symbol_too_long

-- The `Serialize` of `TokenSymbol`.
unfoldable pub serialize_symbol : Bytes → Result SerdeError Bytes
serialize_symbol symbol = if is_utf8 symbol then ok symbol else err invalid_utf8

-- The `Deserialize` of `TokenSymbol`.
unfoldable pub deserialize_symbol : Bytes → Result SerdeError Bytes
deserialize_symbol s = symbol_from_str s

-- `ZkappUri::from_str`
unfoldable pub uri_from_str : Bytes → Result SerdeError Bytes
uri_from_str s = ok s

-- The `Serialize` of `ZkappUri`.
unfoldable pub serialize_uri : Bytes → Result SerdeError Bytes
serialize_uri uri = if is_utf8 uri then ok uri else err invalid_utf8

-- The `Deserialize` of `ZkappUri`.
unfoldable pub deserialize_uri : Bytes → Result SerdeError Bytes
deserialize_uri s = uri_from_str s

-- `decoded.first() == Some(&0x01)`
abbrev pub starts_with_one : Bytes → Bool
starts_with_one [] = false
starts_with_one (b ∷ bs) = b == 1

module _ (B : Base58Crates) where
  unfoldable pub memo_serde : Bytes → Bytes
  memo_serde memo = to_base58_check B memo memo_version_byte

  -- The checks of the decoded bytes, in their order.
  unfoldable pub check_memo : Bytes → Result SerdeError Bytes
  check_memo decoded =
      if length decoded == memo_bytes
      then if starts_with_one decoded then ok decoded else err missing_memo_header
      else err (invalid_memo_length memo_bytes (length decoded))

  unfoldable pub memo_deser : Bytes → Result SerdeError Bytes
  memo_deser s = do
    decoded ← custom_base58 (from_base58_check B s memo_version_byte)
    check_memo decoded

module _ (M : Mina) (T : MinaText M) where
  unfoldable pub serialize_public_key : M.CompressedPubKey → Bytes
  serialize_public_key key = M.into_address key

  unfoldable pub deserialize_public_key : Bytes → Result SerdeError M.CompressedPubKey
  deserialize_public_key s = ok_or invalid_address (T.from_address s)

  unfoldable pub serialize_field : M.Fp → Bytes
  serialize_field f = T.fp_to_string f

  unfoldable pub deserialize_field : Bytes → Result SerdeError M.Fp
  deserialize_field s = ok_or invalid_field (T.fp_parse s)

  -- `to_bytes_le().try_into()` to an array of 32 bytes.
  unfoldable pub serialize_token_id : Base58Crates → M.Fp → Result SerdeError Bytes
  serialize_token_id B id =
      let token_id_bytes : Bytes = T.fp_to_bytes_le id in
      if length token_id_bytes == token_bytes
      then ok (to_base58_check B token_id_bytes token_id_version_byte)
      else err failed_to_convert_token_id

  unfoldable pub check_token_id : Bytes → Result SerdeError M.Fp
  check_token_id decoded =
      if length decoded == token_bytes
      then ok (T.from_le_bytes_mod_order decoded)
      else err (invalid_token_id_length token_bytes (length decoded))

  unfoldable pub deserialize_token_id : Base58Crates → Bytes → Result SerdeError M.Fp
  deserialize_token_id B s = do
    decoded ← custom_base58 (from_base58_check B s token_id_version_byte)
    check_token_id decoded

-- The JSON objects of `FeePayerBody` and `BalanceChange`.
pub record FeePayerBodyText : Type 0 where
  pub public_key : Bytes
  pub fee : Bytes
  pub valid_until : Option Bytes
  pub nonce : Bytes

pub record BalanceChangeText : Type 0 where
  pub magnitude : Bytes
  pub sgn : Bytes

unfoldable pub serialize_balance_change : BalanceChange → Result SerdeError BalanceChangeText
serialize_balance_change b = do
  sgn ← serialize_sign b.sgn
  ok (record { magnitude = serialize_u64_string b.magnitude; sgn = sgn })

unfoldable pub deserialize_balance_change : BalanceChangeText → Result SerdeError BalanceChange
deserialize_balance_change t = do
  magnitude ← deserialize_u64_string t.magnitude
  sgn ← deserialize_sign t.sgn
  ok (record { magnitude = magnitude; sgn = sgn })

module _ (M : Mina) (T : MinaText M) where
  unfoldable pub serialize_fee_payer_body : FeePayerBody M → FeePayerBodyText
  serialize_fee_payer_body b = record {
    public_key = serialize_public_key M T b.public_key;
    fee = serialize_u64_string b.fee;
    valid_until = serialize_option_u32_string b.valid_until;
    nonce = serialize_u32_string b.nonce;
  }

  unfoldable pub deserialize_fee_payer_body : FeePayerBodyText → Result SerdeError (FeePayerBody M)
  deserialize_fee_payer_body t = do
    public_key ← deserialize_public_key M T t.public_key
    fee ← deserialize_u64_string t.fee
    valid_until ← deserialize_option_u32_string t.valid_until
    nonce ← deserialize_u32_string t.nonce
    ok (record { public_key = public_key; fee = fee; valid_until = valid_until; nonce = nonce })
