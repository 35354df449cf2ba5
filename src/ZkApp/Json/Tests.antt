-- ===== src/ZkApp/Json/Tests.antt =====
-- Runs of mina-tx/src/transactions/zkapp_tx/zkapp_serde.rs, with texts that are their own bytes.
use mina_multi_sig.Base.{
  ℕ, ◌≡◌, refl, ◌++◌, [], ◌∷◌, none, some, Option, ok, err, replicate, length-replicate, arith,
  ◌>>=◌,
}
use mina_multi_sig.Text.{Bytes, ascii, is_utf8}
use mina_multi_sig.Base58.Samples.{sum_of, plain}
use mina_multi_sig.ZkApp.Types.{FeePayerBody, negsuc}
use mina_multi_sig.ZkApp.Samples.{small}
use mina_multi_sig.ZkApp.Packing.Basic.{to_bytes}
use mina_multi_sig.ZkApp.Json.{
  MinaText, memo_deser, memo_serde, missing_memo_header, invalid_memo_length, sign_zero,
  deserialize_fee_payer_body, serialize_fee_payer_body, serialize_balance_change,
  deserialize_balance_change, deserialize_symbol, serialize_symbol, token_symbol_too_long,
}
use mina_multi_sig.ZkApp.Json.Memo.{memo_deser-memo_serde}
use mina_multi_sig.ZkApp.Json.RoundTrip.{
  IsWritable, deserialize-serialize_fee_payer_body, balance_change_read_back,
  deserialize_symbol-packs,
}

abbrev hello : Bytes
hello = 1 ∷ 5 ∷ (ascii "hello" ++ replicate 27 0)

-- The memo of `ZKAppCommand::default()`.
abbrev default_memo : Bytes
default_memo = replicate 34 0

memo_deser-memo_serde_example : memo_deser plain (memo_serde plain hello) ≡ ok hello
memo_deser-memo_serde_example =
    memo_deser-memo_serde plain hello refl (λ b. refl) (λ b. length-replicate 32 (sum_of b))

default_memo-refused : memo_deser plain (memo_serde plain default_memo) ≡ err missing_memo_header
default_memo-refused =
    memo_deser-memo_serde plain default_memo refl (λ b. refl) (λ b. length-replicate 32 (sum_of b))

short_memo-refused : memo_deser plain (memo_serde plain (1 ∷ [])) ≡ err (invalid_memo_length 34 1)
unfolding memo_deser memo_serde mina_multi_sig.Base58.from_base58_check
    mina_multi_sig.Base58.check_bytes mina_multi_sig.Base58.to_base58_check
    mina_multi_sig.Base58.compute_checksum mina_multi_sig.ZkApp.Json.check_memo
short_memo-refused = refl

abbrev first : Bytes → Option ℕ
first [] = none
first (b ∷ bs) = some b

-- A key is its own byte.
abbrev plain_text : MinaText small
plain_text = record {
  from_address = first;
  fp_to_string = λ f. f ∷ [];
  fp_parse = first;
  fp_to_bytes_le = λ f. f ∷ replicate 31 0;
  from_le_bytes_mod_order = λ b. sum_of b;
}

abbrev payer : FeePayerBody small
payer = record { public_key = 5; fee = 1000000; valid_until = some 500; nonce = 42 }

payer-IsWritable : IsWritable small plain_text payer
payer-IsWritable = record {
  public_key = refl;
  fee = omega arith;
  valid_until = omega arith;
  nonce = omega arith;
}

payer-read_back :
    deserialize_fee_payer_body small plain_text (serialize_fee_payer_body small plain_text payer)
    ≡ ok payer
payer-read_back = deserialize-serialize_fee_payer_body small plain_text payer payer-IsWritable

minus_three-read_back :
    (serialize_balance_change (record { magnitude = 7; sgn = negsuc 2 })
      >>= deserialize_balance_change)
    ≡ ok (record { magnitude = 7; sgn = negsuc 0 })
minus_three-read_back =
    balance_change_read_back (record { magnitude = 7; sgn = negsuc 2 }) (omega arith)

seven_letters-refused : deserialize_symbol (ascii "LETTERS") ≡ err token_symbol_too_long
unfolding deserialize_symbol mina_multi_sig.ZkApp.Json.symbol_from_str
seven_letters-refused = refl

mock-packs :
    (serialize_symbol (ascii "MOCK") ≡ ok (ascii "MOCK"))
    × (to_bytes (ascii "MOCK") (replicate 6 0) ≡ some (ascii "MOCK" ++ 0 ∷ 0 ∷ []))
unfolding deserialize_symbol is_utf8 mina_multi_sig.ZkApp.Json.symbol_from_str
mock-packs = deserialize_symbol-packs (ascii "MOCK") (ascii "MOCK") refl refl
