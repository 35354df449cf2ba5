-- ===== src/LegacyTx/Tests.antt =====
-- Runs of mina-tx/src/transactions/legacy_tx.rs.
use mina_multi_sig.LegacyTx.Json.{TransactionData, serialize, deserialize, missing_amount}
use mina_multi_sig.LegacyTx.Json.RoundTrip.{Order, IsSendable, made, legacy_deserialize-serialize}
use mina_multi_sig.LegacyTx.Json.Plain.{IsPlain, deserialize-IsPlain}
use mina_multi_sig.Base.{
  Option, some, none, ℕ, ◌≡◌, ◌≤◌, refl, [], ◌∷◌, ◌++◌, replicate, returned, panicked, refused,
  arith,
}
use mina_multi_sig.Text.{Bytes, ascii}
use mina_multi_sig.ZkApp.Samples.{small}
use mina_multi_sig.LegacyTx.{
  LegacyTransaction, new_delegation, payment_tx_tag, delegation_tx_tag, new_payment, char_count,
  padded, set_memo_str, get_memo_string, memo_exceeds_maximum_length,
}
use mina_multi_sig.LegacyTx.Memo.{
  set_memo_str-get_memo_string, set_memo_str-panics, set_memo_str-returned,
}

abbrev payment : LegacyTransaction small
payment = new_payment small 5 6 1000000 10000 42

-- The bytes of `é`.
abbrev e_acute : Bytes
e_acute = 195 ∷ 169 ∷ []

abbrev with_memo : LegacyTransaction small
with_memo = record payment { memo = 1 ∷ 4 ∷ (ascii "test" ++ replicate 28 0) }

memo_set : set_memo_str small payment (ascii "test") ≡ returned with_memo
unfolding set_memo_str padded new_payment
memo_set = refl

memo_too_long : set_memo_str small payment (replicate 33 65) ≡ refused memo_exceeds_maximum_length
unfolding set_memo_str
memo_too_long = refl

memo_read_back :
    (after : LegacyTransaction small) × (set_memo_str small payment (ascii "test") ≡ returned after)
    × (get_memo_string small after ≡ returned (ascii "test"))
memo_read_back =
    set_memo_str-get_memo_string small payment (ascii "test") (omega arith) (omega arith)

set_memo_str-panics_example : set_memo_str small payment e_acute ≡ panicked
set_memo_str-panics_example = set_memo_str-panics small payment e_acute (omega arith) (omega arith)

returned_memo : (4 ≤ 32) × (char_count (ascii "test") ≡ 4)
returned_memo = set_memo_str-returned small payment with_memo (ascii "test") memo_set

-- In the sample the address of a key is its bytes.
abbrev read_sample : Bytes → Option ℕ
read_sample (b ∷ bs) = some b
read_sample [] = none

abbrev order : Order small
order = record {
  sender = 5;
  receiver = 6;
  amount = some 1000000;
  fee = 10000;
  nonce = 42;
  memo = ascii "test";
  valid_until = 12345;
}

order-IsSendable : IsSendable small read_sample order
order-IsSendable = record {
  ascii_memo = omega arith;
  short_memo = omega arith;
  amount = omega arith;
  fee = omega arith;
  nonce = omega arith;
  valid_until = omega arith;
  sender = refl;
  receiver = refl;
}

legacy_deserialize-serialize_example :
    (tx : LegacyTransaction small) × (made small order ≡ returned tx)
    × (d : TransactionData) × (serialize small tx ≡ returned d)
    × (deserialize small read_sample d ≡ returned tx)
legacy_deserialize-serialize_example =
    legacy_deserialize-serialize small read_sample order order-IsSendable

abbrev order_data : TransactionData
order_data = record {
  to_address = 6 ∷ [];
  from_address = 5 ∷ [];
  fee = ascii "10000";
  amount = none;
  nonce = ascii "42";
  memo = ascii "test";
  valid_until = ascii "+12345";
  tag = delegation_tx_tag;
}

abbrev delegation : LegacyTransaction small
delegation = record (new_delegation small 5 6 10000 42) {
  memo = 1 ∷ 4 ∷ (ascii "test" ++ replicate 28 0);
  valid_until = 12345;
}

delegation_read : deserialize small read_sample order_data ≡ returned delegation
unfolding deserialize mina_multi_sig.LegacyTx.Json.address mina_multi_sig.LegacyTx.Json.number
    mina_multi_sig.Text.Decimal.parse mina_multi_sig.Text.Decimal.scan
    mina_multi_sig.Text.Decimal.scan_some mina_multi_sig.LegacyTx.Json.read_kind
    mina_multi_sig.LegacyTx.Json.read_delegation mina_multi_sig.LegacyTx.Json.finish set_memo_str
    padded mina_multi_sig.LegacyTx.set_valid_until
delegation_read = refl

deserialize-IsPlain_example : IsPlain small delegation
deserialize-IsPlain_example =
    deserialize-IsPlain small read_sample order_data delegation delegation_read

no_amount :
    deserialize small read_sample (record order_data { tag = payment_tx_tag })
    ≡ refused missing_amount
unfolding deserialize mina_multi_sig.LegacyTx.Json.address mina_multi_sig.LegacyTx.Json.number
    mina_multi_sig.Text.Decimal.parse mina_multi_sig.Text.Decimal.scan
    mina_multi_sig.Text.Decimal.scan_some mina_multi_sig.LegacyTx.Json.read_kind
    mina_multi_sig.LegacyTx.Json.read_payment
no_amount = refl
