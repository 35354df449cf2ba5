-- ===== src/LegacyTx/Json.antt =====
-- The serde form of a legacy transaction (mina-tx/src/transactions/legacy_tx.rs), between the struct
-- and the fields that serde_json writes and reads.
pub mod RoundTrip
pub mod Plain
use mina_multi_sig.Base.{
  ℕ, Bool, true, false, List, Option, none, some, Result, ok, err, Attempt, returned, refused,
  panicked, bind, is_some, if◌then◌else◌,
}
use mina_multi_sig.Text.{Bytes}
use mina_multi_sig.Text.Decimal.{to_string, parse}
use mina_multi_sig.ZkApp.Types.{Mina, u32_max, u64_max}
use mina_multi_sig.LegacyTx.{
  LegacyTransaction, MemoError, new_payment, new_delegation, set_valid_until, set_memo_str,
  get_memo_string, payment_tx_tag, delegation_tx_tag, same_bools, is_delegation,
}

-- `TransactionData`
pub record TransactionData : Type 0 where
  pub to_address : Bytes
  pub from_address : Bytes
  pub fee : Bytes
  pub amount : Option Bytes
  pub nonce : Bytes
  pub memo : Bytes
  pub valid_until : Bytes
  pub tag : List Bool

-- The errors that `serde::de::Error::custom` wraps.
pub data JsonError : Type 0 where
  invalid_memo : MemoError → JsonError
  invalid_address : JsonError
  invalid_number : JsonError
  missing_amount : JsonError
  unexpected_amount : JsonError
  invalid_transaction_tag : JsonError

-- `map_err(custom)?` on a number and on a memo.
unfoldable pub number : ℕ → Bytes → Attempt JsonError ℕ
number max text = elim (parse max text) [ none ↦ refused invalid_number | some n ↦ returned n ]

abbrev custom : {A : Type 0} → Attempt MemoError A → Attempt JsonError A
custom (returned a) = returned a
custom (refused e) = refused (invalid_memo e)
custom panicked = panicked

module _ (M : Mina) where
  unfoldable pub serialize : LegacyTransaction M → Attempt JsonError TransactionData
  serialize tx = bind (custom (get_memo_string M tx)) λ memo_str. returned (record {
    to_address = M.into_address tx.receiver_pk;
    from_address = M.into_address tx.source_pk;
    fee = to_string tx.fee;
    amount = if is_delegation M tx then none else some (to_string tx.amount);
    nonce = to_string tx.nonce;
    memo = memo_str;
    valid_until = to_string tx.valid_until;
    tag = tx.tag;
  })

  -- `set_memo_str(..)?.set_valid_until(..)`
  unfoldable pub finish : Bytes → ℕ → LegacyTransaction M → Attempt JsonError (LegacyTransaction M)
  finish memo valid_until tx =
      bind (custom (set_memo_str M tx memo)) λ t. returned (set_valid_until M t valid_until)

  unfoldable pub read_payment :
      TransactionData
      → M.CompressedPubKey
      → M.CompressedPubKey
      → ℕ
      → ℕ
      → ℕ
      → Attempt JsonError (LegacyTransaction M)
  read_payment d from to fee nonce valid_until = elim d.amount [
    | none ↦ refused missing_amount
    | some ser_amount ↦
        bind (number u64_max ser_amount)
          λ amount. finish d.memo valid_until (new_payment M from to amount fee nonce)
  ]

  unfoldable pub read_delegation :
      TransactionData
      → M.CompressedPubKey
      → M.CompressedPubKey
      → ℕ
      → ℕ
      → ℕ
      → Attempt JsonError (LegacyTransaction M)
  read_delegation d from to fee nonce valid_until =
      if is_some d.amount
      then refused unexpected_amount
      else finish d.memo valid_until (new_delegation M from to fee nonce)

  -- The match on the tag.
  unfoldable pub read_kind :
      TransactionData
      → M.CompressedPubKey
      → M.CompressedPubKey
      → ℕ
      → ℕ
      → ℕ
      → Attempt JsonError (LegacyTransaction M)
  read_kind d from to fee nonce valid_until =
      if same_bools d.tag payment_tx_tag
      then read_payment d from to fee nonce valid_until
      else if same_bools d.tag delegation_tx_tag
      then read_delegation d from to fee nonce valid_until
      else refused invalid_transaction_tag

  -- `read_address` is `PubKey::from_address` with the compression of the key.
  module _ (read_address : Bytes → Option M.CompressedPubKey) where
    unfoldable pub address : Bytes → Attempt JsonError M.CompressedPubKey
    address text = elim (read_address text) [
      | none ↦ refused invalid_address
      | some key ↦ returned key
    ]

    unfoldable pub deserialize : TransactionData → Attempt JsonError (LegacyTransaction M)
    deserialize d = bind (address d.from_address) λ from. bind (address d.to_address) λ to.
        bind (number u64_max d.fee) λ fee. bind (number u32_max d.nonce) λ nonce.
          bind (number u32_max d.valid_until)
            λ valid_until. read_kind d from to fee nonce valid_until
