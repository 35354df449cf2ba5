-- ===== src/LegacyTx.antt =====
-- mina-tx/src/transactions/legacy_tx.rs: payments and delegations, and their memos.
pub mod Memo
pub mod Json
mod Tests
use mina_multi_sig.Base.{
  ℕ, ◌+◌, ◌-◌, ◌^◌, ◌%◌, ◌==◌, Bool, true, false, ◌||◌, ◌&&◌, List, [], ◌∷◌, ◌++◌, ltb,
  if◌then◌else◌, length, take, drop, replicate, Option, none, some, Result, ok, err, Attempt,
  returned, refused, panicked, get_elem?,
}
use mina_multi_sig.Text.{Bytes, is_utf8, is_continuation}
use mina_multi_sig.ZkApp.Types.{Mina, u32_max}

abbrev pub memo_bytes : ℕ
memo_bytes = 34

abbrev pub memo_header_bytes : ℕ
memo_header_bytes = 2

abbrev pub payment_tx_tag : List Bool
payment_tx_tag = false ∷ false ∷ false ∷ []

abbrev pub delegation_tx_tag : List Bool
delegation_tx_tag = false ∷ false ∷ true ∷ []

pub record LegacyTransaction (M : Mina) : Type 0 where
  pub fee : ℕ
  pub fee_token : ℕ
  pub fee_payer_pk : M.CompressedPubKey
  pub nonce : ℕ
  pub valid_until : ℕ
  pub memo : Bytes
  pub tag : List Bool
  pub source_pk : M.CompressedPubKey
  pub receiver_pk : M.CompressedPubKey
  pub token_id : ℕ
  pub amount : ℕ
  pub token_locked : Bool

-- `InvalidMemo` and `MemoSerializationError`.
pub data MemoError : Type 0 where
  memo_exceeds_maximum_length : MemoError
  invalid_memo_length_byte : MemoError
  memo_not_utf8 : MemoError

-- `s.chars().count()`: the bytes that start a character.
abbrev pub char_count : Bytes → ℕ
char_count [] = 0
char_count (b ∷ bs) = if is_continuation b then char_count bs else 1 + char_count bs

-- `format!("{memo:\0<32}")`: the width counts characters.
unfoldable pub padded : Bytes → Bytes
padded memo = memo ++ replicate (32 - char_count memo) 0

-- `==` on the tags.
abbrev pub same_bools : List Bool → List Bool → Bool
same_bools [] [] = true
same_bools [] (b ∷ bs) = false
same_bools (a ∷ bs) [] = false
same_bools (true ∷ cs) (b ∷ bs) = b && same_bools cs bs
same_bools (false ∷ cs) (true ∷ bs) = false
same_bools (false ∷ cs) (false ∷ bs) = same_bools cs bs

module _ (M : Mina) where
  open M use {
    RoInput, CompressedPubKey, x, is_odd, append_field, append_bool, append_u32, append_u64,
    append_bytes,
  }

  -- The keys are compressed.
  unfoldable pub new_payment : CompressedPubKey → CompressedPubKey → ℕ → ℕ → ℕ → LegacyTransaction M
  new_payment from to amount fee nonce = record {
    fee = fee;
    fee_token = 1;
    fee_payer_pk = from;
    nonce = nonce;
    valid_until = u32_max;
    memo = 1 ∷ replicate 33 0;
    tag = payment_tx_tag;
    source_pk = from;
    receiver_pk = to;
    token_id = 1;
    amount = amount;
    token_locked = false;
  }

  unfoldable pub new_delegation : CompressedPubKey → CompressedPubKey → ℕ → ℕ → LegacyTransaction M
  new_delegation from to fee nonce = record {
    fee = fee;
    fee_token = 1;
    fee_payer_pk = from;
    nonce = nonce;
    valid_until = u32_max;
    memo = 1 ∷ replicate 33 0;
    tag = delegation_tx_tag;
    source_pk = from;
    receiver_pk = to;
    token_id = 1;
    amount = 0;
    token_locked = false;
  }

  unfoldable pub set_valid_until : LegacyTransaction M → ℕ → LegacyTransaction M
  set_valid_until tx global_slot = record tx { valid_until = global_slot }

  -- The argument has 32 bytes.
  pub set_memo : LegacyTransaction M → Bytes → LegacyTransaction M
  set_memo tx memo = record tx { memo = 1 ∷ (memo_bytes - 2) ∷ memo }

  -- `copy_from_slice` panics where the lengths differ.
  unfoldable pub set_memo_str :
      LegacyTransaction M → Bytes → Attempt MemoError (LegacyTransaction M)
  set_memo_str tx memo =
      if ltb (memo_bytes - memo_header_bytes) (length memo) || ltb 255 (length memo)
      then refused memo_exceeds_maximum_length
      else if length (padded memo) == memo_bytes - 2
      then returned (record tx { memo = 1 ∷ length memo % 256 ∷ padded memo })
      else panicked

  -- `self.memo[1]` is there in an array of 34 bytes; `panicked` where it is not.
  unfoldable pub get_memo_string : LegacyTransaction M → Attempt MemoError Bytes
  get_memo_string tx = elim (get_elem? tx.memo 1) [
    | none ↦ panicked
    | some memo_len ↦
        let text : Bytes = take memo_len (drop memo_header_bytes tx.memo) in
        if ltb (memo_bytes - memo_header_bytes) memo_len
        then refused invalid_memo_length_byte
        else if is_utf8 text
        then returned text
        else refused memo_not_utf8
  ]

  abbrev append_bools : RoInput → List Bool → RoInput
  append_bools roi [] = roi
  append_bools roi (b ∷ bs) = append_bools (append_bool roi b) bs

  unfoldable pub to_roinput : LegacyTransaction M → RoInput
  to_roinput tx =
      let keys =
        append_field
          (append_field (append_field M.new_roinput (x tx.fee_payer_pk)) (x tx.source_pk))
          (x tx.receiver_pk) in
      let fees =
        append_bool (append_u64 (append_u64 keys tx.fee) tx.fee_token) (is_odd tx.fee_payer_pk) in
      let common = append_bytes (append_u32 (append_u32 fees tx.nonce) tx.valid_until) tx.memo in
      let tagged = append_bools common tx.tag in
      let parities =
        append_bool (append_bool tagged (is_odd tx.source_pk)) (is_odd tx.receiver_pk) in
      append_bool (append_u64 (append_u64 parities tx.token_id) tx.amount) tx.token_locked

  abbrev pub is_delegation : LegacyTransaction M → Bool
  is_delegation tx = same_bools tx.tag delegation_tx_tag
