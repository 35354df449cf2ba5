-- ===== src/LegacyTx/Json/RoundTrip.antt =====
-- A legacy transaction that the constructors and setters made is written and read back.
use mina_multi_sig.Base.{
  Bool, List, ℕ, ◌≤◌, ◌≡◌, refl, ◌∙◌, Option, none, some, Attempt, returned, length, arith,
}
use mina_multi_sig.Text.{Bytes, IsAscii}
use mina_multi_sig.Text.Decimal.{to_string}
use mina_multi_sig.Text.Decimal.RoundTrip.{parse-to_string}
use mina_multi_sig.ZkApp.Types.{Mina, u32_max, u64_max}
use mina_multi_sig.LegacyTx.{
  delegation_tx_tag, payment_tx_tag, LegacyTransaction, new_payment, new_delegation,
  set_valid_until,
}
use mina_multi_sig.LegacyTx.Memo.{get_memo_string-with_memo, with_memo, set_memo_str_lem}
use mina_multi_sig.LegacyTx.Json.{
  read_kind, read_delegation, read_payment, address, number, TransactionData, JsonError, serialize,
  deserialize, finish,
}

-- What a transaction is made of: it is a payment if there is an amount.
pub record Order (M : Mina) : Type 0 where
  pub sender : M.CompressedPubKey
  pub receiver : M.CompressedPubKey
  pub amount : Option ℕ
  pub fee : ℕ
  pub nonce : ℕ
  pub memo : Bytes
  pub valid_until : ℕ

abbrev FitsU64 : Option ℕ → Type 0
FitsU64 none = Unit
FitsU64 (some a) = a ≤ u64_max

module _ (M : Mina) where
  abbrev started : Option ℕ → Order M → LegacyTransaction M
  started (some amount) o = new_payment M o.sender o.receiver amount o.fee o.nonce
  started none o = new_delegation M o.sender o.receiver o.fee o.nonce

  abbrev pub made : Order M → Attempt JsonError (LegacyTransaction M)
  made o = finish M o.memo o.valid_until (started o.amount o)

  module _ (read_address : Bytes → Option M.CompressedPubKey) where
    -- The memo is ASCII of at most 32 bytes, the numbers fit their types, and the addresses of the keys
    -- are read back.
    pub record IsSendable (o : Order M) : Type 0 where
      pub ascii_memo : IsAscii o.memo
      pub short_memo : length o.memo ≤ 32
      pub amount : FitsU64 o.amount
      pub fee : o.fee ≤ u64_max
      pub nonce : o.nonce ≤ u32_max
      pub valid_until : o.valid_until ≤ u32_max
      pub sender : read_address (M.into_address o.sender) ≡ some o.sender
      pub receiver : read_address (M.into_address o.receiver) ≡ some o.receiver

    number-to_string : (max n : ℕ) → max ≤ u64_max → n ≤ max → number max (to_string n) ≡ returned n
    unfolding number
    number-to_string max n small fits =
        rw (parse-to_string max n fits (omega (arith, small, fits)), number) refl

    address-into_address :
        (k : M.CompressedPubKey)
        → read_address (M.into_address k) ≡ some k
        → address M read_address (M.into_address k) ≡ returned k
    unfolding address
    address-into_address k e = rw (e, address) refl

    -- The checks that both kinds share.
    deserialize-fields :
        (d : TransactionData) (from to : M.CompressedPubKey) (fee nonce valid_until : ℕ)
        → address M read_address d.from_address ≡ returned from
        → address M read_address d.to_address ≡ returned to
        → number u64_max d.fee ≡ returned fee
        → number u32_max d.nonce ≡ returned nonce
        → number u32_max d.valid_until ≡ returned valid_until
        → deserialize M read_address d ≡ read_kind M d from to fee nonce valid_until
    unfolding deserialize
    deserialize-fields d from to fee nonce valid_until a b c e f =
        rw (a, b, c, e, f, deserialize) refl

    -- What is written of an order, with the amount of a payment.
    abbrev written : Option Bytes → List Bool → Order M → TransactionData
    written amount tag o = record {
      to_address = M.into_address o.receiver;
      from_address = M.into_address o.sender;
      fee = to_string o.fee;
      amount = amount;
      nonce = to_string o.nonce;
      memo = o.memo;
      valid_until = to_string o.valid_until;
      tag = tag;
    }

    deserialize-written :
        (amount : Option Bytes) (tag : List Bool) (o : Order M)
        → IsSendable o
        → deserialize M read_address (written amount tag o)
          ≡ read_kind M (written amount tag o) o.sender o.receiver o.fee o.nonce o.valid_until
    deserialize-written amount tag o h =
        deserialize-fields (written amount tag o) o.sender o.receiver o.fee o.nonce o.valid_until
          (address-into_address o.sender h.sender) (address-into_address o.receiver h.receiver)
          (number-to_string u64_max o.fee (omega arith) h.fee)
          (number-to_string u32_max o.nonce (omega arith) h.nonce)
          (number-to_string u32_max o.valid_until (omega arith) h.valid_until)

    finish_lem :
        (o : Order M) (tx : LegacyTransaction M)
        → IsSendable o
        → finish M o.memo o.valid_until tx
          ≡ returned (with_memo M (set_valid_until M tx o.valid_until) o.memo)
    unfolding finish set_valid_until
    finish_lem o tx h = rw (set_memo_str_lem M tx o.memo h.ascii_memo h.short_memo, finish) refl

    read_back :
        (amount : Option ℕ) (o : Order M)
        → IsSendable o
        → FitsU64 amount
        → (tx : LegacyTransaction M) × (finish M o.memo o.valid_until (started amount o)
            ≡ returned tx)
          × (d : TransactionData) × (serialize M tx ≡ returned d)
          × (deserialize M read_address d ≡ returned tx)
    unfolding set_valid_until new_payment new_delegation serialize read_kind read_payment
        read_delegation
    read_back (some a) o h fits =
        let base = set_valid_until M (started (some a) o) o.valid_until in
        let done_so = finish_lem o (started (some a) o) h in
        (
          with_memo M base o.memo,
          done_so,
          written (some (to_string a)) payment_tx_tag o,
          rw (get_memo_string-with_memo M base o.memo h.ascii_memo h.short_memo, serialize) refl,
          deserialize-written (some (to_string a)) payment_tx_tag o h
              ∙ rw (number-to_string u64_max a (omega arith) fits) done_so,
        )
    read_back none o h fits =
        let base = set_valid_until M (started none o) o.valid_until in
        let done_so = finish_lem o (started none o) h in
        (
          with_memo M base o.memo,
          done_so,
          written none delegation_tx_tag o,
          rw (get_memo_string-with_memo M base o.memo h.ascii_memo h.short_memo, serialize) refl,
          deserialize-written none delegation_tx_tag o h ∙ done_so,
        )

    -- A transaction that is made of an order whose memo is ASCII of at most 32 bytes, whose numbers fit
    -- their types and whose addresses are read back, is written, and what is written is read back to
    -- the same transaction.
    pub legacy_deserialize-serialize :
        (o : Order M)
        → IsSendable o
        → (tx : LegacyTransaction M) × (made o ≡ returned tx)
          × (d : TransactionData) × (serialize M tx ≡ returned d)
          × (deserialize M read_address d ≡ returned tx)
    legacy_deserialize-serialize o h = read_back o.amount o h h.amount
