-- ===== src/LegacyTx/Json/Plain.antt =====
-- What a legacy transaction is that was read from JSON.
use mina_multi_sig.Base.{
  suc, ◌-◌, ◌||◌, ◌==◌, ltb, panicked-ne-returned, Attempt-cases, ltb, ℕ, ◌≡◌, refl, ap, subst,
  false, Option, Option-cases, Bool-cases, inl, inr, ◌⊎◌, returned, bind-returned, returned-inj,
  refused-ne-returned, length, arith, is_some,
}
use mina_multi_sig.Text.{Bytes}
use mina_multi_sig.ZkApp.Types.{Mina, u32_max, u64_max}
use mina_multi_sig.LegacyTx.{
  LegacyTransaction, new_payment, new_delegation, set_valid_until, set_memo_str, same_bools,
  payment_tx_tag, delegation_tx_tag, padded,
}
use mina_multi_sig.LegacyTx.Memo.{with_memo}
use mina_multi_sig.LegacyTx.Json.{
  TransactionData, number, finish, read_payment, read_delegation, read_kind, deserialize, address,
}

module _ (M : Mina) where
  -- The fee payer is the source, both tokens are the default one, nothing is locked, the memo has 34
  -- bytes, and a delegation has no amount.
  pub record IsPlain (tx : LegacyTransaction M) : Type 0 where
    pub payer : tx.fee_payer_pk ≡ tx.source_pk
    pub fee_token : tx.fee_token ≡ 1
    pub token_id : tx.token_id ≡ 1
    pub unlocked : tx.token_locked ≡ false
    pub memo : length tx.memo ≡ 34
    pub kind : (tx.tag ≡ payment_tx_tag) ⊎ ((tx.tag ≡ delegation_tx_tag) × (tx.amount ≡ 0))

  with_memo-IsPlain :
      (tx : LegacyTransaction M) (memo : Bytes)
      → IsPlain tx
      → length (padded memo) ≡ 32
      → IsPlain (with_memo M tx memo)
  with_memo-IsPlain tx memo v full = record {
    payer = v.payer;
    fee_token = v.fee_token;
    token_id = v.token_id;
    unlocked = v.unlocked;
    memo = ap (λ n. suc (suc n)) full;
    kind = v.kind;
  }

  set_memo_str-IsPlain :
      (tx after : LegacyTransaction M) (memo : Bytes)
      → IsPlain tx
      → set_memo_str M tx memo ≡ returned after
      → IsPlain after
  unfolding set_memo_str
  set_memo_str-IsPlain tx after memo v e =
      elim (Bool-cases (ltb (34 - 2) (length memo) || ltb 255 (length memo))) [
        | inl long ↦ absurd (refused-ne-returned (rw (long, set_memo_str) at e))
        | inr short ↦ elim (Bool-cases (length (padded memo) == 34 - 2)) [
          | inl full ↦
              subst IsPlain (returned-inj (rw (short, full, set_memo_str) at e))
                (with_memo-IsPlain tx memo v (ground (arith, full)))
          | inr wide ↦ absurd (panicked-ne-returned (rw (short, wide, set_memo_str) at e))
        ]
      ]

  finish-IsPlain :
      (tx after : LegacyTransaction M) (memo : Bytes) (valid_until : ℕ)
      → IsPlain tx
      → finish M memo valid_until tx ≡ returned after
      → IsPlain after
  unfolding finish set_valid_until
  finish-IsPlain tx after memo valid_until v e = elim (Attempt-cases (set_memo_str M tx memo)) [
    | inl broken ↦ absurd (panicked-ne-returned (rw (broken, finish) at e))
    | inr (inl (x, no_memo)) ↦ absurd (refused-ne-returned (rw (no_memo, finish) at e))
    | inr (inr (t, set)) ↦
        let w = set_memo_str-IsPlain tx t memo v set in
        subst IsPlain (returned-inj (rw (set, finish) at e)) (record {
          payer = w.payer;
          fee_token = w.fee_token;
          token_id = w.token_id;
          unlocked = w.unlocked;
          memo = w.memo;
          kind = w.kind;
        })
  ]

  new_payment-IsPlain :
      (from to : M.CompressedPubKey) (amount fee nonce : ℕ)
      → IsPlain (new_payment M from to amount fee nonce)
  unfolding new_payment
  new_payment-IsPlain from to amount fee nonce = record {
    payer = refl;
    fee_token = refl;
    token_id = refl;
    unlocked = refl;
    memo = refl;
    kind = inl refl;
  }

  new_delegation-IsPlain :
      (from to : M.CompressedPubKey) (fee nonce : ℕ) → IsPlain (new_delegation M from to fee nonce)
  unfolding new_delegation
  new_delegation-IsPlain from to fee nonce = record {
    payer = refl;
    fee_token = refl;
    token_id = refl;
    unlocked = refl;
    memo = refl;
    kind = inr (refl, refl);
  }

  read_payment-IsPlain :
      (d : TransactionData) (from to : M.CompressedPubKey) (fee nonce valid_until : ℕ)
      (tx : LegacyTransaction M)
      → read_payment M d from to fee nonce valid_until ≡ returned tx
      → IsPlain tx
  unfolding read_payment
  read_payment-IsPlain d from to fee nonce valid_until tx e = elim (Option-cases d.amount) [
    | inl none_there ↦ absurd (refused-ne-returned (rw (none_there, read_payment) at e))
    | inr (text, there) ↦
        let (amount, number_read, rest) =
          bind-returned (number u64_max text) _ tx (rw (there, read_payment) at e) in
        finish-IsPlain (new_payment M from to amount fee nonce) tx d.memo valid_until
          (new_payment-IsPlain from to amount fee nonce) rest
  ]

  read_delegation-IsPlain :
      (d : TransactionData) (from to : M.CompressedPubKey) (fee nonce valid_until : ℕ)
      (tx : LegacyTransaction M)
      → read_delegation M d from to fee nonce valid_until ≡ returned tx
      → IsPlain tx
  unfolding read_delegation
  read_delegation-IsPlain d from to fee nonce valid_until tx e =
      elim (Bool-cases (is_some d.amount)) [
        | inl there ↦ absurd (refused-ne-returned (rw (there, read_delegation) at e))
        | inr none_there ↦
            finish-IsPlain (new_delegation M from to fee nonce) tx d.memo valid_until
              (new_delegation-IsPlain from to fee nonce) (rw (none_there, read_delegation) at e)
      ]

  read_kind-IsPlain :
      (d : TransactionData) (from to : M.CompressedPubKey) (fee nonce valid_until : ℕ)
      (tx : LegacyTransaction M)
      → read_kind M d from to fee nonce valid_until ≡ returned tx
      → IsPlain tx
  unfolding read_kind
  read_kind-IsPlain d from to fee nonce valid_until tx e =
      elim (Bool-cases (same_bools d.tag payment_tx_tag)) [
        | inl payment ↦
            read_payment-IsPlain d from to fee nonce valid_until tx (rw (payment, read_kind) at e)
        | inr other ↦ elim (Bool-cases (same_bools d.tag delegation_tx_tag)) [
          | inl delegation ↦
              read_delegation-IsPlain d from to fee nonce valid_until tx
                (rw (other, delegation, read_kind) at e)
          | inr neither ↦ absurd (refused-ne-returned (rw (other, neither, read_kind) at e))
        ]
      ]

  -- A transaction that was read from JSON is plain, whatever the JSON held: the fee payer is the
  -- source, both tokens are the default one, nothing is locked, the memo has 34 bytes, and it is a
  -- payment, or a delegation with no amount.
  pub deserialize-IsPlain :
      (read_address : Bytes → Option M.CompressedPubKey) (d : TransactionData)
      (tx : LegacyTransaction M)
      → deserialize M read_address d ≡ returned tx
      → IsPlain tx
  unfolding deserialize
  deserialize-IsPlain read_address d tx e =
      let (from, a, e1) = bind-returned (address M read_address d.from_address) _ tx e in
      let (to, b, e2) = bind-returned (address M read_address d.to_address) _ tx e1 in
      let (fee, c, e3) = bind-returned (number u64_max d.fee) _ tx e2 in
      let (nonce, f, e4) = bind-returned (number u32_max d.nonce) _ tx e3 in
      let (valid_until, g, e5) = bind-returned (number u32_max d.valid_until) _ tx e4 in
      read_kind-IsPlain d from to fee nonce valid_until tx e5
