-- ===== src/Envelope/Input.antt =====
-- What a text is read as.
use mina_multi_sig.Base.{◌≡◌, refl, inl, inr, none, some, Option-cases, ok, err}
use mina_multi_sig.Text.{Bytes}
use mina_multi_sig.NetworkId.{NetworkId}
use mina_multi_sig.ZkApp.Types.{Mina, ZkAppCommand}
use mina_multi_sig.LegacyTx.{LegacyTransaction}
use mina_multi_sig.Envelope.{
  TransactionSignature, Readers, from_str_network, new_zk_app, new_legacy, unknown_transaction_type,
}

module _ (M : Mina) (R : Readers M) where
  -- The four ways in which a text can be read, in their order of precedence. The network of a signed
  -- transaction is its own.
  pub data Reading (s : Bytes) (network_id : NetworkId) : Type 0 where
    signed :
        (t : TransactionSignature M)
        → R.read_signed (R.trim s) ≡ some t
        → from_str_network M R s network_id ≡ ok t.payload
        → Reading s network_id
    unsigned_zk_app :
        (tx : ZkAppCommand M)
        → R.read_signed (R.trim s) ≡ none
        → R.read_zk_app (R.trim s) ≡ some tx
        → from_str_network M R s network_id ≡ ok (new_zk_app M network_id tx)
        → Reading s network_id
    unsigned_legacy :
        (tx : LegacyTransaction M)
        → R.read_signed (R.trim s) ≡ none
        → R.read_zk_app (R.trim s) ≡ none
        → R.read_legacy (R.trim s) ≡ some tx
        → from_str_network M R s network_id ≡ ok (new_legacy M network_id tx)
        → Reading s network_id
    unreadable :
        R.read_signed (R.trim s) ≡ none
        → R.read_zk_app (R.trim s) ≡ none
        → R.read_legacy (R.trim s) ≡ none
        → from_str_network M R s network_id ≡ err unknown_transaction_type
        → Reading s network_id

  pub from_str_network-Reading : (s : Bytes) (network_id : NetworkId) → Reading s network_id
  unfolding from_str_network
  from_str_network-Reading s network_id = elim (Option-cases (R.read_signed (R.trim s))) [
    | inr (t, a) ↦ signed t a (rw (a, from_str_network) refl)
    | inl a ↦ elim (Option-cases (R.read_zk_app (R.trim s))) [
      | inr (tx, b) ↦ unsigned_zk_app tx a b (rw (a, b, from_str_network) refl)
      | inl b ↦ elim (Option-cases (R.read_legacy (R.trim s))) [
        | inr (tx, c) ↦ unsigned_legacy tx a b c (rw (a, b, c, from_str_network) refl)
        | inl c ↦ unreadable a b c (rw (a, b, c, from_str_network) refl)
      ]
    ]
  ]
