-- ===== src/ZkApp/Packing/Composite.antt =====
-- mina-tx/src/transactions/zkapp_tx/packing.rs: `Packable` for the types of account updates.
use mina_multi_sig.Base.{some}
use mina_multi_sig.ZkApp.Types.{
  Mina, EpochLedger, EpochData, NetworkPreconditions, AccountPreconditions, Preconditions, Update,
  AccountUpdateBody, AccountUpdate,
}
use mina_multi_sig.ZkApp.Packing.{empty_input}
use mina_multi_sig.ZkApp.Packing.Basic.{
  Packed, bit, empty_action_state, empty_field, empty_permissions, empty_public_key,
  empty_range_u32, empty_range_u64, empty_timing, empty_token_symbol, empty_zkapp_uri, pack_actions,
  pack_all, pack_authorization_kind, pack_balance_change, pack_events, pack_field,
  pack_may_use_token, pack_option, pack_option_bool, pack_permissions, pack_public_key,
  pack_range_u32, pack_range_u64, pack_timing, pack_token_symbol, pack_verification_key,
  pack_zkapp_uri, ◌⊕◌,
}

module _ (M : Mina) where
  abbrev pub new : Packed M
  new = some (empty_input M)

  unfoldable pub pack_epoch_ledger : EpochLedger M → Packed M
  pack_epoch_ledger l =
      new
      ⊕ pack_option M (pack_field M) (empty_field M) l.hash
      ⊕ pack_option M (pack_range_u64 M) (empty_range_u64 M) l.total_currency

  unfoldable pub pack_epoch_data : EpochData M → Packed M
  pack_epoch_data d =
      new
      ⊕ pack_epoch_ledger d.ledger
      ⊕ pack_option M (pack_field M) (empty_field M) d.seed
      ⊕ pack_option M (pack_field M) (empty_field M) d.start_checkpoint
      ⊕ pack_option M (pack_field M) (empty_field M) d.lock_checkpoint
      ⊕ pack_option M (pack_range_u32 M) (empty_range_u32 M) d.epoch_length

  unfoldable pub pack_network_preconditions : NetworkPreconditions M → Packed M
  pack_network_preconditions n =
      new
      ⊕ pack_option M (pack_field M) (empty_field M) n.snarked_ledger_hash
      ⊕ pack_option M (pack_range_u32 M) (empty_range_u32 M) n.blockchain_length
      ⊕ pack_option M (pack_range_u32 M) (empty_range_u32 M) n.min_window_density
      ⊕ pack_option M (pack_range_u64 M) (empty_range_u64 M) n.total_currency
      ⊕ pack_option M (pack_range_u32 M) (empty_range_u32 M) n.global_slot_since_genesis
      ⊕ pack_epoch_data n.staking_epoch_data
      ⊕ pack_epoch_data n.next_epoch_data

  unfoldable pub pack_account_preconditions : AccountPreconditions M → Packed M
  pack_account_preconditions a =
      new
      ⊕ pack_option M (pack_range_u64 M) (empty_range_u64 M) a.balance
      ⊕ pack_option M (pack_range_u32 M) (empty_range_u32 M) a.nonce
      ⊕ pack_option M (pack_field M) (empty_field M) a.receipt_chain_hash
      ⊕ pack_option M (pack_public_key M) (empty_public_key M) a.delegate
      ⊕ pack_all M (pack_option M (pack_field M) (empty_field M)) new a.state
      ⊕ pack_option M (pack_field M) (empty_action_state M) a.action_state
      ⊕ pack_option_bool M a.proved_state
      ⊕ pack_option_bool M a.is_new

  unfoldable pub pack_preconditions : Preconditions M → Packed M
  pack_preconditions p =
      new
      ⊕ pack_network_preconditions p.network
      ⊕ pack_account_preconditions p.account
      ⊕ pack_option M (pack_range_u32 M) (empty_range_u32 M) p.valid_while

  unfoldable pub pack_update : Update M → Packed M
  pack_update u =
      new
      ⊕ pack_all M (pack_option M (pack_field M) (empty_field M)) new u.app_state
      ⊕ pack_option M (pack_public_key M) (empty_public_key M) u.delegate
      ⊕ pack_option M (pack_verification_key M) (empty_field M) u.verification_key
      ⊕ pack_option M (pack_permissions M) (empty_permissions M) u.permissions
      ⊕ pack_option M (pack_zkapp_uri M) (empty_zkapp_uri M) u.zkapp_uri
      ⊕ pack_option M (pack_token_symbol M) (empty_token_symbol M) u.token_symbol
      ⊕ pack_option M (pack_timing M) (empty_timing M) u.timing
      ⊕ pack_option M (pack_field M) (empty_field M) u.voting_for

  unfoldable pub pack_body : AccountUpdateBody M → Packed M
  pack_body b =
      new
      ⊕ pack_public_key M b.public_key
      ⊕ pack_field M b.token_id
      ⊕ pack_update b.update
      ⊕ pack_balance_change M b.balance_change
      ⊕ bit M b.increment_nonce
      ⊕ pack_events M b.events
      ⊕ pack_actions M b.actions
      ⊕ pack_field M b.call_data
      ⊕ pack_preconditions b.preconditions
      ⊕ bit M b.use_full_commitment
      ⊕ bit M b.implicit_account_creation_fee
      ⊕ pack_may_use_token M b.may_use_token
      ⊕ pack_authorization_kind M b.authorization_kind

  -- An account update packs its body only.
  unfoldable pub pack_account_update : AccountUpdate M → Packed M
  pack_account_update u = pack_body u.body
