-- ===== src/ZkApp/Packing/Body.antt =====
-- The layout of the body of an account update.
use mina_multi_sig.Base.{[], ℕ, ◌≡◌, subst, List, length, Option}
use mina_multi_sig.ZkApp.Types.{
  Mina, RangeCondition, EpochData, NetworkPreconditions, AccountPreconditions, Preconditions,
  Update, AccountUpdateBody,
}
use mina_multi_sig.ZkApp.Packing.Basic.{
  empty_field, empty_permissions, empty_public_key, empty_range_u32, empty_range_u64, empty_timing,
  empty_token_symbol, pack_all, pack_field, pack_option, pack_public_key, pack_range_u32,
  pack_range_u64,
}
use mina_multi_sig.ZkApp.Packing.Composite.{
  new, pack_account_preconditions, pack_body, pack_epoch_data, pack_epoch_ledger,
  pack_network_preconditions, pack_preconditions, pack_update,
}
use mina_multi_sig.ZkApp.Packing.Shape.{
  Layout, ◌+++◌, HasLayout, ◌<⊕>◌, no_layout, one_bit_of, bit_layout, field_layout, then_times,
  bit-HasLayout, pack_option-HasLayout, empty-HasLayout,
}
use mina_multi_sig.ZkApp.Packing.Leaves.{
  public_key_layout, range_u32_layout, range_u64_layout, permissions_layout, timing_layout,
  pack_field-HasLayout, pack_public_key-HasLayout, pack_range_u32-HasLayout,
  pack_range_u64-HasLayout, pack_option_bool-HasLayout, pack_permissions-HasLayout,
  pack_events-HasLayout, pack_actions-HasLayout, pack_timing-HasLayout,
  pack_verification_key-HasLayout, pack_balance_change-HasLayout, pack_may_use_token-HasLayout,
  pack_authorization_kind-HasLayout, pack_token_symbol-HasLayout, pack_zkapp_uri-HasLayout,
  empty_action_state-HasLayout, empty_zkapp_uri-HasLayout, pack_all-HasLayout,
}

-- An optional value has a bit and the layout of the value, there or not.
abbrev pub option_layout : Layout → Layout
option_layout l = bit_layout +++ l

abbrev pub epoch_data_layout : Layout
epoch_data_layout =
    no_layout
    +++ (no_layout +++ option_layout field_layout +++ option_layout range_u64_layout)
    +++ option_layout field_layout
    +++ option_layout field_layout
    +++ option_layout field_layout
    +++ option_layout range_u32_layout

abbrev pub network_layout : Layout
network_layout =
    no_layout
    +++ option_layout field_layout
    +++ option_layout range_u32_layout
    +++ option_layout range_u32_layout
    +++ option_layout range_u64_layout
    +++ option_layout range_u32_layout
    +++ epoch_data_layout
    +++ epoch_data_layout

-- With the number of the elements of the state.
abbrev pub account_layout : ℕ → Layout
account_layout n =
    no_layout
    +++ option_layout range_u64_layout
    +++ option_layout range_u32_layout
    +++ option_layout field_layout
    +++ option_layout public_key_layout
    +++ then_times no_layout n (option_layout field_layout)
    +++ option_layout field_layout
    +++ option_layout bit_layout
    +++ option_layout bit_layout

abbrev pub update_layout : ℕ → Layout
update_layout n =
    no_layout
    +++ then_times no_layout n (option_layout field_layout)
    +++ option_layout public_key_layout
    +++ option_layout field_layout
    +++ option_layout permissions_layout
    +++ option_layout field_layout
    +++ option_layout (one_bit_of 48)
    +++ option_layout timing_layout
    +++ option_layout field_layout

abbrev pub body_layout : ℕ → Layout
body_layout n =
    no_layout
    +++ public_key_layout
    +++ field_layout
    +++ update_layout n
    +++ (one_bit_of 64 +++ bit_layout)
    +++ bit_layout
    +++ field_layout
    +++ field_layout
    +++ field_layout
    +++ (no_layout +++ network_layout +++ account_layout n +++ option_layout range_u32_layout)
    +++ bit_layout
    +++ bit_layout
    +++ (bit_layout +++ bit_layout)
    +++ (bit_layout +++ bit_layout +++ field_layout)

module _ (M : Mina) where
  option_field-HasLayout :
      (o : Option M.Fp)
      → HasLayout M (option_layout field_layout) (pack_option M (pack_field M) (empty_field M) o)
  unfolding empty_field
  option_field-HasLayout o =
      pack_option-HasLayout o (pack_field-HasLayout M) (pack_field-HasLayout M (M.fp_of 0))

  option_u32-HasLayout :
      (o : Option (RangeCondition ℕ))
      → HasLayout M
          (option_layout range_u32_layout)
          (pack_option M (pack_range_u32 M) (empty_range_u32 M) o)
  unfolding empty_range_u32
  option_u32-HasLayout o =
      pack_option-HasLayout o (pack_range_u32-HasLayout M) (pack_range_u32-HasLayout M _)

  option_u64-HasLayout :
      (o : Option (RangeCondition ℕ))
      → HasLayout M
          (option_layout range_u64_layout)
          (pack_option M (pack_range_u64 M) (empty_range_u64 M) o)
  unfolding empty_range_u64
  option_u64-HasLayout o =
      pack_option-HasLayout o (pack_range_u64-HasLayout M) (pack_range_u64-HasLayout M _)

  option_key-HasLayout :
      (o : Option M.CompressedPubKey)
      → HasLayout M
          (option_layout public_key_layout)
          (pack_option M (pack_public_key M) (empty_public_key M) o)
  unfolding empty_public_key
  option_key-HasLayout o =
      pack_option-HasLayout o (pack_public_key-HasLayout M) (pack_public_key-HasLayout M _)

  state-HasLayout :
      (fs : List (Option M.Fp))
      → HasLayout M
          (then_times no_layout (length fs) (option_layout field_layout))
          (pack_all M (pack_option M (pack_field M) (empty_field M)) (new M) fs)
  state-HasLayout fs =
      pack_all-HasLayout M no_layout (new M) fs option_field-HasLayout empty-HasLayout

  pack_epoch_data-HasLayout :
      (d : EpochData M) → HasLayout M epoch_data_layout (pack_epoch_data M d)
  unfolding pack_epoch_data pack_epoch_ledger
  pack_epoch_data-HasLayout d =
      empty-HasLayout
      <⊕> (empty-HasLayout
          <⊕> option_field-HasLayout d.ledger.hash
          <⊕> option_u64-HasLayout d.ledger.total_currency)
      <⊕> option_field-HasLayout d.seed
      <⊕> option_field-HasLayout d.start_checkpoint
      <⊕> option_field-HasLayout d.lock_checkpoint
      <⊕> option_u32-HasLayout d.epoch_length

  pack_network_preconditions-HasLayout :
      (n : NetworkPreconditions M) → HasLayout M network_layout (pack_network_preconditions M n)
  unfolding pack_network_preconditions
  pack_network_preconditions-HasLayout n =
      empty-HasLayout
      <⊕> option_field-HasLayout n.snarked_ledger_hash
      <⊕> option_u32-HasLayout n.blockchain_length
      <⊕> option_u32-HasLayout n.min_window_density
      <⊕> option_u64-HasLayout n.total_currency
      <⊕> option_u32-HasLayout n.global_slot_since_genesis
      <⊕> pack_epoch_data-HasLayout n.staking_epoch_data
      <⊕> pack_epoch_data-HasLayout n.next_epoch_data

  pack_account_preconditions-HasLayout :
      (a : AccountPreconditions M)
      → HasLayout M (account_layout (length a.state)) (pack_account_preconditions M a)
  unfolding pack_account_preconditions
  pack_account_preconditions-HasLayout a =
      empty-HasLayout
      <⊕> option_u64-HasLayout a.balance
      <⊕> option_u32-HasLayout a.nonce
      <⊕> option_field-HasLayout a.receipt_chain_hash
      <⊕> option_key-HasLayout a.delegate
      <⊕> state-HasLayout a.state
      <⊕> pack_option-HasLayout a.action_state (pack_field-HasLayout M)
          (empty_action_state-HasLayout M)
      <⊕> pack_option_bool-HasLayout M a.proved_state
      <⊕> pack_option_bool-HasLayout M a.is_new

  pack_update-HasLayout :
      (u : Update M) → HasLayout M (update_layout (length u.app_state)) (pack_update M u)
  unfolding pack_update empty_field empty_permissions empty_token_symbol empty_timing
  pack_update-HasLayout u =
      empty-HasLayout
      <⊕> state-HasLayout u.app_state
      <⊕> option_key-HasLayout u.delegate
      <⊕> pack_option-HasLayout u.verification_key (pack_verification_key-HasLayout M)
          (pack_field-HasLayout M (M.fp_of 0))
      <⊕> pack_option-HasLayout u.permissions (pack_permissions-HasLayout M)
          (pack_permissions-HasLayout M _)
      <⊕> pack_option-HasLayout u.zkapp_uri (pack_zkapp_uri-HasLayout M)
          (empty_zkapp_uri-HasLayout M)
      <⊕> pack_option-HasLayout u.token_symbol (pack_token_symbol-HasLayout M)
          (empty-HasLayout <⊕> pack_token_symbol-HasLayout M [])
      <⊕> pack_option-HasLayout u.timing (pack_timing-HasLayout M) (pack_timing-HasLayout M _)
      <⊕> option_field-HasLayout u.voting_for

  pack_preconditions-HasLayout :
      (p : Preconditions M)
      → HasLayout M
          (no_layout
            +++ network_layout
            +++ account_layout (length p.account.state)
            +++ option_layout range_u32_layout)
          (pack_preconditions M p)
  unfolding pack_preconditions
  pack_preconditions-HasLayout p =
      empty-HasLayout
      <⊕> pack_network_preconditions-HasLayout p.network
      <⊕> pack_account_preconditions-HasLayout p.account
      <⊕> option_u32-HasLayout p.valid_while

  -- The body of an account update whose two states have `n` elements packs, if the packing does not
  -- panic, to the layout of `n`: what stands in the body changes neither the number of fields nor the
  -- size of any bits.
  pub pack_body-HasLayout :
      (b : AccountUpdateBody M) (n : ℕ)
      → length b.update.app_state ≡ n
      → length b.preconditions.account.state ≡ n
      → HasLayout M (body_layout n) (pack_body M b)
  unfolding pack_body
  pack_body-HasLayout b n h g =
      empty-HasLayout
      <⊕> pack_public_key-HasLayout M b.public_key
      <⊕> pack_field-HasLayout M b.token_id
      <⊕> subst (λ k. HasLayout M (update_layout k) (pack_update M b.update)) h
          (pack_update-HasLayout b.update)
      <⊕> pack_balance_change-HasLayout M b.balance_change
      <⊕> bit-HasLayout b.increment_nonce
      <⊕> pack_events-HasLayout M b.events
      <⊕> pack_actions-HasLayout M b.actions
      <⊕> pack_field-HasLayout M b.call_data
      <⊕> subst
          (λ k.
            HasLayout M
              (no_layout +++ network_layout +++ account_layout k +++ option_layout range_u32_layout)
              (pack_preconditions M b.preconditions))
          g (pack_preconditions-HasLayout b.preconditions)
      <⊕> bit-HasLayout b.use_full_commitment
      <⊕> bit-HasLayout b.implicit_account_creation_fee
      <⊕> pack_may_use_token-HasLayout M b.may_use_token
      <⊕> pack_authorization_kind-HasLayout M b.authorization_kind
