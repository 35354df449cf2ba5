-- ===== src/ZkApp/Tests.antt =====
-- Runs of mina-tx/src/transactions/zkapp_tx/ on a small command.
use mina_multi_sig.Base.{
  ◌<◌, ◌≤◌, ◌++◌, none, replicate, ℕ, ◌≡◌, ◌⊎◌, refl, true, false, List, [], ◌∷◌, Option, some, All,
  get_elem?, arith, returned, refused,
}
use mina_multi_sig.Text.{ascii}
use mina_multi_sig.NetworkId.{testnet}
use mina_multi_sig.ZkApp.Samples.{small, update_at, command}
use mina_multi_sig.ZkApp.Types.{ZkAppCommand, AccountUpdate}
use mina_multi_sig.ZkApp.FeePayer.{default_body}
use mina_multi_sig.ZkApp.Hash.{call_depths_not_valid}
use mina_multi_sig.ZkApp.Forest.{
  call_tree, CallForest, no_trees, tree_then, from_updates, account_updates_to_call_forest_step,
  is_call_depth_valid,
}
use mina_multi_sig.ZkApp.Forest.Order.{preorder, StandsAt, Stops, preorder-from_updates}
use mina_multi_sig.ZkApp.Forest.Fuel.{step_settles}
use mina_multi_sig.ZkApp.Forest.Depths.{from_updates-StandsAt, from_updates-preorder}
use mina_multi_sig.ZkApp.Commit.{zk_commit}
use mina_multi_sig.ZkApp.Commit.Bodies.{zk_commit-SameBodies}
use mina_multi_sig.ZkApp.Commit.Accepted.{IsKindValid, zk_commit-accepts}
use mina_multi_sig.ZkApp.Inject.{inject_signature}
use mina_multi_sig.ZkApp.Inject.Commitment.{zk_commit-inject_signature}
use mina_multi_sig.ZkApp.Inject.Effect.{
  Injected, FeePayerSettled, qualifying, inject_signature-Injected, inject_signature-result,
  inject_signature_twice,
}
use mina_multi_sig.ZkApp.Packing.Composite.{pack_body}
use mina_multi_sig.ZkApp.Packing.Basic.{to_bytes}
use mina_multi_sig.ZkApp.Packing.Total.{to_bytes_lem}
use mina_multi_sig.ZkApp.Packing.Shape.{HasLayout}
use mina_multi_sig.ZkApp.Packing.Body.{body_layout, pack_body-HasLayout}

abbrev signature_text : List ℕ
signature_text = 7 ∷ 8 ∷ []

abbrev too_deep : ZkAppCommand small
too_deep = record command { account_updates = update_at 0 5 ∷ update_at 2 5 ∷ [] }

abbrev command_forest : CallForest small
command_forest =
    tree_then (call_tree (update_at 0 5) (tree_then (call_tree (update_at 1 5) no_trees) no_trees))
      (tree_then (call_tree (update_at 0 6) no_trees) no_trees)

command_forest-from_updates : from_updates small command.account_updates ≡ command_forest
unfolding from_updates mina_multi_sig.ZkApp.Forest.account_updates_to_call_forest_step
command_forest-from_updates = refl

too_deep_refused : zk_commit small too_deep testnet ≡ refused call_depths_not_valid
unfolding zk_commit is_call_depth_valid
too_deep_refused = refl

command_depths : is_call_depth_valid small command ≡ true
unfolding is_call_depth_valid
command_depths = refl

command_commit : zk_commit small command testnet ≡ returned (3, 4)
unfolding mina_multi_sig.ZkApp.Types.encode mina_multi_sig.ZkApp.FeePayer.from_fee_payer
    mina_multi_sig.ZkApp.Hash.body_prefix mina_multi_sig.ZkApp.Hash.param_to_field
    mina_multi_sig.ZkApp.Hash.hash_noinput mina_multi_sig.ZkApp.Hash.hash_with_prefix
    mina_multi_sig.ZkApp.Forest.account_updates_to_call_forest_step
    mina_multi_sig.ZkApp.Forest.from_updates mina_multi_sig.ZkApp.Forest.is_call_depth_valid
    mina_multi_sig.ZkApp.Packing.bit_data_size mina_multi_sig.ZkApp.Packing.to_field
    mina_multi_sig.ZkApp.Packing.append_packedinput mina_multi_sig.ZkApp.Packing.pack_bits
    mina_multi_sig.ZkApp.Packing.pack_to_fields mina_multi_sig.ZkApp.Packing.Basic.to_bytes
    mina_multi_sig.ZkApp.Packing.Basic.pack_field mina_multi_sig.ZkApp.Packing.Basic.pack_public_key
    mina_multi_sig.ZkApp.Packing.Basic.pack_range_u32
    mina_multi_sig.ZkApp.Packing.Basic.pack_range_u64 mina_multi_sig.ZkApp.Packing.Basic.pack_option
    mina_multi_sig.ZkApp.Packing.Basic.pack_option_bool mina_multi_sig.ZkApp.Packing.Basic.pack_all
    mina_multi_sig.ZkApp.Packing.Basic.pack_auth
    mina_multi_sig.ZkApp.Packing.Basic.pack_set_verification_key
    mina_multi_sig.ZkApp.Packing.Basic.pack_permissions
    mina_multi_sig.ZkApp.Packing.Basic.fold_events mina_multi_sig.ZkApp.Packing.Basic.pack_events
    mina_multi_sig.ZkApp.Packing.Basic.pack_actions mina_multi_sig.ZkApp.Packing.Basic.pack_timing
    mina_multi_sig.ZkApp.Packing.Basic.pack_verification_key
    mina_multi_sig.ZkApp.Packing.Basic.pack_balance_change
    mina_multi_sig.ZkApp.Packing.Basic.pack_may_use_token
    mina_multi_sig.ZkApp.Packing.Basic.pack_authorization_kind
    mina_multi_sig.ZkApp.Packing.Basic.pack_token_symbol
    mina_multi_sig.ZkApp.Packing.Basic.pack_zkapp_uri mina_multi_sig.ZkApp.Packing.Basic.empty_field
    mina_multi_sig.ZkApp.Packing.Basic.empty_action_state
    mina_multi_sig.ZkApp.Packing.Basic.empty_public_key
    mina_multi_sig.ZkApp.Packing.Basic.empty_permissions
    mina_multi_sig.ZkApp.Packing.Basic.empty_token_symbol
    mina_multi_sig.ZkApp.Packing.Basic.empty_timing
    mina_multi_sig.ZkApp.Packing.Basic.empty_range_u32
    mina_multi_sig.ZkApp.Packing.Basic.empty_range_u64
    mina_multi_sig.ZkApp.Packing.Basic.empty_zkapp_uri
    mina_multi_sig.ZkApp.Packing.Composite.pack_epoch_ledger
    mina_multi_sig.ZkApp.Packing.Composite.pack_epoch_data
    mina_multi_sig.ZkApp.Packing.Composite.pack_network_preconditions
    mina_multi_sig.ZkApp.Packing.Composite.pack_account_preconditions
    mina_multi_sig.ZkApp.Packing.Composite.pack_preconditions
    mina_multi_sig.ZkApp.Packing.Composite.pack_update
    mina_multi_sig.ZkApp.Packing.Composite.pack_body
    mina_multi_sig.ZkApp.Packing.Composite.pack_account_update
    mina_multi_sig.ZkApp.Commit.assert_account_update_authorization_kind
    mina_multi_sig.ZkApp.Commit.hash_account_update mina_multi_sig.ZkApp.Commit.hash_fee_payer
    mina_multi_sig.ZkApp.Commit.call_forest_hash mina_multi_sig.ZkApp.Commit.memo_hash
    mina_multi_sig.ZkApp.Commit.zk_commit mina_multi_sig.Base.ℕ_discrete
command_commit = refl

three_injected : qualifying small command.account_updates 5 ≡ 2
unfolding mina_multi_sig.ZkApp.Inject.should_inject_signature mina_multi_sig.Base.ℕ_discrete
three_injected = refl

preorder-from_updates_example :
    preorder small (from_updates small command.account_updates) ≡ command.account_updates
preorder-from_updates_example = preorder-from_updates small command.account_updates

step_settles_example :
    (account_updates_to_call_forest_step small 9 command.account_updates 0
      ≡ account_updates_to_call_forest_step small 3 command.account_updates 0)
    × Stops small 0 (account_updates_to_call_forest_step small 9 command.account_updates 0).1
step_settles_example = step_settles small 9 command.account_updates 0 (omega arith)

from_updates-StandsAt_example : StandsAt small 0 (from_updates small command.account_updates)
from_updates-StandsAt_example = from_updates-StandsAt small command command_depths

from_updates-preorder_example : from_updates small (preorder small command_forest) ≡ command_forest
from_updates-preorder_example =
    from_updates-preorder small command_forest (refl, (refl, tt, tt), (refl, tt, tt))

zk_commit-inject_signature_example :
    zk_commit small (inject_signature small command 5 signature_text).0 testnet
    ≡ zk_commit small command testnet
zk_commit-inject_signature_example =
    zk_commit-inject_signature small command 5 signature_text testnet

same_bodies :
    zk_commit small
      (record command { fee_payer = record command.fee_payer { authorization = signature_text } })
      testnet
    ≡ zk_commit small command testnet
same_bodies =
    zk_commit-SameBodies small
      (record command { fee_payer = record command.fee_payer { authorization = signature_text } })
      command testnet (refl, (refl, (refl, tt))) refl refl

zk_commit-accepts_example :
    (is_call_depth_valid small command ≡ true) × All (IsKindValid small) command.account_updates
zk_commit-accepts_example = zk_commit-accepts small command testnet (3, 4) command_commit

inject_signature-Injected_example :
    (v : AccountUpdate small) × (get_elem?
        (inject_signature small command 5 signature_text).0.account_updates
        1
      ≡ some v)
    × Injected small (update_at 1 5) 5 signature_text v
inject_signature-Injected_example =
    inject_signature-Injected small command 5 signature_text 1 (update_at 1 5) refl

one_signed :
    ((inject_signature small command 5 signature_text).1.account_updates_injected
      ≡ qualifying small command.account_updates 5)
    × FeePayerSettled small command 5 signature_text
        (inject_signature small command 5 signature_text).0
        (inject_signature small command 5 signature_text).1.fee_payer_injected
one_signed = inject_signature-result small command 5 signature_text

injected_twice :
    (inject_signature small (inject_signature small command 5 signature_text).0 5 signature_text).0
    ≡ (inject_signature small command 5 signature_text).0
injected_twice = inject_signature_twice small command 5 signature_text

pack_body-HasLayout_example : HasLayout small (body_layout 8) (pack_body small (default_body small))
pack_body-HasLayout_example = pack_body-HasLayout small (default_body small) 8 refl refl

to_bytes_lem_example :
    ((7 ≤ 6) × (to_bytes (ascii "TOOLONG") (replicate 6 0) ≡ some (ascii "TOOLONG" ++ [])))
    ⊎ ((6 < 7) × (to_bytes (ascii "TOOLONG") (replicate 6 0) ≡ none))
to_bytes_lem_example = to_bytes_lem (ascii "TOOLONG")
