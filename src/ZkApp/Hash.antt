-- ===== src/ZkApp/Hash.antt =====
-- The low-level hashing of mina-tx/src/transactions/zkapp_tx/commit.rs, over the Poseidon sponge, and
-- the prefixes of zkapp_tx/constants.rs.
use mina_multi_sig.Base.{
  List, [], ◌∷◌, ◌++◌, ltb, if◌then◌else◌, length, drop, replicate, none, some, Result, ok, err,
}
use mina_multi_sig.Text.{Bytes, ascii}
use mina_multi_sig.NetworkId.{NetworkId, testnet, mainnet, custom, create_custom_prefix}
use mina_multi_sig.ZkApp.Types.{Mina}

-- `MinaTxError::InvalidZkAppCommand`, by its message.
pub data ZkAppError : Type 0 where
  call_depths_not_valid : ZkAppError
  proved_and_signed : ZkAppError
  unexpected_verification_key_hash : ZkAppError
  too_many_bytes : ZkAppError
  not_a_field : ZkAppError

abbrev pub prefix_account_update_node : Bytes
prefix_account_update_node = ascii "MinaAcctUpdateNode**"

abbrev pub prefix_account_update_cons : Bytes
prefix_account_update_cons = ascii "MinaAcctUpdateCons**"

abbrev pub zk_app_memo : Bytes
zk_app_memo = ascii "MinaZkappMemo"

abbrev pub zk_app_events_empty : Bytes
zk_app_events_empty = ascii "MinaZkappEventsEmpty"

abbrev pub zk_app_events_prefix : Bytes
zk_app_events_prefix = ascii "MinaZkappEvents"

abbrev pub zk_app_event_prefix : Bytes
zk_app_event_prefix = ascii "MinaZkappEvent"

abbrev pub zk_app_actions_empty : Bytes
zk_app_actions_empty = ascii "MinaZkappActionsEmpty"

abbrev pub zk_app_actions_prefix : Bytes
zk_app_actions_prefix = ascii "MinaZkappSeqEvents"

abbrev pub zk_action_state_empty : Bytes
zk_action_state_empty = ascii "MinaZkappActionStateEmptyElt"

abbrev pub mina_zkapp_uri : Bytes
mina_zkapp_uri = ascii "MinaZkappUri"

-- `ZkAppBodyPrefix::from` and its text.
unfoldable pub body_prefix : NetworkId → Bytes
body_prefix mainnet = ascii "MainnetZkappBody****"
body_prefix testnet = ascii "TestnetZkappBody****"
body_prefix (custom s) = create_custom_prefix (s ++ ascii "ZkappBody")

-- `DEFAULT`
abbrev pub default_param : Bytes
default_param = ascii "********************" ++ replicate 12 0

module _ (M : Mina) where
  open M use {Fp, from_random_bytes, new_sponge, absorb, squeeze}

  unfoldable pub param_to_field : Bytes → Result ZkAppError Fp
  param_to_field param_bytes =
      if ltb (length default_param) (length param_bytes)
      then err too_many_bytes
      else elim (from_random_bytes (param_bytes ++ drop (length param_bytes) default_param)) [
        | none ↦ err not_a_field
        | some f ↦ ok f
      ]

  unfoldable pub hash_noinput : Bytes → Result ZkAppError Fp
  hash_noinput prefix = elim (param_to_field prefix) [
    | err e ↦ err e
    | ok f ↦ ok (squeeze (absorb new_sponge (f ∷ []))).1
  ]

  unfoldable pub hash_with_prefix : Bytes → List Fp → Result ZkAppError Fp
  hash_with_prefix prefix fields = elim (param_to_field prefix) [
    | err e ↦ err e
    | ok f ↦
        let salted = squeeze (absorb new_sponge (f ∷ [])) in ok (squeeze (absorb salted.0 fields)).1
  ]
