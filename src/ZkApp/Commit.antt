-- ===== src/ZkApp/Commit.antt =====
-- mina-tx/src/transactions/zkapp_tx/commit.rs: the commitment of a command, over its call forest.
pub mod Bodies
pub mod Accepted
use mina_multi_sig.Base.{
  ℕ, ◌/◌, ◌%◌, ◌==◌, Bool, List, [], ◌∷◌, ◌++◌, ◌&&◌, not, ite, if◌then◌else◌, none, some, Result,
  ok, err, Attempt, returned, refused, panicked, bind, lift,
}
use mina_multi_sig.Text.{Bytes}
use mina_multi_sig.NetworkId.{NetworkId}
use mina_multi_sig.ZkApp.Types.{Mina, AccountUpdate, FeePayer, ZkAppCommand, dummy_hash}
use mina_multi_sig.ZkApp.FeePayer.{from_fee_payer}
use mina_multi_sig.ZkApp.Hash.{
  ZkAppError, call_depths_not_valid, proved_and_signed, unexpected_verification_key_hash,
  body_prefix, hash_with_prefix, prefix_account_update_node, prefix_account_update_cons,
  zk_app_memo,
}
use mina_multi_sig.ZkApp.Packing.{pack_to_fields, pack_bool_to_field_legacy}
use mina_multi_sig.ZkApp.Packing.Composite.{pack_account_update}
use mina_multi_sig.ZkApp.Forest.{
  call_tree, CallForest, no_trees, tree_then, from_updates, is_call_depth_valid,
}

module _ (M : Mina) where
  open M use {Fp, fp_of, fp_discrete}

  unfoldable pub assert_account_update_authorization_kind :
      AccountUpdate M → Result ZkAppError (Unit {0})
  assert_account_update_authorization_kind account_update =
      let kind = account_update.body.authorization_kind in
      if kind.is_proved && kind.is_signed
      then err proved_and_signed
      else if kind.is_proved
      then ok tt
      else ite (fp_discrete kind.verification_key_hash (dummy_hash M)) (ok tt)
          (err unexpected_verification_key_hash)

  unfoldable pub hash_account_update : AccountUpdate M → NetworkId → Attempt ZkAppError Fp
  hash_account_update account_update network =
      elim (assert_account_update_authorization_kind account_update) [
        | err e ↦ refused e
        | ok _ ↦ elim (pack_account_update M account_update) [
          | none ↦ panicked
          | some packed ↦ elim (pack_to_fields M packed) [
            | none ↦ panicked
            | some inputs ↦ lift (hash_with_prefix M (body_prefix network) inputs)
          ]
        ]
      ]

  unfoldable pub hash_fee_payer : FeePayer M → NetworkId → Attempt ZkAppError Fp
  hash_fee_payer fee network = hash_account_update (from_fee_payer M fee) network

  -- The hash of a tree consed to the hash of the trees behind it.
  abbrev pub cons_hash : Fp → Fp → Fp → Attempt ZkAppError Fp
  cons_hash stack_hash calls tree_hash =
      bind (lift (hash_with_prefix M prefix_account_update_node (tree_hash ∷ calls ∷ [])))
        (λ node_hash.
          lift (hash_with_prefix M prefix_account_update_cons (node_hash ∷ stack_hash ∷ [])))

  -- The loop goes from the last tree to the first.
  unfoldable pub call_forest_hash : CallForest M → NetworkId → Attempt ZkAppError Fp
  call_forest_hash no_trees network = returned (fp_of 0)
  call_forest_hash (tree_then (call_tree account_update children) rest) network =
      bind (call_forest_hash rest network) (λ stack_hash.
        bind (call_forest_hash children network)
          (λ calls. bind (hash_account_update account_update network) (cons_hash stack_hash calls)))

  abbrev pub byte_bools : ℕ → List Bool
  byte_bools b =
      (b % 2 == 1)
      ∷ ((b / 2) % 2 == 1)
      ∷ ((b / 4) % 2 == 1)
      ∷ ((b / 8) % 2 == 1)
      ∷ ((b / 16) % 2 == 1)
      ∷ ((b / 32) % 2 == 1)
      ∷ ((b / 64) % 2 == 1)
      ∷ ((b / 128) % 2 == 1)
      ∷ []

  abbrev pub memo_bools : Bytes → List Bool
  memo_bools [] = []
  memo_bools (b ∷ rest) = byte_bools b ++ memo_bools rest

  unfoldable pub memo_hash : ZkAppCommand M → Attempt ZkAppError Fp
  memo_hash tx =
      lift (hash_with_prefix M zk_app_memo (pack_bool_to_field_legacy M (memo_bools tx.memo)))

  -- The commitment of the account updates and the full commitment.
  unfoldable pub zk_commit : ZkAppCommand M → NetworkId → Attempt ZkAppError (Fp × Fp)
  zk_commit tx network =
      if not (is_call_depth_valid M tx)
      then refused call_depths_not_valid
      else bind (call_forest_hash (from_updates M tx.account_updates) network) (λ updates_commit.
        bind (memo_hash tx) (λ memo. bind (hash_fee_payer tx.fee_payer network) (λ fee_payer_hash.
          bind
            (lift (
              hash_with_prefix M prefix_account_update_cons
                (memo ∷ fee_payer_hash ∷ updates_commit ∷ [])))
            (λ full_commit. returned (updates_commit, full_commit)))))
