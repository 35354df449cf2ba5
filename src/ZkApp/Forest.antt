-- ===== src/ZkApp/Forest.antt =====
-- mina-tx/src/transactions/zkapp_tx/commit.rs: the call forest of a command, and the check of the
-- call depths. A call depth is a `u32`; one that is reached by steps of one is at most the number of
-- account updates, so `call_depth + 1` does not wrap.
pub mod Order
pub mod Depths
pub mod Fuel
use mina_multi_sig.Base.{
  ℕ, zero, suc, ◌+◌, Bool, true, false, List, [], ◌∷◌, ltb, leb, ◌==◌, length, map,
}
use mina_multi_sig.ZkApp.Types.{Mina, AccountUpdate, ZkAppCommand}

mutual
  pub data CallTree (M : Mina) : Type 0 where
    call_tree : AccountUpdate M → CallForest M → CallTree M

  pub data CallForest (M : Mina) : Type 0 where
    no_trees : CallForest M
    tree_then : CallTree M → CallForest M → CallForest M

module _ (M : Mina) where
  -- The forest and the queue that is left. The first number is fuel; the length of the queue is
  -- enough.
  unfoldable pub account_updates_to_call_forest_step :
      ℕ → List (AccountUpdate M) → ℕ → CallForest M × List (AccountUpdate M)
  account_updates_to_call_forest_step zero updates call_depth = (no_trees, updates)
  account_updates_to_call_forest_step (suc n) [] call_depth = (no_trees, [])
  account_updates_to_call_forest_step (suc n) (account_update ∷ updates) call_depth =
      elim (ltb account_update.body.call_depth call_depth) [
        | true ↦ (no_trees, account_update ∷ updates)
        | false ↦
            let inner = account_updates_to_call_forest_step n updates (call_depth + 1) in
            let outer = account_updates_to_call_forest_step n inner.1 call_depth in
            (tree_then (call_tree account_update inner.0) outer.0, outer.1)
      ]

  -- `CallForest::from`
  unfoldable pub from_updates : List (AccountUpdate M) → CallForest M
  from_updates updates = (account_updates_to_call_forest_step (length updates) updates 0).0

  abbrev pub depths_follow : ℕ → List ℕ → Bool
  depths_follow current [] = true
  depths_follow current (call_depth ∷ call_depths) = elim (leb call_depth (current + 1)) [
    | true ↦ depths_follow call_depth call_depths
    | false ↦ false
  ]

  abbrev pub depths_valid : List ℕ → Bool
  depths_valid [] = true
  depths_valid (depth ∷ call_depths) = elim (depth == 0) [
    | true ↦ depths_follow depth call_depths
    | false ↦ false
  ]

  abbrev pub call_depths_of : List (AccountUpdate M) → List ℕ
  call_depths_of [] = []
  call_depths_of (a ∷ rest) = a.body.call_depth ∷ call_depths_of rest

  unfoldable pub is_call_depth_valid : ZkAppCommand M → Bool
  is_call_depth_valid zkapp_command = depths_valid (call_depths_of zkapp_command.account_updates)
