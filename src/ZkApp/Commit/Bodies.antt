-- ===== src/ZkApp/Commit/Bodies.antt =====
-- The commitment reads no authorization: commands with the same bodies have the same commitment.
use mina_multi_sig.Base.{
  ℕ, zero, suc, ◌+◌, ◌≡◌, refl, ap, sym, subst, List, [], ◌∷◌, length, ltb, Bool-cases, inl, inr,
}
use mina_multi_sig.NetworkId.{NetworkId}
use mina_multi_sig.ZkApp.Types.{Mina, AccountUpdate, ZkAppCommand, FeePayer}
use mina_multi_sig.ZkApp.FeePayer.{from_fee_payer}
use mina_multi_sig.ZkApp.Packing.Composite.{pack_account_update}
use mina_multi_sig.ZkApp.Forest.{
  call_tree, CallForest, no_trees, tree_then, account_updates_to_call_forest_step, from_updates,
  is_call_depth_valid, call_depths_of,
}
use mina_multi_sig.ZkApp.Commit.{
  assert_account_update_authorization_kind, hash_account_update, hash_fee_payer, call_forest_hash,
  zk_commit, memo_hash,
}

module _ (M : Mina) where
  -- The same bodies, one by one.
  abbrev pub SameBodies : List (AccountUpdate M) → List (AccountUpdate M) → Type 0
  SameBodies [] [] = Unit
  SameBodies [] (b ∷ vs) = ⊥
  SameBodies (a ∷ us) [] = ⊥
  SameBodies (a ∷ us) (b ∷ vs) = (a.body ≡ b.body) × SameBodies us vs

  abbrev SameForests : CallForest M → CallForest M → Type 0
  SameForests no_trees no_trees = Unit
  SameForests no_trees (tree_then t g) = ⊥
  SameForests (tree_then t f) no_trees = ⊥
  SameForests (tree_then (call_tree a f) fs) (tree_then (call_tree b g) gs) =
      (a.body ≡ b.body) × SameForests f g × SameForests fs gs

  hash_account_update-body :
      (a b : AccountUpdate M) (network : NetworkId)
      → a.body ≡ b.body
      → hash_account_update M a network ≡ hash_account_update M b network
  unfolding hash_account_update assert_account_update_authorization_kind pack_account_update
  hash_account_update-body a b network h =
      ap
        (λ body.
          hash_account_update M (record { body = body; authorization = a.authorization }) network)
        h

  call_forest_hash-SameForests :
      (f g : CallForest M) (network : NetworkId)
      → SameForests f g
      → call_forest_hash M f network ≡ call_forest_hash M g network
  unfolding call_forest_hash
  call_forest_hash-SameForests no_trees no_trees network h = refl
  call_forest_hash-SameForests no_trees (tree_then t g) network h = absurd h
  call_forest_hash-SameForests (tree_then t f) no_trees network h = absurd h
  call_forest_hash-SameForests (tree_then (call_tree a f) fs) (tree_then (call_tree b g) gs) network
        h =
      rw
        (
          call_forest_hash-SameForests fs gs network h.2,
          call_forest_hash-SameForests f g network h.1,
          hash_account_update-body a b network h.0,
        )
        refl

  step-SameBodies :
      (n : ℕ) (us vs : List (AccountUpdate M)) (d : ℕ)
      → SameBodies us vs
      → SameForests
          (account_updates_to_call_forest_step M n us d).0
          (account_updates_to_call_forest_step M n vs d).0
        × SameBodies
            (account_updates_to_call_forest_step M n us d).1
            (account_updates_to_call_forest_step M n vs d).1
  unfolding account_updates_to_call_forest_step
  step-SameBodies zero us vs d h = (tt, h)
  step-SameBodies (suc n) [] [] d h = (tt, tt)
  step-SameBodies (suc n) [] (b ∷ vs) d h = absurd h
  step-SameBodies (suc n) (a ∷ us) [] d h = absurd h
  step-SameBodies (suc n) (a ∷ us) (b ∷ vs) d h =
      let depth : a.body.call_depth ≡ b.body.call_depth = ap (λ x. x.call_depth) h.0 in
      let i = step-SameBodies n us vs (d + 1) h.1 in
      let o = step-SameBodies n _ _ d i.1 in
      elim (Bool-cases (ltb b.body.call_depth d)) [
        | inl small ↦ rw (depth, small, account_updates_to_call_forest_step) (tt, h)
        | inr deep ↦ rw (depth, deep, account_updates_to_call_forest_step) ((h.0, i.0, o.0), o.1)
      ]

  length-SameBodies : (us vs : List (AccountUpdate M)) → SameBodies us vs → length us ≡ length vs
  length-SameBodies [] [] h = refl
  length-SameBodies [] (b ∷ vs) h = absurd h
  length-SameBodies (a ∷ us) [] h = absurd h
  length-SameBodies (a ∷ us) (b ∷ vs) h = ap suc (length-SameBodies us vs h.1)

  call_depths_of-SameBodies :
      (us vs : List (AccountUpdate M))
      → SameBodies us vs
      → call_depths_of M us ≡ call_depths_of M vs
  call_depths_of-SameBodies [] [] h = refl
  call_depths_of-SameBodies [] (b ∷ vs) h = absurd h
  call_depths_of-SameBodies (a ∷ us) [] h = absurd h
  call_depths_of-SameBodies (a ∷ us) (b ∷ vs) h =
      cc (ap (λ x. x.call_depth) h.0, call_depths_of-SameBodies us vs h.1)

  from_updates-SameBodies :
      (us vs : List (AccountUpdate M))
      → SameBodies us vs
      → SameForests (from_updates M us) (from_updates M vs)
  unfolding from_updates
  from_updates-SameBodies us vs h =
      subst
        (λ k.
          SameForests (account_updates_to_call_forest_step M k us 0).0
            (account_updates_to_call_forest_step M (length vs) vs 0).0)
        (sym (length-SameBodies us vs h)) (step-SameBodies (length vs) us vs 0 h).0

  from_fee_payer-body :
      (p q : FeePayer M) → p.body ≡ q.body → (from_fee_payer M p).body ≡ (from_fee_payer M q).body
  unfolding from_fee_payer
  from_fee_payer-body p q e =
      ap (λ body. (from_fee_payer M (record { body = body; authorization = p.authorization })).body)
        e

  -- Commands with the same bodies and the same memo have the same commitment.
  pub zk_commit-SameBodies :
      (s t : ZkAppCommand M) (network : NetworkId)
      → SameBodies s.account_updates t.account_updates
      → s.fee_payer.body ≡ t.fee_payer.body
      → s.memo ≡ t.memo
      → zk_commit M s network ≡ zk_commit M t network
  unfolding zk_commit is_call_depth_valid memo_hash hash_fee_payer
  zk_commit-SameBodies s t network h f m =
      let forest =
        call_forest_hash-SameForests _ _ network
          (from_updates-SameBodies s.account_updates t.account_updates h) in
      let payer =
        hash_account_update-body (from_fee_payer M s.fee_payer) (from_fee_payer M t.fee_payer)
          network (from_fee_payer-body s.fee_payer t.fee_payer f) in
      rw (forest, payer, m, call_depths_of-SameBodies s.account_updates t.account_updates h) refl
