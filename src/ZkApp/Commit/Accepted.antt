-- ===== src/ZkApp/Commit/Accepted.antt =====
-- What a command that has a commitment has passed.
use mina_multi_sig.Base.{
  ◌≡◌, ◌⊎◌, refl, subst, true, false, List, [], ◌∷◌, ◌++◌, All, ok, err, Result-cases, Attempt,
  returned, bind, panicked, refused, Bool-cases, inl, inr, arith, ite,
}
use mina_multi_sig.NetworkId.{NetworkId}
use mina_multi_sig.ZkApp.Types.{Mina, AccountUpdate, ZkAppCommand, dummy_hash}
use mina_multi_sig.ZkApp.Hash.{unexpected_verification_key_hash}
use mina_multi_sig.ZkApp.Forest.{
  call_tree, CallForest, no_trees, tree_then, from_updates, is_call_depth_valid,
}
use mina_multi_sig.ZkApp.Forest.Order.{preorder, preorder-from_updates}
use mina_multi_sig.ZkApp.Commit.{
  assert_account_update_authorization_kind, hash_account_update, call_forest_hash, zk_commit,
  cons_hash,
}

bind-returned :
    {E A B : Type 0} (m : Attempt E A) (f : A → Attempt E B) (b : B)
    → bind m f ≡ returned b
    → (a : A) × (m ≡ returned a) × (f a ≡ returned b)
bind-returned panicked f b h = absurd (ground arith)
bind-returned (refused e) f b h = absurd (ground arith)
bind-returned (returned a) f b h = (a, refl, h)

holds_of_ite : {P E : Type 0} (d : Dec P) (e : E) → ite d (ok (tt {0})) (err e) ≡ ok (tt {0}) → P
holds_of_ite (yes p) e h = p
holds_of_ite (no n) e h = absurd (ground arith)

module _ (M : Mina) where
  -- Not both proved and signed, and with the dummy hash where it is not proved.
  abbrev pub IsKindValid : AccountUpdate M → Type 0
  IsKindValid u =
      ((u.body.authorization_kind.is_proved ≡ false)
        ⊎ (u.body.authorization_kind.is_signed ≡ false))
      × ((u.body.authorization_kind.is_proved ≡ true)
          ⊎ (u.body.authorization_kind.verification_key_hash ≡ dummy_hash M))

  assert-IsKindValid :
      (u : AccountUpdate M) → assert_account_update_authorization_kind M u ≡ ok tt → IsKindValid u
  unfolding assert_account_update_authorization_kind
  assert-IsKindValid u h = elim (Bool-cases u.body.authorization_kind.is_proved) [
    | inl proved ↦ (inr (ground arith), inl proved)
    | inr unproved ↦ (
      inl unproved,
      inr (
          holds_of_ite
            (M.fp_discrete u.body.authorization_kind.verification_key_hash (dummy_hash M))
            unexpected_verification_key_hash (ground (arith, unproved))),
    )
  ]

  hash_account_update-IsKindValid :
      (u : AccountUpdate M) (network : NetworkId) (f : M.Fp)
      → hash_account_update M u network ≡ returned f
      → IsKindValid u
  unfolding hash_account_update
  hash_account_update-IsKindValid u network f h =
      elim (Result-cases (assert_account_update_authorization_kind M u)) [
        | inl (_, good) ↦ assert-IsKindValid u good
        | inr (e, bad) ↦ absurd (ground (arith, bad))
      ]

  All-append :
      (us vs : List (AccountUpdate M))
      → All IsKindValid us
      → All IsKindValid vs
      → All IsKindValid (us ++ vs)
  All-append [] vs h g = g
  All-append (u ∷ us) vs h g = (h.0, All-append us vs h.1 g)

  call_forest_hash-All :
      (f : CallForest M) (network : NetworkId) (c : M.Fp)
      → call_forest_hash M f network ≡ returned c
      → All IsKindValid (preorder M f)
  unfolding call_forest_hash
  call_forest_hash-All no_trees network c h = tt
  call_forest_hash-All (tree_then (call_tree u children) rest) network c h =
      let (stack, e, h1) = bind-returned (call_forest_hash M rest network) _ c h in
      let (calls, f, h2) = bind-returned (call_forest_hash M children network) _ c h1 in
      let (tree, g, h3) =
        bind-returned (hash_account_update M u network) (cons_hash M stack calls) c h2 in
      (
        hash_account_update-IsKindValid u network tree g,
        All-append (preorder M children) (preorder M rest)
            (call_forest_hash-All children network calls f)
            (call_forest_hash-All rest network stack e),
      )

  -- A command has a commitment only if its call depths are valid and each of its account updates is
  -- not both proved and signed and has the dummy verification key hash where it is not proved.
  pub zk_commit-accepts :
      (tx : ZkAppCommand M) (network : NetworkId) (c : M.Fp × M.Fp)
      → zk_commit M tx network ≡ returned c
      → (is_call_depth_valid M tx ≡ true) × All IsKindValid tx.account_updates
  unfolding zk_commit
  zk_commit-accepts tx network c h = elim (Bool-cases (is_call_depth_valid M tx)) [
    | inr invalid ↦ absurd (ground (arith, invalid))
    | inl valid ↦
        let (f, e, rest) =
          bind-returned (call_forest_hash M (from_updates M tx.account_updates) network) _ c
            (rw valid at h) in
        (
          valid,
          subst (All IsKindValid) (preorder-from_updates M tx.account_updates)
              (call_forest_hash-All (from_updates M tx.account_updates) network f e),
        )
  ]
