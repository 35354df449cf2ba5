-- ===== src/ZkApp/Inject/Commitment.antt =====
-- The injection of a signature keeps what the signature is for.
use mina_multi_sig.Base.{ℕ, suc, ◌≡◌, refl, List, [], ◌∷◌, Bool-cases, inl, inr}
use mina_multi_sig.Text.{Bytes}
use mina_multi_sig.NetworkId.{NetworkId}
use mina_multi_sig.ZkApp.Types.{Mina, AccountUpdate, ZkAppCommand}
use mina_multi_sig.ZkApp.Commit.{zk_commit}
use mina_multi_sig.ZkApp.Commit.Bodies.{SameBodies, zk_commit-SameBodies}
use mina_multi_sig.ZkApp.Inject.{
  inject_signature, inject_account_update_signatures, inject_fee_payer_signature,
  should_inject_signature, same_key,
}

module _ (M : Mina) where
  inject_account_update_signatures-SameBodies :
      (index : ℕ) (us : List (AccountUpdate M)) (key : M.CompressedPubKey) (sig : Bytes)
      → SameBodies M (inject_account_update_signatures M index us key sig).0 us
  unfolding inject_account_update_signatures
  inject_account_update_signatures-SameBodies index [] key sig = tt
  inject_account_update_signatures-SameBodies index (u ∷ us) key sig =
      let rest = inject_account_update_signatures-SameBodies (suc index) us key sig in
      elim (Bool-cases (should_inject_signature M u key)) [
        | inr other ↦ rw (other, inject_account_update_signatures) (refl, rest)
        | inl ours ↦ elim (Bool-cases u.body.use_full_commitment) [
          | inl full ↦ rw (ours, full, inject_account_update_signatures) (refl, rest)
          | inr partial ↦ rw (ours, partial, inject_account_update_signatures) (refl, rest)
        ]
      ]

  inject_fee_payer_signature-body :
      (tx : ZkAppCommand M) (key : M.CompressedPubKey) (sig : Bytes)
      → ((inject_fee_payer_signature M tx key sig).0.fee_payer.body ≡ tx.fee_payer.body)
        × ((inject_fee_payer_signature M tx key sig).0.memo ≡ tx.memo)
  unfolding inject_fee_payer_signature
  inject_fee_payer_signature-body tx key sig =
      elim (Bool-cases (same_key M tx.fee_payer.body.public_key key)) [
        | inl ours ↦ rw (ours, inject_fee_payer_signature) (refl, refl)
        | inr other ↦ rw (other, inject_fee_payer_signature) (refl, refl)
      ]

  -- Putting a signature into a command does not change its commitment on any network, so the
  -- signature is for the command that carries it.
  pub zk_commit-inject_signature :
      (tx : ZkAppCommand M) (key : M.CompressedPubKey) (sig : Bytes) (network : NetworkId)
      → zk_commit M (inject_signature M tx key sig).0 network ≡ zk_commit M tx network
  unfolding inject_signature
  zk_commit-inject_signature tx key sig network =
      let paid = inject_fee_payer_signature-body tx key sig in
      zk_commit-SameBodies M (inject_signature M tx key sig).0 tx network
        (inject_account_update_signatures-SameBodies 0 tx.account_updates key sig) paid.0 paid.1
