-- ===== src/ZkApp/Inject.antt =====
-- mina-tx/src/transactions/zkapp_tx/signature_injection.rs: where the group's signature is put. The
-- key is the compressed group key and the signature its base58 text.
pub mod Commitment
pub mod Effect
use mina_multi_sig.Base.{
  ℕ, suc, Bool, true, false, List, [], ◌∷◌, ◌++◌, ◌&&◌, not, ite, if◌then◌else◌, none, some,
}
use mina_multi_sig.Text.{Bytes}
use mina_multi_sig.ZkApp.Types.{Mina, AccountUpdate, ZkAppCommand}

pub data SignatureInjectionWarning : Type 0 where
  fee_payer_key_mismatch : Bytes → Bytes → SignatureInjectionWarning
  partial_commitment_skipped : ℕ → Bytes → SignatureInjectionWarning
  signature_overwritten : ℕ → Bytes → SignatureInjectionWarning
  fee_payer_signature_overwritten : SignatureInjectionWarning

pub record SignatureInjectionResult : Type 0 where
  pub account_updates_injected : ℕ
  pub fee_payer_injected : Bool
  pub warnings : List SignatureInjectionWarning

module _ (M : Mina) where
  open M use {CompressedPubKey, pub_key_discrete, into_address}

  abbrev pub is_empty : Bytes → Bool
  is_empty [] = true
  is_empty (_ ∷ _) = false

  -- `==` of compressed keys.
  abbrev pub same_key : CompressedPubKey → CompressedPubKey → Bool
  same_key a b = ite (pub_key_discrete a b) true false

  unfoldable pub should_inject_signature : AccountUpdate M → CompressedPubKey → Bool
  should_inject_signature update group_public_key =
      update.body.authorization_kind.is_signed && same_key update.body.public_key group_public_key

  -- The command, whether the signature was put in, and the warnings.
  unfoldable pub inject_fee_payer_signature :
      ZkAppCommand M
      → CompressedPubKey
      → Bytes
      → ZkAppCommand M × Bool × List SignatureInjectionWarning
  inject_fee_payer_signature tx group_public_key sig_base58 =
      let fee_payer_pk = tx.fee_payer.body.public_key in
      if same_key fee_payer_pk group_public_key
      then (
        record tx { fee_payer = record tx.fee_payer { authorization = sig_base58 } },
        true,
        if is_empty tx.fee_payer.authorization then [] else fee_payer_signature_overwritten ∷ [],
      )
      else (
        tx,
        false,
        fee_payer_key_mismatch (into_address group_public_key) (into_address fee_payer_pk) ∷ [],
      )

  abbrev pub with_signature : AccountUpdate M → Bytes → AccountUpdate M
  with_signature update sig_base58 = record update {
    authorization = record update.authorization { signature = some sig_base58 };
  }

  abbrev pub overwritten : ℕ → AccountUpdate M → List SignatureInjectionWarning
  overwritten index update = elim update.authorization.signature [
    | none ↦ []
    | some existing_sig ↦
        if is_empty existing_sig
        then []
        else signature_overwritten index (into_address update.body.public_key) ∷ []
  ]

  -- The loop from an index on: the account updates, the count and the warnings.
  unfoldable pub inject_account_update_signatures :
      ℕ
      → List (AccountUpdate M)
      → CompressedPubKey
      → Bytes
      → List (AccountUpdate M) × ℕ × List SignatureInjectionWarning
  inject_account_update_signatures index [] group_public_key sig_base58 = ([], 0, [])
  inject_account_update_signatures index (update ∷ updates) group_public_key sig_base58 =
      let rest = inject_account_update_signatures (suc index) updates group_public_key sig_base58 in
      if should_inject_signature update group_public_key
      then if not update.body.use_full_commitment
        then (
          update ∷ rest.0,
          rest.1,
          partial_commitment_skipped index (into_address update.body.public_key) ∷ rest.2,
        )
        else (
          with_signature update sig_base58 ∷ rest.0,
          suc rest.1,
          overwritten index update ++ rest.2,
        )
      else (update ∷ rest.0, rest.1, rest.2)

  unfoldable pub inject_signature :
      ZkAppCommand M → CompressedPubKey → Bytes → ZkAppCommand M × SignatureInjectionResult
  inject_signature tx group_public_key sig_base58 =
      let paid = inject_fee_payer_signature tx group_public_key sig_base58 in
      let updated =
        inject_account_update_signatures 0 tx.account_updates group_public_key sig_base58 in
      (
        record paid.0 { account_updates = updated.0 },
        record {
          account_updates_injected = updated.1;
          fee_payer_injected = paid.1;
          warnings = paid.2 ++ updated.2;
        },
      )
