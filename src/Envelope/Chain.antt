-- ===== src/Envelope/Chain.antt =====
-- Signing sessions in a chain: the output of one is the input of the next.
use mina_multi_sig.Base.{◌≡◌, refl, ap, ◌∙◌, List, [], ◌∷◌, Option}
use mina_multi_sig.Text.{Bytes}
use mina_multi_sig.NetworkId.{NetworkId}
use mina_multi_sig.Base58.{Base58Crates}
use mina_multi_sig.Signatures.{Sig, to_base58}
use mina_multi_sig.ZkApp.Types.{Mina}
use mina_multi_sig.ZkApp.Inject.Commitment.{zk_commit-inject_signature}
use mina_multi_sig.Envelope.{
  from_parts, TransactionKind, zk_app, legacy, TransactionEnvelope, is_legacy, kind_roinput,
  commitment_input, to_roinput, to_pallas_message, inject_kind, new_with_zkapp_injection,
}

module _ (M : Mina) (B : Base58Crates) where
  kind_roinput-inject_kind :
      (key : M.CompressedPubKey) (sig : Sig) (network : NetworkId) (kind : TransactionKind M)
      → kind_roinput M network (inject_kind M B key sig kind).0 ≡ kind_roinput M network kind
  unfolding kind_roinput
  kind_roinput-inject_kind key sig network (zk_app tx) =
      ap (commitment_input M) (zk_commit-inject_signature M tx key (to_base58 B sig) network)
  kind_roinput-inject_kind key sig network (legacy tx) = refl

  is_legacy-inject_kind :
      (key : M.CompressedPubKey) (sig : Sig) (kind : TransactionKind M)
      → is_legacy M (inject_kind M B key sig kind).0 ≡ is_legacy M kind
  is_legacy-inject_kind key sig (zk_app tx) = refl
  is_legacy-inject_kind key sig (legacy tx) = refl

  -- Each group signs what the one before it put out.
  unfoldable pub sign_in_turn :
      List (M.CompressedPubKey × Sig) → TransactionEnvelope M → TransactionEnvelope M
  sign_in_turn [] payload = payload
  sign_in_turn ((key, sig) ∷ groups) payload =
      sign_in_turn groups (new_with_zkapp_injection M B key sig payload).0.payload

  module _ (write : M.RoInput → Bytes) (read : Bytes → Option M.RoInput) where
    to_pallas_message-new_with_zkapp_injection :
        (key : M.CompressedPubKey) (sig : Sig) (payload : TransactionEnvelope M)
        → to_pallas_message M write read (new_with_zkapp_injection M B key sig payload).0.payload
          ≡ to_pallas_message M write read payload
    unfolding to_pallas_message new_with_zkapp_injection
    to_pallas_message-new_with_zkapp_injection key sig payload =
        ap
          (λ input.
            from_parts M write read input payload.network_id
              (is_legacy M (inject_kind M B key sig payload.kind).0))
          (kind_roinput-inject_kind key sig payload.network_id payload.kind)
        ∙ ap (from_parts M write read (to_roinput M payload) payload.network_id)
            (is_legacy-inject_kind key sig payload.kind)

    -- However many groups have put their signatures into a transaction, the next one signs the same
    -- message.
    pub to_pallas_message-sign_in_turn :
        (groups : List (M.CompressedPubKey × Sig)) (payload : TransactionEnvelope M)
        → to_pallas_message M write read (sign_in_turn groups payload)
          ≡ to_pallas_message M write read payload
    unfolding sign_in_turn
    to_pallas_message-sign_in_turn [] payload = refl
    to_pallas_message-sign_in_turn ((key, sig) ∷ groups) payload =
        to_pallas_message-sign_in_turn groups
          (new_with_zkapp_injection M B key sig payload).0.payload
        ∙ to_pallas_message-new_with_zkapp_injection key sig payload
