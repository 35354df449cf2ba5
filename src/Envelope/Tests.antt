-- ===== src/Envelope/Tests.antt =====
-- Two groups sign one command.
use mina_multi_sig.Base.{ℕ, ◌≡◌, refl, List, [], ◌∷◌, some, none, ok}
use mina_multi_sig.Text.{ascii}
use mina_multi_sig.NetworkId.{testnet, mainnet}
use mina_multi_sig.Base58.Samples.{plain}
use mina_multi_sig.Signatures.{Sig}
use mina_multi_sig.ZkApp.Samples.{small, command}
use mina_multi_sig.LegacyTx.{new_payment}
use mina_multi_sig.Envelope.{
  Readers, new_zk_app, new_legacy, to_pallas_message, new_with_zkapp_injection, from_str_network,
}
use mina_multi_sig.Envelope.Chain.{sign_in_turn, to_pallas_message-sign_in_turn}

abbrev signature_of : ℕ → Sig
signature_of n = record { field_value = n ∷ 0 ∷ 0 ∷ 0 ∷ []; scalar = 7 ∷ 0 ∷ 0 ∷ 0 ∷ [] }

abbrev groups : List (ℕ × Sig)
groups = (5, signature_of 1) ∷ (6, signature_of 2) ∷ []

to_pallas_message-sign_in_turn_example :
    to_pallas_message small
      (λ i. i)
      (λ b. some b)
      (sign_in_turn small plain groups (new_zk_app small testnet command))
    ≡ to_pallas_message small (λ i. i) (λ b. some b) (new_zk_app small testnet command)
to_pallas_message-sign_in_turn_example =
    to_pallas_message-sign_in_turn small plain (λ i. i) (λ b. some b) groups
      (new_zk_app small testnet command)

-- A legacy transaction is not changed.
legacy_kept :
    sign_in_turn small plain groups (new_legacy small mainnet (new_payment small 5 6 100 10 0))
    ≡ new_legacy small mainnet (new_payment small 5 6 100 10 0)
unfolding sign_in_turn new_with_zkapp_injection
legacy_kept = refl

-- One text that is a signed command for mainnet.
abbrev one_signed : Readers small
one_signed = record {
  trim = λ s. s;
  read_signed = λ s. some (record {
    public_key = 5;
    signature = signature_of 1;
    payload = new_zk_app small mainnet command;
  });
  read_zk_app = λ s. none;
  read_legacy = λ s. none;
}

-- The network that was asked for does not matter.
own_network :
    from_str_network small one_signed (ascii "{}") testnet ≡ ok (new_zk_app small mainnet command)
unfolding from_str_network
own_network = refl
