-- ===== src/ZkApp/FeePayer.antt =====
-- The account update of a fee payer, `AccountUpdate::from` in mina-tx/src/transactions/zkapp_tx.rs,
-- and the derived `Default` that it starts from.
use mina_multi_sig.Base.{ℕ, true, false, Option, none, some, [], replicate}
use mina_multi_sig.ZkApp.Types.{
  Mina, pos, negsuc, app_state_length, u32_max, dummy_hash, RangeCondition, EpochData,
  Preconditions, AccountUpdateBody, AccountUpdate, FeePayer,
}

-- The derived `Default` of a body.
module _ (M : Mina) where
  abbrev default_epoch : EpochData M
  default_epoch = record {
    ledger = record { hash = none; total_currency = none };
    seed = none;
    start_checkpoint = none;
    lock_checkpoint = none;
    epoch_length = none;
  }

  abbrev default_preconditions : Preconditions M
  default_preconditions = record {
    network = record {
      snarked_ledger_hash = none;
      blockchain_length = none;
      min_window_density = none;
      total_currency = none;
      global_slot_since_genesis = none;
      staking_epoch_data = default_epoch;
      next_epoch_data = default_epoch;
    };
    account = record {
      balance = none;
      nonce = none;
      receipt_chain_hash = none;
      delegate = none;
      state = replicate (app_state_length M.mesa_hardfork) none;
      action_state = none;
      proved_state = none;
      is_new = none;
    };
    valid_while = none;
  }

  abbrev pub default_body : AccountUpdateBody M
  default_body = record {
    public_key = M.empty_pub_key;
    token_id = M.fp_of 1;
    update = record {
      app_state = replicate (app_state_length M.mesa_hardfork) none;
      delegate = none;
      verification_key = none;
      permissions = none;
      zkapp_uri = none;
      token_symbol = none;
      timing = none;
      voting_for = none;
    };
    balance_change = record { magnitude = 0; sgn = pos 1 };
    increment_nonce = false;
    events = [];
    actions = [];
    call_data = M.fp_of 0;
    call_depth = 0;
    preconditions = default_preconditions;
    use_full_commitment = false;
    implicit_account_creation_fee = false;
    may_use_token = record { parents_own_token = false; inherit_from_parent = false };
    authorization_kind = record {
      is_signed = true;
      is_proved = false;
      verification_key_hash = dummy_hash M;
    };
  }

  unfoldable pub from_fee_payer : FeePayer M → AccountUpdate M
  from_fee_payer fee_payer =
      let account_update : AccountUpdateBody M = default_body in
      let slots : RangeCondition ℕ = record {
        lower = 0;
        upper = valid_until fee_payer.body.valid_until;
      } in
      let nonces : RangeCondition ℕ = record {
        lower = fee_payer.body.nonce;
        upper = fee_payer.body.nonce;
      } in
      record {
        body = record account_update {
          public_key = fee_payer.body.public_key;
          balance_change = record { magnitude = fee_payer.body.fee; sgn = negsuc 0 };
          increment_nonce = true;
          preconditions = record default_preconditions {
            network = record default_preconditions.network {
              global_slot_since_genesis = some slots;
            };
            account = record default_preconditions.account { nonce = some nonces };
          };
          use_full_commitment = true;
          implicit_account_creation_fee = true;
          authorization_kind = record {
            is_signed = true;
            is_proved = false;
            verification_key_hash = dummy_hash M;
          };
        };
        authorization = record { proof = none; signature = some fee_payer.authorization };
      }
    where
      valid_until : Option ℕ → ℕ
      valid_until none = u32_max
      valid_until (some slot) = slot
