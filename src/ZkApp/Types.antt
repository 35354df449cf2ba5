-- ===== src/ZkApp/Types.antt =====
-- The structs of mina-tx/src/transactions/zkapp_tx.rs. The wrappers `Field`, `PublicKey`, `TokenId`,
-- `ActionState`, `StringU32` and `StringU64` are the types that they wrap, `[T; N]` is a list.
use mina_multi_sig.Base.{ℕ, Bool, true, false, Option, List, if◌then◌else◌, ◌^◌, ◌-◌}
use mina_multi_sig.Text.{Bytes}

-- The crates ark_ff, mina_hasher, mina_signer and mina_poseidon, and the feature `mesa-hardfork`.
pub record Mina : Type 1 where
  pub mesa_hardfork : Bool
  pub Fp : Type 0
  pub fp_discrete : Discrete Fp
  pub fp_of : ℕ → Fp
  pub fp_add : Fp → Fp → Fp
  pub fp_mul : Fp → Fp → Fp
  pub from_random_bytes : Bytes → Option Fp
  pub Sponge : Type 0
  pub new_sponge : Sponge
  pub absorb : Sponge → List Fp → Sponge
  pub squeeze : Sponge → Sponge × Fp
  pub RoInput : Type 0
  pub new_roinput : RoInput
  pub append_field : RoInput → Fp → RoInput
  pub append_bool : RoInput → Bool → RoInput
  pub append_u32 : RoInput → ℕ → RoInput
  pub append_u64 : RoInput → ℕ → RoInput
  pub append_bytes : RoInput → Bytes → RoInput
  pub to_fields : RoInput → List Fp
  pub CompressedPubKey : Type 0
  pub pub_key_discrete : Discrete CompressedPubKey
  pub empty_pub_key : CompressedPubKey
  pub x : CompressedPubKey → Fp
  pub is_odd : CompressedPubKey → Bool
  pub into_address : CompressedPubKey → Bytes

-- `i8`, for signs.
pub data ℤ : Type 0 where
  pos : ℕ → ℤ
  negsuc : ℕ → ℤ

abbrev pub app_state_length : Bool → ℕ
app_state_length mesa_hardfork = if mesa_hardfork then 32 else 8

abbrev pub txn_version_current : Bool → ℕ
txn_version_current mesa_hardfork = if mesa_hardfork then 4 else 3

abbrev pub u32_max : ℕ
u32_max = 2 ^ 32 - 1

abbrev pub u64_max : ℕ
u64_max = 2 ^ 64 - 1

-- `DUMMY_HASH`
abbrev pub dummy_hash : (M : Mina) → M.Fp
dummy_hash M = M.fp_of 3392518251768960475377392625298437850623664973002200885669375116181514017494

pub record RangeCondition (T : Type 0) : Type 0 where
  pub lower : T
  pub upper : T

pub data AuthRequired : Type 0 where
  no_auth : AuthRequired
  either : AuthRequired
  proof : AuthRequired
  signature : AuthRequired
  impossible : AuthRequired
  both : AuthRequired

pub record AuthRequiredEncoded : Type 0 where
  pub constant : Bool
  pub signature_necessary : Bool
  pub signature_sufficient : Bool

unfoldable pub encode : AuthRequired → AuthRequiredEncoded
encode no_auth = record {
  constant = true;
  signature_necessary = false;
  signature_sufficient = true;
}
encode either = record {
  constant = false;
  signature_necessary = false;
  signature_sufficient = true;
}
encode proof = record {
  constant = false;
  signature_necessary = false;
  signature_sufficient = false;
}
encode signature = record {
  constant = false;
  signature_necessary = true;
  signature_sufficient = true;
}
encode impossible = record {
  constant = true;
  signature_necessary = true;
  signature_sufficient = false;
}
encode both = record { constant = false; signature_necessary = true; signature_sufficient = false }

pub record SetVerificationKey : Type 0 where
  pub auth : AuthRequired
  pub txn_version : ℕ

pub record Permissions : Type 0 where
  pub edit_state : AuthRequired
  pub access : AuthRequired
  pub send : AuthRequired
  pub receive : AuthRequired
  pub set_delegate : AuthRequired
  pub set_permissions : AuthRequired
  pub set_verification_key : SetVerificationKey
  pub set_zkapp_uri : AuthRequired
  pub edit_action_state : AuthRequired
  pub set_token_symbol : AuthRequired
  pub increment_nonce : AuthRequired
  pub set_voting_for : AuthRequired
  pub set_timing : AuthRequired

pub record VerificationKeyData (M : Mina) : Type 0 where
  pub key_data : Bytes
  pub hash : M.Fp

pub record TimingData : Type 0 where
  pub initial_minimum_balance : ℕ
  pub cliff_time : ℕ
  pub cliff_amount : ℕ
  pub vesting_period : ℕ
  pub vesting_increment : ℕ

pub record EpochLedger (M : Mina) : Type 0 where
  pub hash : Option M.Fp
  pub total_currency : Option (RangeCondition ℕ)

pub record EpochData (M : Mina) : Type 0 where
  pub ledger : EpochLedger M
  pub seed : Option M.Fp
  pub start_checkpoint : Option M.Fp
  pub lock_checkpoint : Option M.Fp
  pub epoch_length : Option (RangeCondition ℕ)

pub record NetworkPreconditions (M : Mina) : Type 0 where
  pub snarked_ledger_hash : Option M.Fp
  pub blockchain_length : Option (RangeCondition ℕ)
  pub min_window_density : Option (RangeCondition ℕ)
  pub total_currency : Option (RangeCondition ℕ)
  pub global_slot_since_genesis : Option (RangeCondition ℕ)
  pub staking_epoch_data : EpochData M
  pub next_epoch_data : EpochData M

pub record AccountPreconditions (M : Mina) : Type 0 where
  pub balance : Option (RangeCondition ℕ)
  pub nonce : Option (RangeCondition ℕ)
  pub receipt_chain_hash : Option M.Fp
  pub delegate : Option M.CompressedPubKey
  pub state : List (Option M.Fp)
  pub action_state : Option M.Fp
  pub proved_state : Option Bool
  pub is_new : Option Bool

pub record Preconditions (M : Mina) : Type 0 where
  pub network : NetworkPreconditions M
  pub account : AccountPreconditions M
  pub valid_while : Option (RangeCondition ℕ)

pub record Update (M : Mina) : Type 0 where
  pub app_state : List (Option M.Fp)
  pub delegate : Option M.CompressedPubKey
  pub verification_key : Option (VerificationKeyData M)
  pub permissions : Option Permissions
  pub zkapp_uri : Option Bytes
  pub token_symbol : Option Bytes
  pub timing : Option TimingData
  pub voting_for : Option M.Fp

pub record MayUseToken : Type 0 where
  pub parents_own_token : Bool
  pub inherit_from_parent : Bool

pub record BalanceChange : Type 0 where
  pub magnitude : ℕ
  pub sgn : ℤ

pub record AuthorizationKind (M : Mina) : Type 0 where
  pub is_signed : Bool
  pub is_proved : Bool
  pub verification_key_hash : M.Fp

pub record Authorization : Type 0 where
  pub proof : Option Bytes
  pub signature : Option Bytes

pub record AccountUpdateBody (M : Mina) : Type 0 where
  pub public_key : M.CompressedPubKey
  pub token_id : M.Fp
  pub update : Update M
  pub balance_change : BalanceChange
  pub increment_nonce : Bool
  pub events : List (List M.Fp)
  pub actions : List (List M.Fp)
  pub call_data : M.Fp
  pub call_depth : ℕ
  pub preconditions : Preconditions M
  pub use_full_commitment : Bool
  pub implicit_account_creation_fee : Bool
  pub may_use_token : MayUseToken
  pub authorization_kind : AuthorizationKind M

pub record AccountUpdate (M : Mina) : Type 0 where
  pub body : AccountUpdateBody M
  pub authorization : Authorization

pub record FeePayerBody (M : Mina) : Type 0 where
  pub public_key : M.CompressedPubKey
  pub fee : ℕ
  pub valid_until : Option ℕ
  pub nonce : ℕ

pub record FeePayer (M : Mina) : Type 0 where
  pub body : FeePayerBody M
  pub authorization : Bytes

pub record ZkAppCommand (M : Mina) : Type 0 where
  pub fee_payer : FeePayer M
  pub account_updates : List (AccountUpdate M)
  pub memo : Bytes
