-- ===== src/ZkApp/Packing/Basic.antt =====
-- mina-tx/src/transactions/zkapp_tx/packing.rs: `Packable` and `Emptiable` for the types of fields.
use mina_multi_sig.Base.{
  ℕ, ◌/◌, ◌%◌, Bool, true, false, List, [], ◌∷◌, ◌++◌, ltb, ◌==◌, if◌then◌else◌, length, take, drop,
  replicate, min, Option, none, some, Result, ok, err,
}
use mina_multi_sig.Text.{Bytes}
use mina_multi_sig.ZkApp.Types.{
  Mina, ℤ, pos, negsuc, RangeCondition, AuthRequired, encode, SetVerificationKey, Permissions,
  VerificationKeyData, TimingData, MayUseToken, BalanceChange, AuthorizationKind, u32_max, u64_max,
  txn_version_current, no_auth,
}
use mina_multi_sig.ZkApp.Hash.{
  hash_noinput, hash_with_prefix, zk_app_events_empty, zk_app_events_prefix, zk_app_event_prefix,
  zk_app_actions_empty, zk_app_actions_prefix, zk_action_state_empty, mina_zkapp_uri,
}
use mina_multi_sig.ZkApp.Packing.{
  BitData, u32, u64, bool, bytes, PackedInput, empty_input, one_field, one_bit, append_packedinput,
  pack_to_fields,
}

-- `unwrap`; `none` is its panic.
abbrev unwrap : {E A : Type 0} → Result E A → Option A
unwrap (ok a) = some a
unwrap (err e) = none

-- `TokenSymbol::to_bytes`: the buffer after the call.
unfoldable pub to_bytes : Bytes → Bytes → Option Bytes
to_bytes symbol buffer =
    let len = length symbol in
    if len == 0
    then some buffer
    else if ltb (length buffer) len
    then none
    else if len == length (take (min len 6) symbol)
    then some (take (min len 6) symbol ++ drop len buffer)
    else none

-- `.append_packedinput(..)` of what has been packed.
infixl 10 ◌⊕◌
abbrev pub ◌⊕◌ :
    {M : Mina} → Option (PackedInput M) → Option (PackedInput M) → Option (PackedInput M)
none ⊕ q = none
some p ⊕ none = none
some p ⊕ some q = some (append_packedinput _ p q)

module _ (M : Mina) where
  open M use {Fp, fp_of, CompressedPubKey, x, is_odd, empty_pub_key, mesa_hardfork}

  abbrev pub Packed : Type 0
  Packed = Option (PackedInput M)

  abbrev pub bit : Bool → Packed
  bit b = some (one_bit M (bool b))

  unfoldable pub pack_field : Fp → Packed
  pack_field f = some (one_field M f)

  unfoldable pub pack_public_key : CompressedPubKey → Packed
  pack_public_key k = some (one_field M (x k)) ⊕ bit (is_odd k)

  unfoldable pub pack_range_u32 : RangeCondition ℕ → Packed
  pack_range_u32 r = some (one_bit M (u32 r.lower)) ⊕ some (one_bit M (u32 r.upper))

  unfoldable pub pack_range_u64 : RangeCondition ℕ → Packed
  pack_range_u64 r = some (one_bit M (u64 r.lower)) ⊕ some (one_bit M (u64 r.upper))

  -- `Option<T>`, with the packing and the empty input of `T`.
  unfoldable pub pack_option : {T : Type 0} → (T → Packed) → Packed → Option T → Packed
  pack_option pack empty none = bit false ⊕ empty
  pack_option pack empty (some a) = bit true ⊕ pack a

  unfoldable pub pack_option_bool : Option Bool → Packed
  pack_option_bool none = bit false ⊕ bit false
  pack_option_bool (some b) = bit true ⊕ bit b

  -- `Vec<T>` and `[T; N]`.
  unfoldable pub pack_all : {T : Type 0} → (T → Packed) → Packed → List T → Packed
  pack_all pack roi [] = roi
  pack_all pack roi (item ∷ items) = pack_all pack (roi ⊕ pack item) items

  unfoldable pub pack_auth : AuthRequired → Packed
  pack_auth auth =
      let encoded = encode auth in
      bit encoded.constant ⊕ bit encoded.signature_necessary ⊕ bit encoded.signature_sufficient

  unfoldable pub pack_set_verification_key : SetVerificationKey → Packed
  pack_set_verification_key s = pack_auth s.auth ⊕ some (one_bit M (u32 s.txn_version))

  unfoldable pub pack_permissions : Permissions → Packed
  pack_permissions p =
      pack_auth p.edit_state
      ⊕ pack_auth p.access
      ⊕ pack_auth p.send
      ⊕ pack_auth p.receive
      ⊕ pack_auth p.set_delegate
      ⊕ pack_auth p.set_permissions
      ⊕ pack_set_verification_key p.set_verification_key
      ⊕ pack_auth p.set_zkapp_uri
      ⊕ pack_auth p.edit_action_state
      ⊕ pack_auth p.set_token_symbol
      ⊕ pack_auth p.increment_nonce
      ⊕ pack_auth p.set_voting_for
      ⊕ pack_auth p.set_timing

  -- `rfold`: the last event is taken first.
  unfoldable pub fold_events : Bytes → Option Fp → List (List Fp) → Option Fp
  fold_events prefix init [] = init
  fold_events prefix init (event ∷ events) = elim (fold_events prefix init events) [
    | none ↦ none
    | some acc ↦ elim (hash_with_prefix M zk_app_event_prefix event) [
      | err _ ↦ none
      | ok event_hash ↦ unwrap (hash_with_prefix M prefix (acc ∷ event_hash ∷ []))
    ]
  ]

  abbrev pub field_or_panic : Option Fp → Packed
  field_or_panic none = none
  field_or_panic (some f) = some (one_field M f)

  unfoldable pub pack_events : List (List Fp) → Packed
  pack_events events =
      field_or_panic
        (fold_events zk_app_events_prefix (unwrap (hash_noinput M zk_app_events_empty)) events)

  unfoldable pub pack_actions : List (List Fp) → Packed
  pack_actions actions =
      field_or_panic
        (fold_events zk_app_actions_prefix (unwrap (hash_noinput M zk_app_actions_empty)) actions)

  unfoldable pub pack_timing : TimingData → Packed
  pack_timing t =
      some (one_bit M (u64 t.initial_minimum_balance))
      ⊕ some (one_bit M (u32 t.cliff_time))
      ⊕ some (one_bit M (u64 t.cliff_amount))
      ⊕ some (one_bit M (u32 t.vesting_period))
      ⊕ some (one_bit M (u64 t.vesting_increment))

  -- The data of the key is not packed.
  unfoldable pub pack_verification_key : VerificationKeyData M → Packed
  pack_verification_key k = some (one_field M k.hash)

  abbrev is_one : ℤ → Bool
  is_one (pos n) = n == 1
  is_one (negsuc n) = false

  unfoldable pub pack_balance_change : BalanceChange → Packed
  pack_balance_change b = some (one_bit M (u64 b.magnitude)) ⊕ bit (is_one b.sgn)

  unfoldable pub pack_may_use_token : MayUseToken → Packed
  pack_may_use_token m = bit m.parents_own_token ⊕ bit m.inherit_from_parent

  unfoldable pub pack_authorization_kind : AuthorizationKind M → Packed
  pack_authorization_kind k =
      bit k.is_signed ⊕ bit k.is_proved ⊕ some (one_field M k.verification_key_hash)

  abbrev pub symbol_bits : Option Bytes → Packed
  symbol_bits none = none
  symbol_bits (some s) = some (one_bit M (bytes s))

  unfoldable pub pack_token_symbol : Bytes → Packed
  pack_token_symbol symbol = symbol_bits (to_bytes symbol (replicate 6 0))

  -- The bits of a byte, the lowest first.
  abbrev pub low_bits : ℕ → List BitData
  low_bits c =
      bool (c % 2 == 1)
      ∷ bool ((c / 2) % 2 == 1)
      ∷ bool ((c / 4) % 2 == 1)
      ∷ bool ((c / 8) % 2 == 1)
      ∷ bool ((c / 16) % 2 == 1)
      ∷ bool ((c / 32) % 2 == 1)
      ∷ bool ((c / 64) % 2 == 1)
      ∷ bool ((c / 128) % 2 == 1)
      ∷ []

  abbrev pub uri_bits : Bytes → List BitData
  uri_bits [] = bool true ∷ []
  uri_bits (c ∷ rest) = low_bits c ++ uri_bits rest

  unfoldable pub pack_zkapp_uri : Bytes → Packed
  pack_zkapp_uri uri = elim (pack_to_fields M (record { bits = uri_bits uri; fields = [] })) [
    | none ↦ none
    | some fields ↦ field_or_panic (unwrap (hash_with_prefix M mina_zkapp_uri fields))
  ]

  -- `empty_roi` of each type.
  unfoldable pub empty_field : Packed
  empty_field = pack_field (fp_of 0)

  unfoldable pub empty_action_state : Packed
  empty_action_state = field_or_panic (unwrap (hash_noinput M zk_action_state_empty))

  unfoldable pub empty_public_key : Packed
  empty_public_key = pack_public_key empty_pub_key

  unfoldable pub empty_permissions : Packed
  empty_permissions = pack_permissions (record {
    edit_state = no_auth;
    access = no_auth;
    send = no_auth;
    receive = no_auth;
    set_delegate = no_auth;
    set_permissions = no_auth;
    set_verification_key = record {
      auth = no_auth;
      txn_version = txn_version_current mesa_hardfork;
    };
    set_zkapp_uri = no_auth;
    edit_action_state = no_auth;
    set_token_symbol = no_auth;
    increment_nonce = no_auth;
    set_voting_for = no_auth;
    set_timing = no_auth;
  })

  unfoldable pub empty_token_symbol : Packed
  empty_token_symbol = some (empty_input M) ⊕ pack_token_symbol []

  unfoldable pub empty_timing : Packed
  empty_timing = pack_timing (record {
    initial_minimum_balance = 0;
    cliff_time = 0;
    cliff_amount = 0;
    vesting_period = 0;
    vesting_increment = 0;
  })

  unfoldable pub empty_range_u32 : Packed
  empty_range_u32 = pack_range_u32 (record { lower = 0; upper = u32_max })

  unfoldable pub empty_range_u64 : Packed
  empty_range_u64 = pack_range_u64 (record { lower = 0; upper = u64_max })

  unfoldable pub empty_zkapp_uri : Packed
  empty_zkapp_uri =
      let roi = M.append_field (M.append_field M.new_roinput (fp_of 0)) (fp_of 0) in
      field_or_panic (unwrap (hash_with_prefix M mina_zkapp_uri (M.to_fields roi)))
