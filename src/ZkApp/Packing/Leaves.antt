-- ===== src/ZkApp/Packing/Leaves.antt =====
-- The layouts of the fields' types.
use mina_multi_sig.Base.{
  ℕ, ◌+◌, ◌-◌, ◌≡◌, ◌∙◌, refl, ap, Bool, true, false, List, [], ◌∷◌, ◌++◌, length, take, drop, min,
  Option, none, some, arith, length-append, length-drop, replicate, Option-cases, inl, inr,
}
use mina_multi_sig.Text.{Bytes}
use mina_multi_sig.ZkApp.Types.{
  Mina, RangeCondition, AuthRequired, SetVerificationKey, Permissions, VerificationKeyData,
  TimingData, MayUseToken, BalanceChange, AuthorizationKind,
}
use mina_multi_sig.ZkApp.Packing.{bit_data_size, pack_to_fields}
use mina_multi_sig.ZkApp.Packing.Basic.{
  Packed, empty_action_state, empty_zkapp_uri, pack_actions, pack_all, pack_auth,
  pack_authorization_kind, pack_balance_change, pack_events, pack_field, pack_may_use_token,
  pack_option_bool, pack_permissions, pack_public_key, pack_range_u32, pack_range_u64,
  pack_set_verification_key, pack_timing, pack_token_symbol, symbol_bits, field_or_panic,
  pack_verification_key, pack_zkapp_uri, uri_bits, ◌⊕◌, to_bytes,
}
use mina_multi_sig.ZkApp.Packing.Shape.{
  Layout, ◌+++◌, HasLayout, ◌<⊕>◌, one_bit_of, bit_layout, field_layout, then_times, bit-HasLayout,
  field-HasLayout, u32-HasLayout, u64-HasLayout,
}

abbrev pub public_key_layout : Layout
public_key_layout = field_layout +++ bit_layout

abbrev pub range_u32_layout : Layout
range_u32_layout = one_bit_of 32 +++ one_bit_of 32

abbrev pub range_u64_layout : Layout
range_u64_layout = one_bit_of 64 +++ one_bit_of 64

abbrev pub auth_layout : Layout
auth_layout = bit_layout +++ bit_layout +++ bit_layout

abbrev pub set_verification_key_layout : Layout
set_verification_key_layout = auth_layout +++ one_bit_of 32

-- Thirteen permissions, the seventh with a version.
abbrev pub permissions_layout : Layout
permissions_layout =
    auth_layout +++ auth_layout +++ auth_layout +++ auth_layout +++ auth_layout +++ auth_layout
    +++ set_verification_key_layout +++ auth_layout +++ auth_layout +++ auth_layout +++ auth_layout
    +++ auth_layout +++ auth_layout

abbrev pub timing_layout : Layout
timing_layout =
    one_bit_of 64 +++ one_bit_of 32 +++ one_bit_of 64 +++ one_bit_of 32 +++ one_bit_of 64

module _ (M : Mina) where
  pub pack_field-HasLayout : (f : M.Fp) → HasLayout M field_layout (pack_field M f)
  unfolding pack_field
  pack_field-HasLayout f = field-HasLayout f

  pub pack_public_key-HasLayout :
      (k : M.CompressedPubKey) → HasLayout M public_key_layout (pack_public_key M k)
  unfolding pack_public_key
  pack_public_key-HasLayout k = field-HasLayout (M.x k) <⊕> bit-HasLayout (M.is_odd k)

  pub pack_range_u32-HasLayout :
      (r : RangeCondition ℕ) → HasLayout M range_u32_layout (pack_range_u32 M r)
  unfolding pack_range_u32
  pack_range_u32-HasLayout r = u32-HasLayout r.lower <⊕> u32-HasLayout r.upper

  pub pack_range_u64-HasLayout :
      (r : RangeCondition ℕ) → HasLayout M range_u64_layout (pack_range_u64 M r)
  unfolding pack_range_u64
  pack_range_u64-HasLayout r = u64-HasLayout r.lower <⊕> u64-HasLayout r.upper

  pub pack_option_bool-HasLayout :
      (o : Option Bool) → HasLayout M (bit_layout +++ bit_layout) (pack_option_bool M o)
  unfolding pack_option_bool
  pack_option_bool-HasLayout none = bit-HasLayout false <⊕> bit-HasLayout false
  pack_option_bool-HasLayout (some b) = bit-HasLayout true <⊕> bit-HasLayout b

  pub pack_auth-HasLayout : (a : AuthRequired) → HasLayout M auth_layout (pack_auth M a)
  unfolding pack_auth
  pack_auth-HasLayout a = bit-HasLayout _ <⊕> bit-HasLayout _ <⊕> bit-HasLayout _

  pub pack_set_verification_key-HasLayout :
      (s : SetVerificationKey)
      → HasLayout M set_verification_key_layout (pack_set_verification_key M s)
  unfolding pack_set_verification_key
  pack_set_verification_key-HasLayout s = pack_auth-HasLayout s.auth <⊕> u32-HasLayout s.txn_version

  pub pack_permissions-HasLayout :
      (p : Permissions) → HasLayout M permissions_layout (pack_permissions M p)
  unfolding pack_permissions
  pack_permissions-HasLayout p =
      pack_auth-HasLayout p.edit_state
      <⊕> pack_auth-HasLayout p.access
      <⊕> pack_auth-HasLayout p.send
      <⊕> pack_auth-HasLayout p.receive
      <⊕> pack_auth-HasLayout p.set_delegate
      <⊕> pack_auth-HasLayout p.set_permissions
      <⊕> pack_set_verification_key-HasLayout p.set_verification_key
      <⊕> pack_auth-HasLayout p.set_zkapp_uri
      <⊕> pack_auth-HasLayout p.edit_action_state
      <⊕> pack_auth-HasLayout p.set_token_symbol
      <⊕> pack_auth-HasLayout p.increment_nonce
      <⊕> pack_auth-HasLayout p.set_voting_for
      <⊕> pack_auth-HasLayout p.set_timing

  field_or_panic-HasLayout : (o : Option M.Fp) → HasLayout M field_layout (field_or_panic M o)
  field_or_panic-HasLayout none = record { fits = tt }
  field_or_panic-HasLayout (some f) = field-HasLayout f

  pub pack_events-HasLayout : (e : List (List M.Fp)) → HasLayout M field_layout (pack_events M e)
  unfolding pack_events
  pack_events-HasLayout e = field_or_panic-HasLayout _

  pub pack_actions-HasLayout : (e : List (List M.Fp)) → HasLayout M field_layout (pack_actions M e)
  unfolding pack_actions
  pack_actions-HasLayout e = field_or_panic-HasLayout _

  pub pack_timing-HasLayout : (t : TimingData) → HasLayout M timing_layout (pack_timing M t)
  unfolding pack_timing
  pack_timing-HasLayout t =
      u64-HasLayout _
      <⊕> u32-HasLayout _
      <⊕> u64-HasLayout _
      <⊕> u32-HasLayout _
      <⊕> u64-HasLayout _

  pub pack_verification_key-HasLayout :
      (k : VerificationKeyData M) → HasLayout M field_layout (pack_verification_key M k)
  unfolding pack_verification_key
  pack_verification_key-HasLayout k = field-HasLayout k.hash

  pub pack_balance_change-HasLayout :
      (b : BalanceChange) → HasLayout M (one_bit_of 64 +++ bit_layout) (pack_balance_change M b)
  unfolding pack_balance_change
  pack_balance_change-HasLayout b = u64-HasLayout b.magnitude <⊕> bit-HasLayout _

  pub pack_may_use_token-HasLayout :
      (m : MayUseToken) → HasLayout M (bit_layout +++ bit_layout) (pack_may_use_token M m)
  unfolding pack_may_use_token
  pack_may_use_token-HasLayout m = bit-HasLayout _ <⊕> bit-HasLayout _

  pub pack_authorization_kind-HasLayout :
      (k : AuthorizationKind M)
      → HasLayout M (bit_layout +++ bit_layout +++ field_layout) (pack_authorization_kind M k)
  unfolding pack_authorization_kind
  pack_authorization_kind-HasLayout k = bit-HasLayout _ <⊕> bit-HasLayout _ <⊕> field-HasLayout _

  to_bytes-length :
      (symbol buffer s : Bytes) → to_bytes symbol buffer ≡ some s → length s ≡ length buffer
  unfolding to_bytes
  to_bytes-length symbol buffer s h =
      let size : length (take (min (length symbol) 6) symbol ++ drop (length symbol) buffer)
          ≡ length (take (min (length symbol) 6) symbol) + (length buffer - length symbol) =
        length-append (take (min (length symbol) 6) symbol) (drop (length symbol) buffer)
        ∙ ap (λ k. length (take (min (length symbol) 6) symbol) + k)
            (length-drop (length symbol) buffer) in
      ground (arith, size)

  pub pack_token_symbol-HasLayout :
      (s : Bytes) → HasLayout M (one_bit_of 48) (pack_token_symbol M s)
  unfolding pack_token_symbol bit_data_size
  pack_token_symbol-HasLayout s =
      go (to_bytes s (replicate 6 0)) (to_bytes-length s (replicate 6 0))
    where
      go :
          (o : Option Bytes)
          → ((t : Bytes) → o ≡ some t → length t ≡ 6)
          → HasLayout M (one_bit_of 48) (symbol_bits M o)
      go none h = record { fits = tt }
      go (some t) h = record { fits = cc (h t refl) }

  pub pack_zkapp_uri-HasLayout : (u : Bytes) → HasLayout M field_layout (pack_zkapp_uri M u)
  unfolding pack_zkapp_uri
  pack_zkapp_uri-HasLayout u =
      elim (Option-cases (pack_to_fields M (record { bits = uri_bits M u; fields = [] }))) [
        | inl e ↦ rw (e, pack_zkapp_uri) (record { fits = tt })
        | inr (f, e) ↦ rw (e, pack_zkapp_uri) (field_or_panic-HasLayout _)
      ]

  pub empty_action_state-HasLayout : HasLayout M field_layout (empty_action_state M)
  unfolding empty_action_state
  empty_action_state-HasLayout = field_or_panic-HasLayout _

  pub empty_zkapp_uri-HasLayout : HasLayout M field_layout (empty_zkapp_uri M)
  unfolding empty_zkapp_uri
  empty_zkapp_uri-HasLayout = field_or_panic-HasLayout _

  pub pack_all-HasLayout :
      {T : Type 0} {l : Layout} {pack : T → Packed M} (l0 : Layout) (roi : Packed M) (ts : List T)
      → ((a : T) → HasLayout M l (pack a))
      → HasLayout M l0 roi
      → HasLayout M (then_times l0 (length ts) l) (pack_all M pack roi ts)
  unfolding pack_all
  pack_all-HasLayout l0 roi [] h g = g
  pack_all-HasLayout l0 roi (t ∷ ts) h g = pack_all-HasLayout (l0 +++ _) (roi ⊕ _) ts h (g <⊕> h t)
