-- ===== src/ZkApp/Samples.antt =====
-- A small field, sponge and commands, for runs of the definitions.
use mina_multi_sig.Base.{
  ℕ, ◌+◌, ◌*◌, true, false, List, [], ◌∷◌, ◌++◌, length, none, some, ℕ_discrete,
}
use mina_multi_sig.ZkApp.Types.{Mina, AccountUpdate, ZkAppCommand}
use mina_multi_sig.ZkApp.FeePayer.{default_body}

-- Numbers for fields, and a sponge that squeezes the length of what it absorbed.
abbrev pub small : Mina
small = record {
  mesa_hardfork = false;
  Fp = ℕ;
  fp_discrete = ℕ_discrete;
  fp_of = λ n. n;
  fp_add = λ a b. a + b;
  fp_mul = λ a b. a * b;
  from_random_bytes = λ b. some (length b);
  Sponge = List ℕ;
  new_sponge = [];
  absorb = λ s fs. s ++ fs;
  squeeze = λ s. (s, length s);
  RoInput = List ℕ;
  new_roinput = [];
  append_field = λ r f. r ++ f ∷ [];
  append_bool = λ r b. r;
  append_u32 = λ r n. r ++ n ∷ [];
  append_u64 = λ r n. r ++ n ∷ [];
  append_bytes = λ r b. r ++ b;
  to_fields = λ r. r;
  CompressedPubKey = ℕ;
  pub_key_discrete = ℕ_discrete;
  empty_pub_key = 0;
  x = λ k. k;
  is_odd = λ k. false;
  into_address = λ k. k ∷ [];
}

abbrev pub update_at : ℕ → ℕ → AccountUpdate small
update_at depth key = record {
  body = record (default_body small) {
    call_depth = depth;
    public_key = key;
    use_full_commitment = true;
  };
  authorization = record { proof = none; signature = none };
}

-- Two trees, the first with a child; the second is of another key.
abbrev pub command : ZkAppCommand small
command = record {
  fee_payer = record {
    body = record { public_key = 5; fee = 100; valid_until = none; nonce = 3 };
    authorization = [];
  };
  account_updates = update_at 0 5 ∷ update_at 1 5 ∷ update_at 0 6 ∷ [];
  memo = 1 ∷ 2 ∷ [];
}
