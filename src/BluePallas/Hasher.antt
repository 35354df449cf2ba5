-- ===== src/BluePallas/Hasher.antt =====
-- frost-bluepallas/src/hasher.rs, and the hash functions of the ciphersuite in lib.rs: the input of
-- the Poseidon hash is the number of segments and, for each segment, its length and its bytes. The
-- hash itself and `ROInput` are the interface `HashCrates` of mina_hasher.
pub mod Injective
use mina_multi_sig.Base.{ℕ, zero, suc, ◌/◌, ◌%◌, ◌^◌, List, [], ◌∷◌, length}
use mina_multi_sig.Text.LittleEndian.{u64_le_bytes}
use mina_multi_sig.Text.{Bytes, ascii}

pub record HashCrates : Type 1 where
  pub RoInput : Type 0
  pub Scalar : Type 0
  pub new_roinput : RoInput
  pub append_bytes : RoInput → Bytes → RoInput
  pub hash_to_fq : RoInput → Scalar
  pub serialize_scalar : Scalar → Bytes

module _ (H : HashCrates) where
  open H use {RoInput, Scalar, append_bytes}

  abbrev pub append_segments : RoInput → List Bytes → RoInput
  append_segments roi [] = roi
  append_segments roi (segment ∷ segments) =
      append_segments (append_bytes (append_bytes roi (u64_le_bytes (length segment))) segment)
        segments

  -- `PallasHashElement::to_roinput`
  unfoldable pub to_roinput : List Bytes → RoInput
  to_roinput value =
      append_segments (append_bytes H.new_roinput (u64_le_bytes (length value))) value

  unfoldable pub hash_to_scalar : List Bytes → Scalar
  hash_to_scalar input = H.hash_to_fq (to_roinput input)

  unfoldable pub hash_to_array : List Bytes → Bytes
  hash_to_array input = H.serialize_scalar (hash_to_scalar input)

-- `CONTEXT_STRING`
abbrev pub context_string : Bytes
context_string = ascii "bluepallas"

-- The segments that H1, H3, H4, H5, HDKG and HID hash.
pub data HashUse : Type 0 where
  h1 : HashUse
  h3 : HashUse
  h4 : HashUse
  h5 : HashUse
  hdkg : HashUse
  hid : HashUse

abbrev pub label : HashUse → Bytes
label h1 = ascii "rho"
label h3 = ascii "nonce"
label h4 = ascii "msg"
label h5 = ascii "com"
label hdkg = ascii "dkg"
label hid = ascii "id"

abbrev pub segments : HashUse → Bytes → List Bytes
segments use_of m = context_string ∷ label use_of ∷ m ∷ []
