-- ===== src/NetworkId.antt =====
-- mina-tx/src/transactions/network_id.rs: network identifiers, their bytes and their domain strings.
pub mod Domain
pub mod Packing
pub mod Names
mod Tests
use Prim.Native.Nat.{bit_or}
use mina_multi_sig.Base.{
  ℕ, zero, suc, ◌+◌, ◌-◌, ◌*◌, ◌/◌, ◌%◌, ◌^◌, Bool, true, List, [], ◌∷◌, ◌++◌, leb, ltb,
  if◌then◌else◌, length, replicate, Result, ok, err, map,
}
use mathlib.Core.List.{reverse}
use mina_multi_sig.Text.{Bytes, ascii, bytes_eq, take_chars}

abbrev pub max_prefix_length : ℕ
max_prefix_length = 20

abbrev pub padding_char : ℕ
padding_char = b'*'

pub data NetworkId : Type 0 where
  testnet : NetworkId
  mainnet : NetworkId
  custom : Bytes → NetworkId

-- The bits of a byte, the highest first.
abbrev pub byte_bits : ℕ → List ℕ
byte_bits ch = map (λ bit. (ch / 2 ^ bit) % 2) (7 ∷ 6 ∷ 5 ∷ 4 ∷ 3 ∷ 2 ∷ 1 ∷ 0 ∷ [])

abbrev pub push_bits : List ℕ → Bytes → List ℕ
push_bits bits [] = bits
push_bits bits (ch ∷ rest) = push_bits (bits ++ byte_bits ch) rest

-- `byte |= b << (7 - i)` over a chunk, in a byte.
abbrev pub pack_from : ℕ → ℕ → List ℕ → ℕ
pack_from i byte [] = byte
pack_from i byte (b ∷ bs) = pack_from (i + 1) (bit_or byte (b * 2 ^ (7 - i) % 256)) bs

-- `bits.chunks(8)`, each packed into a byte; the last chunk may be shorter.
unfoldable pub pack_chunks : List ℕ → Bytes
pack_chunks [] = []
pack_chunks (b0 ∷ b1 ∷ b2 ∷ b3 ∷ b4 ∷ b5 ∷ b6 ∷ b7 ∷ rest) =
    pack_from 0 0 (b0 ∷ b1 ∷ b2 ∷ b3 ∷ b4 ∷ b5 ∷ b6 ∷ b7 ∷ []) ∷ pack_chunks rest
pack_chunks chunk = pack_from 0 0 chunk ∷ []

unfoldable pub network_id_to_bytes : Bytes → Bytes
network_id_to_bytes s = pack_chunks (push_bits [] (reverse s))

unfoldable pub into_bytes : NetworkId → Bytes
into_bytes testnet = 0x00 ∷ []
into_bytes mainnet = 0x01 ∷ []
into_bytes (custom s) = network_id_to_bytes s

unfoldable pub create_custom_prefix : Bytes → Bytes
create_custom_prefix prefix =
    if leb (length prefix) max_prefix_length
    then prefix ++ replicate (max_prefix_length - length prefix) padding_char
    else take_chars max_prefix_length prefix

unfoldable pub into_domain_string : NetworkId → Bytes
into_domain_string mainnet = ascii "MinaSignatureMainnet"
into_domain_string testnet = ascii "CodaSignature"
into_domain_string (custom s) = create_custom_prefix (s ++ ascii "Signature")

-- `Serialize`: the JSON string.
unfoldable pub serialize : NetworkId → Bytes
serialize testnet = ascii "testnet"
serialize mainnet = ascii "mainnet"
serialize (custom s) = s

-- `Deserialize`, from the JSON string.
unfoldable pub deserialize : Bytes → NetworkId
deserialize value =
    if bytes_eq value (ascii "testnet")
    then testnet
    else if bytes_eq value (ascii "mainnet")
    then mainnet
    else custom value

pub data NetworkIdError : Type 0 where
  custom_network_id_too_long : Bytes → NetworkIdError

-- `TryFrom<String>`, for names given by the user.
unfoldable pub try_from : Bytes → Result NetworkIdError NetworkId
try_from s =
    if bytes_eq s (ascii "devnet")
    then ok testnet
    else if bytes_eq s (ascii "testnet")
    then ok testnet
    else if bytes_eq s (ascii "mainnet")
    then ok mainnet
    else if ltb max_prefix_length (length s)
    then err (custom_network_id_too_long s)
    else ok (custom s)
