-- ===== src/PallasMessage.antt =====
-- mina-tx/src/pallas_message.rs: the message that the signers hash, and its bytes on the wire.
pub mod RoundTrip
pub mod Faults
mod Tests
use mina_multi_sig.Base.{
  ℕ, zero, suc, ◌+◌, ◌*◌, ◌/◌, ◌%◌, ◌^◌, Bool, true, false, List, [], ◌∷◌, ◌++◌, ltb, ◌==◌,
  if◌then◌else◌, length, take, drop, Option, none, some, Result, ok, err, Attempt, returned,
  refused, panicked,
}
use mina_multi_sig.Text.{Bytes, is_utf8}
use mina_multi_sig.NetworkId.{NetworkId, testnet, mainnet, custom, max_prefix_length}

-- What the message uses of `mina_hasher::ROInput`: its bytes, which can be read back.
pub record RoInputCodec : Type 1 where
  pub ROInput : Type 0
  pub write : ROInput → Bytes
  pub read : Bytes → Option ROInput

pub record PallasMessage (R : RoInputCodec) : Type 0 where
  pub input : R.ROInput
  pub network_id : NetworkId
  pub is_legacy : Bool

pub data MessageError : Type 0 where
  custom_network_id_too_long : MessageError
  too_short : MessageError
  unsupported_version : MessageError
  too_short_for_name : MessageError
  invalid_utf8 : MessageError
  invalid_network_id : MessageError
  invalid_legacy_flag : MessageError
  malformed_length : MessageError
  malformed_ro_input : MessageError

abbrev pub pallas_message_version : ℕ
pallas_message_version = 1

-- `(n as u32).to_le_bytes()`
abbrev pub u32_le_bytes : ℕ → Bytes
u32_le_bytes n =
    n % 256 ∷ (n / 256) % 256 ∷ (n / 256 / 256) % 256 ∷ (n / 256 / 256 / 256) % 256 ∷ []

abbrev pub flag : Bool → ℕ
flag true = 1
flag false = 0

-- The bytes of the network in the header.
unfoldable pub network_bytes : NetworkId → Result MessageError Bytes
network_bytes testnet = ok (0 ∷ [])
network_bytes mainnet = ok (1 ∷ [])
network_bytes (custom s) =
    if ltb max_prefix_length (length s)
    then err custom_network_id_too_long
    else ok (2 ∷ length s % 256 ∷ s)

-- The result of reading the network, with the bytes behind it; `input[2]` and what follows were
-- not all checked to be there.
abbrev pub Parsed : Type 0
Parsed = Attempt MessageError (NetworkId × Bytes)

-- `input[2]`, then the name.
unfoldable pub read_custom : Bytes → Parsed
read_custom [] = panicked
read_custom (name_len ∷ rest) =
    if ltb max_prefix_length name_len
    then refused custom_network_id_too_long
    else if ltb (length rest) name_len
    then refused too_short_for_name
    else if is_utf8 (take name_len rest)
    then returned (custom (take name_len rest), drop name_len rest)
    else refused invalid_utf8

-- `input[1]`, with the bytes behind it.
unfoldable pub read_network : ℕ → Bytes → Parsed
read_network tag rest =
    if tag == 0
    then returned (testnet, rest)
    else if tag == 1
    then returned (mainnet, rest)
    else if tag == 2
    then read_custom rest
    else refused invalid_network_id

module _ (R : RoInputCodec) where
  open R use {ROInput, write, read}

  unfoldable pub serialize : PallasMessage R → Result MessageError Bytes
  serialize m = elim (network_bytes m.network_id) [
    | err e ↦ err e
    | ok network ↦ ok (
        pallas_message_version
        ∷ (network
            ++ (flag m.is_legacy
                ∷ (u32_le_bytes (length (write m.input) % 2 ^ 32) ++ write m.input))))
  ]

  -- The length of the input and the input, behind the legacy flag.
  unfoldable pub read_body : NetworkId → Bool → Bytes → Attempt MessageError (PallasMessage R)
  read_body network_id is_legacy (b0 ∷ b1 ∷ b2 ∷ b3 ∷ roi) =
      if length roi == b0 + 256 * (b1 + 256 * (b2 + 256 * b3))
      then elim (read roi) [
        | none ↦ refused malformed_ro_input
        | some input ↦
            returned (record { input = input; network_id = network_id; is_legacy = is_legacy })
      ]
      else refused malformed_length
  read_body network_id is_legacy _ = refused too_short

  -- `input[offset]`, which panics where the network was the last that was sent.
  unfoldable pub read_flag : NetworkId → Bytes → Attempt MessageError (PallasMessage R)
  read_flag network_id [] = panicked
  read_flag network_id (b ∷ rest) =
      if b == 0
      then read_body network_id false rest
      else if b == 1
      then read_body network_id true rest
      else refused invalid_legacy_flag

  unfoldable pub deserialize : Bytes → Attempt MessageError (PallasMessage R)
  deserialize (version ∷ tag ∷ third ∷ rest) =
      if version == pallas_message_version
      then elim (read_network tag (third ∷ rest)) [
        | panicked ↦ panicked
        | refused e ↦ refused e
        | returned (network_id, body) ↦ read_flag network_id body
      ]
      else refused unsupported_version
  deserialize _ = refused too_short
