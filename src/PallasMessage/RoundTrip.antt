-- ===== src/PallasMessage/RoundTrip.antt =====
-- What `serialize` writes, `deserialize` reads back.
use mina_multi_sig.Base.{
  ℕ, ◌%◌, ◌^◌, ◌≤◌, ◌<◌, ◌≡◌, ◌≢◌, ◌∙◌, refl, Bool, [], true, false, ◌∷◌, ◌++◌, ltb, length, some,
  ok, Result-cases, inl, inr, returned, arith, take-append, drop-append, length-append,
}
use mina_multi_sig.Text.{Bytes, is_utf8}
use mina_multi_sig.NetworkId.{NetworkId, testnet, mainnet, custom, max_prefix_length}
use mina_multi_sig.PallasMessage.{
  RoInputCodec, PallasMessage, pallas_message_version, serialize, deserialize, read_flag, flag,
  u32_le_bytes, network_bytes, read_custom, read_network, read_body,
}

-- The name of a custom network is a Rust string.
abbrev pub IsNamed : NetworkId → Type 0
IsNamed (custom s) = is_utf8 s ≡ true
IsNamed _ = Unit

custom_bytes :
    (s bytes : Bytes)
    → network_bytes (custom s) ≡ ok bytes
    → (length s ≤ max_prefix_length) × (bytes ≡ 2 ∷ length s % 256 ∷ s)
unfolding network_bytes
custom_bytes s bytes h = (ground arith, ground arith)

read_custom-append :
    (s rest : Bytes)
    → is_utf8 s ≡ true
    → length s ≤ max_prefix_length
    → read_custom (length s % 256 ∷ (s ++ rest)) ≡ returned (custom s, rest)
unfolding read_custom
read_custom-append s rest v h =
    let small : length s % 256 ≡ length s = omega arith in
    let room : ltb (length (s ++ rest)) (length s) ≡ false = ground (arith, length-append s rest) in
    let short : ltb max_prefix_length (length s) ≡ false = ground arith in
    rw (small, short, room, take-append s rest, drop-append s rest, v)

-- The network is read back, with what follows, whatever that is.
read_network-network_bytes :
    (n : NetworkId) (tag : ℕ) (bytes rest : Bytes)
    → IsNamed n
    → network_bytes n ≡ ok (tag ∷ bytes)
    → read_network tag (bytes ++ rest) ≡ returned (n, rest)
unfolding network_bytes read_network
read_network-network_bytes testnet tag bytes rest v h = ground arith
read_network-network_bytes mainnet tag bytes rest v h = ground arith
read_network-network_bytes (custom s) tag bytes rest v h =
    let (short, e) = custom_bytes s (tag ∷ bytes) h in
    ground (arith, read_custom-append s rest v short)

module _ (R : RoInputCodec) where
  open R use {ROInput, write, read}

  read_body-write :
      (m : PallasMessage R)
      → read (write m.input) ≡ some m.input
      → length (write m.input) < 2 ^ 32
      → read_body R m.network_id m.is_legacy
          (u32_le_bytes (length (write m.input) % 2 ^ 32) ++ write m.input)
        ≡ returned m
  unfolding read_body
  read_body-write m back fits = rw back (ground arith)

  deserialize-network :
      (tag : ℕ) (rest body : Bytes) (n : NetworkId)
      → read_network tag rest ≡ returned (n, body)
      → 0 < length rest
      → deserialize R (pallas_message_version ∷ tag ∷ rest) ≡ read_flag R n body
  unfolding deserialize
  deserialize-network tag [] body n h l = absurd (omega arith)
  deserialize-network tag (third ∷ rest) body n h l = rw h

  read_flag-flag :
      (n : NetworkId) (l : Bool) (body : Bytes)
      → read_flag R n (flag l ∷ body) ≡ read_body R n l body
  unfolding read_flag
  read_flag-flag n true body = refl
  read_flag-flag n false body = refl

  network_bytes-nonempty : (n : NetworkId) → network_bytes n ≢ ok []
  unfolding network_bytes
  network_bytes-nonempty testnet h = ground arith
  network_bytes-nonempty mainnet h = ground arith
  network_bytes-nonempty (custom s) h = ground arith

  deserialize-header :
      (m : PallasMessage R) (network : Bytes)
      → IsNamed m.network_id
      → read (write m.input) ≡ some m.input
      → length (write m.input) < 2 ^ 32
      → network_bytes m.network_id ≡ ok network
      → deserialize R (
          pallas_message_version
          ∷ (network
              ++ (flag m.is_legacy
                  ∷ (u32_le_bytes (length (write m.input) % 2 ^ 32) ++ write m.input))))
        ≡ returned m
  deserialize-header m [] named back fits f = absurd (network_bytes-nonempty m.network_id f)
  deserialize-header m (tag ∷ network) named back fits f =
      let body : Bytes =
        flag m.is_legacy ∷ (u32_le_bytes (length (write m.input) % 2 ^ 32) ++ write m.input) in
      deserialize-network tag (network ++ body) body m.network_id
        (read_network-network_bytes m.network_id tag network body named f)
        (omega (arith, length-append network body))
      ∙ read_flag-flag m.network_id m.is_legacy _
      ∙ read_body-write m back fits

  -- A message that serializes deserializes to itself, where the name of its network is UTF-8, its
  -- input is read back and the bytes of the input are fewer than `2 ^ 32`.
  pub pallas_deserialize-serialize :
      (m : PallasMessage R) (bytes : Bytes)
      → IsNamed m.network_id
      → read (write m.input) ≡ some m.input
      → length (write m.input) < 2 ^ 32
      → serialize R m ≡ ok bytes
      → deserialize R bytes ≡ returned m
  unfolding serialize
  pallas_deserialize-serialize m bytes named back fits h =
      elim (Result-cases (network_bytes m.network_id)) [
        | inr (e, f) ↦ absurd (ground (arith, f))
        | inl (network, f) ↦ ground (arith, deserialize-header m network named back fits f)
      ]
