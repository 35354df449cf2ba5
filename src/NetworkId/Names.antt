-- ===== src/NetworkId/Names.antt =====
-- The names of networks: what is written is read back, and the two readers differ on one name.
use mina_multi_sig.Base.{◌≤◌, ◌≡◌, ◌≢◌, refl, false, ok, length, arith, Bool-cases, inl, inr}
use mina_multi_sig.Text.{Bytes, ascii, bytes_eq, bytes_eq→eq}
use mina_multi_sig.NetworkId.{
  NetworkId, testnet, mainnet, custom, serialize, deserialize, try_from, max_prefix_length,
}

-- A custom name that is not one of the reserved names.
abbrev pub IsProper : NetworkId → Type 0
IsProper (custom s) = (s ≢ ascii "testnet") × (s ≢ ascii "mainnet")
IsProper _ = Unit

bytes_ne : (s t : Bytes) → s ≢ t → bytes_eq s t ≡ false
bytes_ne s t h = elim (Bool-cases (bytes_eq s t)) [
  | inl e ↦ absurd (h (bytes_eq→eq s t e))
  | inr e ↦ e
]

-- Every network but a custom one with a reserved name is read back as it was written.
pub deserialize-serialize : (n : NetworkId) → IsProper n → deserialize (serialize n) ≡ n
unfolding deserialize serialize
deserialize-serialize testnet h = refl
deserialize-serialize mainnet h = refl
deserialize-serialize (custom s) h =
    rw (bytes_ne s (ascii "testnet") h.0, bytes_ne s (ascii "mainnet") h.1)

-- A name that a user gives is read as in a file, unless it is `devnet`, and a custom network that is
-- accepted has a name of at most 20 bytes.
pub try_from-deserialize :
    (s : Bytes) (n : NetworkId)
    → try_from s ≡ ok n
    → s ≢ ascii "devnet"
    → (n ≡ deserialize s) × (length (serialize n) ≤ max_prefix_length)
unfolding try_from deserialize serialize
try_from-deserialize s n h ne =
    let other = bytes_ne s (ascii "devnet") ne in (ground (arith, other), ground (arith, other))
