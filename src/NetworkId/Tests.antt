-- ===== src/NetworkId/Tests.antt =====
-- Runs of `mina-tx/src/transactions/network_id.rs`.
use mina_multi_sig.Base.{◌≡◌, ◌≤◌, refl, ok, length, arith, [], ◌∷◌, ◌++◌}
use mathlib.Core.List.{reverse}
use mina_multi_sig.Text.{ascii}
use mina_multi_sig.NetworkId.{
  custom, testnet, serialize, deserialize, try_from, network_id_to_bytes, create_custom_prefix,
  into_domain_string,
}
use mina_multi_sig.NetworkId.Domain.{
  create_custom_prefix-length, into_domain_string-injective, into_domain_string-long,
}
use mina_multi_sig.NetworkId.Packing.{network_id_to_bytes-reverse, into_bytes-injective}
use mina_multi_sig.NetworkId.Names.{deserialize-serialize, try_from-deserialize}

-- The two readers of a name take `devnet` for different networks.
devnet_given : try_from (ascii "devnet") ≡ ok testnet
unfolding try_from
devnet_given = refl

devnet_written : deserialize (ascii "devnet") ≡ custom (ascii "devnet")
unfolding deserialize
devnet_written = refl

three_bytes : network_id_to_bytes (1 ∷ 2 ∷ 255 ∷ []) ≡ 255 ∷ 2 ∷ 1 ∷ []
three_bytes = network_id_to_bytes-reverse (1 ∷ 2 ∷ 255 ∷ []) (omega arith)

create_custom_prefix-length_example : length (create_custom_prefix (ascii "labSignature")) ≡ 20
create_custom_prefix-length_example =
    create_custom_prefix-length (ascii "labSignature") (omega arith)

into_domain_string-injective_example : ascii "lab" ≡ ascii "lab"
into_domain_string-injective_example =
    into_domain_string-injective (ascii "lab") (ascii "lab") (omega arith) (omega arith) refl

into_domain_string-long_example :
    into_domain_string (custom (ascii "MinaSignatureMainnet" ++ ascii "2"))
    ≡ ascii "MinaSignatureMainnet"
into_domain_string-long_example =
    into_domain_string-long (ascii "MinaSignatureMainnet") (ascii "2") (omega arith) (omega arith)
      refl

network_id_to_bytes-reverse_example : network_id_to_bytes (ascii "lab") ≡ reverse (ascii "lab")
network_id_to_bytes-reverse_example = network_id_to_bytes-reverse (ascii "lab") (omega arith)

lab-injective : ascii "lab" ≡ ascii "lab"
lab-injective = into_bytes-injective (ascii "lab") (ascii "lab") (omega arith) (omega arith) refl

reread : deserialize (serialize (custom (ascii "lab"))) ≡ custom (ascii "lab")
reread =
    deserialize-serialize (custom (ascii "lab")) (λ e. ground (arith, e), λ e. ground (arith, e))

lab_accepted : try_from (ascii "lab") ≡ ok (custom (ascii "lab"))
unfolding try_from
lab_accepted = refl

lab_reread :
    (custom (ascii "lab") ≡ deserialize (ascii "lab"))
    × (length (serialize (custom (ascii "lab"))) ≤ 20)
lab_reread =
    try_from-deserialize (ascii "lab") (custom (ascii "lab")) lab_accepted (λ e. ground (arith, e))
