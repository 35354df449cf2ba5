-- ===== src/Base58/Tests.antt =====
-- Runs of mina-tx/src/base58.rs, with bytes that are their own text and a sum of bytes for a digest.
use mina_multi_sig.Base.{◌≡◌, refl, [], ◌∷◌, ◌++◌, length-replicate, some, ok, err}
use mina_multi_sig.Base58.Samples.{sum_of, plain}
use mina_multi_sig.Base58.{
  Base58Crates, compute_checksum, to_base58_check, from_base58_check, invalid_version_byte,
  invalid_checksum, too_short,
}
use mina_multi_sig.Base58.RoundTrip.{from_base58_check-to_base58_check, from_base58_check-ok}

two_bytes : to_base58_check plain (1 ∷ 2 ∷ []) 42 ≡ 42 ∷ 1 ∷ 2 ∷ 160 ∷ 160 ∷ 160 ∷ 160 ∷ []
unfolding to_base58_check compute_checksum
two_bytes = refl

other_version :
    from_base58_check plain (42 ∷ 1 ∷ 2 ∷ 160 ∷ 160 ∷ 160 ∷ 160 ∷ []) 43
    ≡ err (invalid_version_byte 43 42)
unfolding from_base58_check mina_multi_sig.Base58.check_bytes
other_version = refl

corrupted :
    from_base58_check plain (42 ∷ 1 ∷ 3 ∷ 160 ∷ 160 ∷ 160 ∷ 160 ∷ []) 42 ≡ err invalid_checksum
unfolding from_base58_check mina_multi_sig.Base58.check_bytes compute_checksum
corrupted = refl

four_bytes : from_base58_check plain (42 ∷ 1 ∷ 3 ∷ 160 ∷ []) 42 ≡ err too_short
unfolding from_base58_check mina_multi_sig.Base58.check_bytes
four_bytes = refl

decoded : from_base58_check plain (42 ∷ 1 ∷ 2 ∷ 160 ∷ 160 ∷ 160 ∷ 160 ∷ []) 42 ≡ ok (1 ∷ 2 ∷ [])
unfolding from_base58_check mina_multi_sig.Base58.check_bytes compute_checksum
decoded = refl

two_bytes_back :
    from_base58_check plain (to_base58_check plain (1 ∷ 2 ∷ []) 42) 42 ≡ ok (1 ∷ 2 ∷ [])
two_bytes_back =
    from_base58_check-to_base58_check plain (1 ∷ 2 ∷ []) 42 (λ b. refl)
      (λ b. length-replicate 32 (sum_of b))

decoded_stands_for_sum :
    some (42 ∷ 1 ∷ 2 ∷ 160 ∷ 160 ∷ 160 ∷ 160 ∷ [])
    ≡ some (42 ∷ ((1 ∷ 2 ∷ []) ++ compute_checksum plain (42 ∷ 1 ∷ 2 ∷ [])))
decoded_stands_for_sum =
    from_base58_check-ok plain (42 ∷ 1 ∷ 2 ∷ 160 ∷ 160 ∷ 160 ∷ 160 ∷ []) 42 (1 ∷ 2 ∷ []) decoded
