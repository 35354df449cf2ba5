-- ===== src/Signatures/Tests.antt =====
-- Runs of mina-tx/src/signatures.rs.
use mina_multi_sig.Base.{◌≡◌, refl, [], ◌∷◌, ◌++◌, some, ok, replicate}
use mina_multi_sig.Base58.Samples.{plain}
use mina_multi_sig.Signatures.{Sig, BigIntText, to_bytes, serialize, deserialize}

abbrev five_seven : Sig
five_seven = record { field_value = 5 ∷ 0 ∷ 0 ∷ 0 ∷ []; scalar = 7 ∷ 0 ∷ 0 ∷ 256 ∷ [] }

five_seven-bytes :
    to_bytes five_seven ≡ 1 ∷ 5 ∷ (replicate 31 0 ++ 7 ∷ (replicate 24 0 ++ 1 ∷ replicate 6 0))
unfolding to_bytes
five_seven-bytes = refl

-- The numbers are their own text.
abbrev bare : BigIntText
bare = record { print = λ n. n; parse = λ b. some b }

five_seven-read : deserialize bare (serialize plain bare five_seven) ≡ ok five_seven
unfolding serialize deserialize
five_seven-read = refl
