-- ===== src/Base58/Samples.antt =====
-- Bytes that are their own text, and a sum of bytes for a digest.
use mina_multi_sig.Base.{ℕ, ◌+◌, ◌%◌, [], ◌∷◌, replicate, some}
use mina_multi_sig.Text.{Bytes}
use mina_multi_sig.Base58.{Base58Crates}

abbrev pub sum_of : Bytes → ℕ
sum_of [] = 0
sum_of (b ∷ bs) = (b + sum_of bs) % 256

abbrev pub plain : Base58Crates
plain = record { digest = λ b. replicate 32 (sum_of b); encode = λ b. b; decode = λ b. some b }
