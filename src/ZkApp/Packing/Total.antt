-- ===== src/ZkApp/Packing/Total.antt =====
-- When the packing of an account update does not panic.
use mina_multi_sig.Base.{
  ◌∙◌, ℕ, zero, suc, ◌-◌, ◌≤◌, ◌<◌, ◌≡◌, refl, ap, [], ◌∷◌, ◌++◌, length, take, drop, min, none,
  some, arith, replicate, Bool-cases, inl, inr, ltb, ◌⊎◌,
}
use mina_multi_sig.Text.{Bytes}
use mina_multi_sig.ZkApp.Packing.Basic.{to_bytes}

take_all : (symbol : Bytes) → length symbol ≤ 6 → take (min (length symbol) 6) symbol ≡ symbol
take_all symbol h = rw (the_min symbol h) (take_length symbol)
  where
    the_min : (s : Bytes) → length s ≤ 6 → min (length s) 6 ≡ length s
    the_min s g = omega arith

    take_length : (s : Bytes) → take (length s) s ≡ s
    take_length [] = refl
    take_length (b ∷ bs) = ap (◌∷◌ b) (take_length bs)

drop-replicate : (n k a : ℕ) → drop n (replicate k a) ≡ replicate (k - n) a
drop-replicate zero k a = let e : k ≡ k - 0 = omega arith in ap (λ m. replicate m a) e
drop-replicate (suc n) zero a = let e : 0 ≡ 0 - suc n = omega arith in ap (λ m. replicate m a) e
drop-replicate (suc n) (suc k) a =
    let e : k - n ≡ suc k - suc n = omega arith in drop-replicate n k a ∙ ap (λ m. replicate m a) e

-- A symbol of at most six bytes is copied into the buffer; a longer one makes the code panic.
pub to_bytes_lem :
    (symbol : Bytes)
    → ((length symbol ≤ 6)
        × (to_bytes symbol (replicate 6 0) ≡ some (symbol ++ replicate (6 - length symbol) 0)))
      ⊎ ((6 < length symbol) × (to_bytes symbol (replicate 6 0) ≡ none))
unfolding to_bytes
to_bytes_lem symbol = elim (Bool-cases (ltb 6 (length symbol))) [
  | inl long ↦ inr (ground arith, ground (arith, long))
  | inr short ↦
      let whole : take (min (length symbol) 6) symbol ≡ symbol = take_all symbol (ground arith) in
      let zeros : drop (length symbol) (replicate 6 0) ≡ replicate (6 - length symbol) 0 =
        drop-replicate (length symbol) 6 0 in
      inl (ground arith, ground (arith, short, whole, zeros))
]
