-- ===== src/Text/LittleEndian.antt =====
-- `to_le_bytes` of the unsigned integers of the Rust standard library.
use mina_multi_sig.Base.{
  ℕ, zero, suc, ◌+◌, ◌*◌, ◌/◌, ◌%◌, ◌^◌, ◌<◌, ◌≡◌, refl, sym, ap, ◌∙◌, [], ◌∷◌, ◌++◌, length, arith,
  take, drop, take-append, drop-append,
}
use mina_multi_sig.Text.{Bytes}

-- `n.to_le_bytes()` at `w` bytes.
abbrev pub le_bytes : ℕ → ℕ → Bytes
le_bytes zero n = []
le_bytes (suc w) n = n % 256 ∷ le_bytes w (n / 256)

-- `(n as u64).to_le_bytes()`
abbrev pub u64_le_bytes : ℕ → Bytes
u64_le_bytes n = le_bytes 8 (n % 2 ^ 64)

pub length-le_bytes : (w n : ℕ) → length (le_bytes w n) ≡ w
length-le_bytes zero n = refl
length-le_bytes (suc w) n = ap suc (length-le_bytes w (n / 256))

-- The number that the bytes spell.
abbrev spelled : Bytes → ℕ
spelled [] = 0
spelled (b ∷ bs) = b + 256 * spelled bs

-- A number of `w` bytes is spelled by them.
abbrev pub capacity : ℕ → ℕ
capacity zero = 1
capacity (suc w) = 256 * capacity w

spelled-le_bytes : (w n : ℕ) → n < capacity w → spelled (le_bytes w n) ≡ n
spelled-le_bytes zero n h = omega arith
spelled-le_bytes (suc w) n h = omega (arith, spelled-le_bytes w (n / 256) (omega arith))

pub le_bytes-inj :
    (w m n : ℕ) → m < capacity w → n < capacity w → le_bytes w m ≡ le_bytes w n → m ≡ n
le_bytes-inj w m n hm hn e = sym (spelled-le_bytes w m hm) ∙ ap spelled e ∙ spelled-le_bytes w n hn

pub u64_le_bytes-inj : (m n : ℕ) → m < 2 ^ 64 → n < 2 ^ 64 → u64_le_bytes m ≡ u64_le_bytes n → m ≡ n
u64_le_bytes-inj m n hm hn e = omega (
  arith,
  sym (spelled-le_bytes 8 (m % 2 ^ 64) (omega arith))
      ∙ ap spelled e
      ∙ spelled-le_bytes 8 (n % 2 ^ 64) (omega arith),
)

-- Two lists of the same length with something behind them.
pub append-inj :
    (xs ys a b : Bytes) → length xs ≡ length ys → xs ++ a ≡ ys ++ b → (xs ≡ ys) × (a ≡ b)
append-inj xs ys a b l e = (
  sym (take-append xs a)
      ∙ ap (take (length xs)) e
      ∙ ap (λ n. take n (ys ++ b)) l
      ∙ take-append ys b,
  sym (drop-append xs a)
      ∙ ap (drop (length xs)) e
      ∙ ap (λ n. drop n (ys ++ b)) l
      ∙ drop-append ys b,
)
