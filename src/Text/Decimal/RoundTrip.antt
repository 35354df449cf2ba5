-- ===== src/Text/Decimal/RoundTrip.antt =====
-- A number that is printed is parsed.
use mina_multi_sig.Base.{
  ap, ℕ, zero, suc, ◌+◌, ◌*◌, ◌/◌, ◌%◌, ◌==◌, ◌≤◌, ◌<◌, ◌≡◌, ◌∙◌, [], ◌∷◌, some, Bool-cases, inl,
  inr, false, arith,
}
use mina_multi_sig.Text.{Bytes}
use mina_multi_sig.Text.Decimal.{digits, to_string, scan, parse}

-- The numbers of at most so many digits.
abbrev pub pow10 : ℕ → ℕ
pow10 zero = 1
pow10 (suc width) = 10 * pow10 width

scan_last :
    (max n : ℕ) (out : Bytes) → n ≤ max → scan max ((b'0' + n % 10) ∷ out) (n / 10) ≡ scan max out n
unfolding scan
scan_last max n out fits = ground arith

scan-digits :
    (width max n : ℕ) (out : Bytes)
    → n < pow10 width
    → n ≤ max
    → scan max (digits width n out) 0 ≡ scan max out n
unfolding digits
scan-digits zero max n out small fits = let nil : 0 ≡ n = omega arith in ap (scan max out) nil
scan-digits (suc width) max n out small fits =
    ground (arith, scan-digits width max (n / 10) ((b'0' + n % 10) ∷ out), scan_last max n out fits)

-- Printing puts a digit first.
abbrev StartsWithDigit : Bytes → Type 0
StartsWithDigit [] = ⊥
StartsWithDigit (c ∷ s) = (b'0' ≤ c) × (c ≤ b'9')

digits-StartsWithDigit :
    (width n : ℕ) (out : Bytes) → StartsWithDigit out → StartsWithDigit (digits width n out)
unfolding digits
digits-StartsWithDigit zero n out h = h
digits-StartsWithDigit (suc width) n out h =
    ground (arith, digits-StartsWithDigit width (n / 10) ((b'0' + n % 10) ∷ out))

parse-StartsWithDigit : (max : ℕ) (s : Bytes) → StartsWithDigit s → parse max s ≡ scan max s 0
unfolding parse
parse-StartsWithDigit max [] h = absurd h
parse-StartsWithDigit max (c ∷ s) h = ground arith

digits-positive : (width n : ℕ) → (n == 0) ≡ false → StartsWithDigit (digits (suc width) n [])
unfolding digits
digits-positive width n more =
    rw more
      (digits-StartsWithDigit width (n / 10) ((b'0' + n % 10) ∷ []) (omega arith, omega arith))

parse-digits :
    (max n : ℕ) → n ≤ max → n < pow10 20 → (n == 0) ≡ false → parse max (digits 20 n []) ≡ some n
unfolding scan
parse-digits max n fits small more =
    parse-StartsWithDigit max (digits 20 n []) (digits-positive 19 n more)
    ∙ scan-digits 20 max n [] small fits

-- A number that the type holds is printed and parsed.
pub parse-to_string : (max n : ℕ) → n ≤ max → n < pow10 20 → parse max (to_string n) ≡ some n
unfolding to_string parse scan
parse-to_string max n fits small = elim (Bool-cases (n == 0)) [
  | inl nil ↦ rw (nil, to_string) (ground arith)
  | inr more ↦ rw (more, to_string) (parse-digits max n fits small more)
]
