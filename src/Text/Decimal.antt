-- ===== src/Text/Decimal.antt =====
-- `to_string` and `parse` of the unsigned integers of the Rust standard library, in decimal.
pub mod RoundTrip
use mina_multi_sig.Base.{
  ℕ, zero, suc, ◌+◌, ◌-◌, ◌*◌, ◌/◌, ◌%◌, ◌==◌, List, [], ◌∷◌, Option, none, some, ltb, ◌||◌,
  if◌then◌else◌,
}
use mina_multi_sig.Text.{Bytes}

-- At most `width` digits, before those that are there.
unfoldable pub digits : ℕ → ℕ → Bytes → Bytes
digits zero n out = out
digits (suc width) n out =
    let rest = digits width (n / 10) ((b'0' + n % 10) ∷ out) in if n == 0 then out else rest

-- A number of 64 bits has at most 20 digits.
unfoldable pub to_string : ℕ → Bytes
to_string n = if n == 0 then b'0' ∷ [] else digits 20 n []

-- `checked_mul` and `checked_add` at each digit, below the largest number of the type.
unfoldable pub scan : ℕ → Bytes → ℕ → Option ℕ
scan max [] n = some n
scan max (c ∷ s) n =
    let rest = scan max s (n * 10 + (c - b'0')) in
    if ltb c b'0' || ltb b'9' c
    then none
    else if ltb max (n * 10) || ltb max (n * 10 + (c - b'0'))
    then none
    else rest

unfoldable pub scan_some : ℕ → Bytes → Option ℕ
scan_some max [] = none
scan_some max (c ∷ s) = scan max (c ∷ s) 0

-- A sign `+` may stand before the digits.
unfoldable pub parse : ℕ → Bytes → Option ℕ
parse max [] = none
parse max (c ∷ s) = if c == b'+' then scan_some max s else scan max (c ∷ s) 0
