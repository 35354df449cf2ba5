-- ===== src/Text.antt =====
-- Rust's `String` and `&str`: a list of bytes that is valid UTF-8. A byte is a number below 256.
pub mod Decimal
pub mod LittleEndian
use Prim.Native.Char.{code}
use Prim.Native.String.{String}
use mina_multi_sig.Base.{
  ℕ, zero, suc, ◌-◌, ◌<◌, ◌≡◌, refl, Bool, true, false, ◌&&◌, ◌||◌, List, [], ◌∷◌, ltb, leb, ◌==◌,
  if◌then◌else◌, arith, All,
}

abbrev pub Bytes : Type 0
Bytes = List ℕ

abbrev pub IsByte : ℕ → Type 0
IsByte b = b < 256

-- The bytes of an ASCII literal.
abbrev pub ascii : String → Bytes
ascii String.[] = []
ascii (String.◌∷◌ c s) = code c ∷ ascii s

-- `==` of byte strings.
abbrev pub bytes_eq : Bytes → Bytes → Bool
bytes_eq [] [] = true
bytes_eq [] (y ∷ ys) = false
bytes_eq (x ∷ xs) [] = false
bytes_eq (x ∷ xs) (y ∷ ys) = x == y && bytes_eq xs ys

pub bytes_eq→eq : (xs ys : Bytes) → bytes_eq xs ys ≡ true → xs ≡ ys
bytes_eq→eq [] [] h = refl
bytes_eq→eq [] (y ∷ ys) h = ground arith
bytes_eq→eq (x ∷ xs) [] h = ground arith
bytes_eq→eq (x ∷ xs) (y ∷ ys) h = ground (arith, bytes_eq→eq xs ys)

pub bytes_eq_refl : (xs : Bytes) → bytes_eq xs xs ≡ true
bytes_eq_refl [] = refl
bytes_eq_refl (x ∷ xs) = ground (arith, bytes_eq_refl xs)

-- The UTF-8 automaton: how many continuation bytes are due, and the range of the next one.
pub record Due : Type 0 where
  pub count : ℕ
  pub low : ℕ
  pub high : ℕ

-- What a first byte announces; a byte that starts no character is due a byte that cannot come.
abbrev pub announced : ℕ → Due
announced b =
    if ltb b 0x80
    then record { count = 0; low = 0; high = 0 }
    else if ltb b 0xc2
    then record { count = 1; low = 1; high = 0 }
    else if ltb b 0xe0
    then record { count = 1; low = 0x80; high = 0xbf }
    else if b == 0xe0
    then record { count = 2; low = 0xa0; high = 0xbf }
    else if b == 0xed
    then record { count = 2; low = 0x80; high = 0x9f }
    else if ltb b 0xf0
    then record { count = 2; low = 0x80; high = 0xbf }
    else if b == 0xf0
    then record { count = 3; low = 0x90; high = 0xbf }
    else if ltb b 0xf4
    then record { count = 3; low = 0x80; high = 0xbf }
    else if b == 0xf4
    then record { count = 3; low = 0x80; high = 0x8f }
    else record { count = 1; low = 1; high = 0 }

unfoldable pub utf8_from : Due → Bytes → Bool
utf8_from due [] = due.count == 0
utf8_from due (b ∷ bs) =
    let next : Due =
      if due.count == 0
      then announced b
      else record { count = due.count - 1; low = 0x80; high = 0xbf } in
    let allowed = due.count == 0 || (leb due.low b && leb b due.high) in
    allowed && utf8_from next bs

-- `String::from_utf8(bytes).is_ok()`
unfoldable pub is_utf8 : Bytes → Bool
unfolding utf8_from
is_utf8 = utf8_from (record { count = 0; low = 0; high = 0 })

-- A byte that continues a character, `10xxxxxx`.
abbrev pub is_continuation : ℕ → Bool
is_continuation b = leb 0x80 b && ltb b 0xc0

-- `s.chars().take(n).collect::<String>()`: a byte that starts a character takes one of the `n`.
unfoldable pub take_chars : ℕ → Bytes → Bytes
take_chars n [] = []
take_chars zero (b ∷ bs) = if is_continuation b then b ∷ take_chars zero bs else []
take_chars (suc n) (b ∷ bs) =
    let rest = take_chars n bs in
    let same = take_chars (suc n) bs in if is_continuation b then b ∷ same else b ∷ rest

-- A string of ASCII characters.
abbrev pub IsAscii : Bytes → Type 0
IsAscii = All (λ b. b < 0x80)
