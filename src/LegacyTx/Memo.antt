-- ===== src/LegacyTx/Memo.antt =====
-- Memos: which are set and read back, and on which the code panics.
use mina_multi_sig.Base.{
  ◌+◌, ◌-◌, ◌≤◌, ◌<◌, ◌≡◌, ◌∙◌, refl, ap, true, [], ◌∷◌, length, take, replicate, returned,
  panicked, arith, take-append, length-append, length-replicate, ◌%◌,
}
use mina_multi_sig.Text.{Bytes, IsAscii, is_utf8, utf8_from}
use mina_multi_sig.ZkApp.Types.{Mina}
use mina_multi_sig.LegacyTx.{LegacyTransaction, char_count, padded, set_memo_str, get_memo_string}

IsAscii-is_utf8 : (s : Bytes) → IsAscii s → is_utf8 s ≡ true
unfolding is_utf8 utf8_from
IsAscii-is_utf8 [] a = refl
IsAscii-is_utf8 (b ∷ bs) a = ground (arith, IsAscii-is_utf8 bs a.1)

char_count-IsAscii : (s : Bytes) → IsAscii s → char_count s ≡ length s
char_count-IsAscii [] a = refl
char_count-IsAscii (b ∷ bs) a = ground (arith, char_count-IsAscii bs a.1)

char_count-le : (s : Bytes) → char_count s ≤ length s
char_count-le [] = omega arith
char_count-le (b ∷ bs) = ground (arith, char_count-le bs)

padded-length : (s : Bytes) → length (padded s) ≡ length s + (32 - char_count s)
unfolding padded
padded-length s =
    length-append s (replicate (32 - char_count s) 0)
    ∙ ap (λ k. length s + k) (length-replicate (32 - char_count s) 0)

module _ (M : Mina) where
  -- The transaction with a memo in its place.
  abbrev pub with_memo : LegacyTransaction M → Bytes → LegacyTransaction M
  with_memo tx memo = record tx { memo = 1 ∷ length memo % 256 ∷ padded memo }

  pub set_memo_str_lem :
      (tx : LegacyTransaction M) (memo : Bytes)
      → IsAscii memo
      → length memo ≤ 32
      → set_memo_str M tx memo ≡ returned (with_memo tx memo)
  unfolding set_memo_str
  set_memo_str_lem tx memo a short =
      let full : length (padded memo) ≡ 32 =
        omega (arith, padded-length memo, char_count-IsAscii memo a) in
      ground (arith, full)

  pub get_memo_string-with_memo :
      (tx : LegacyTransaction M) (memo : Bytes)
      → IsAscii memo
      → length memo ≤ 32
      → get_memo_string M (with_memo tx memo) ≡ returned memo
  unfolding get_memo_string padded
  get_memo_string-with_memo tx memo a short =
      let byte : length memo % 256 ≡ length memo = omega arith in
      let text : take (length memo % 256) (padded memo) ≡ memo =
        rw byte (take-append memo (replicate (32 - char_count memo) 0)) in
      let utf8 : is_utf8 memo ≡ true = IsAscii-is_utf8 memo a in ground (arith, byte, text, utf8)

  -- A memo of at most 32 ASCII characters is set, and then read back.
  pub set_memo_str-get_memo_string :
      (tx : LegacyTransaction M) (memo : Bytes)
      → IsAscii memo
      → length memo ≤ 32
      → (after : LegacyTransaction M) × (set_memo_str M tx memo ≡ returned after)
        × (get_memo_string M after ≡ returned memo)
  set_memo_str-get_memo_string tx memo a short = (
    with_memo tx memo,
    set_memo_str_lem tx memo a short,
    get_memo_string-with_memo tx memo a short,
  )

  -- A memo of at most 32 bytes with a character of more than one byte makes the code panic.
  pub set_memo_str-panics :
      (tx : LegacyTransaction M) (memo : Bytes)
      → char_count memo < length memo
      → length memo ≤ 32
      → set_memo_str M tx memo ≡ panicked
  unfolding set_memo_str
  set_memo_str-panics tx memo wide short =
      let full : 32 < length (padded memo) = omega (arith, padded-length memo) in
      ground (arith, full)

  -- A memo that is set has at most 32 bytes and no character of more than one byte.
  pub set_memo_str-returned :
      (tx after : LegacyTransaction M) (memo : Bytes)
      → set_memo_str M tx memo ≡ returned after
      → (length memo ≤ 32) × (char_count memo ≡ length memo)
  unfolding set_memo_str
  set_memo_str-returned tx after memo h =
      let short : length memo ≤ 32 = ground arith in
      let full : length (padded memo) ≡ 32 = ground (arith, short) in
      (short, omega (arith, padded-length memo, char_count-le memo, full))
