-- ===== src/BluePallas/Hasher/Injective.antt =====
-- Different segments give different hash inputs.
use mina_multi_sig.Base.{
  if◌then◌else◌, append-nil, ℕ, zero, suc, ◌^◌, ◌<◌, ◌≡◌, refl, sym, ap, ◌∙◌, List, [], ◌∷◌, ◌++◌,
  length, arith, append_assoc, All,
}
use mina_multi_sig.Text.LittleEndian.{u64_le_bytes, append-inj, u64_le_bytes-inj}
use mina_multi_sig.Text.{bytes_eq, Bytes, ascii}
use mina_multi_sig.BluePallas.Hasher.{
  HashCrates, append_segments, to_roinput, HashUse, h1, h3, h4, h5, hdkg, hid, label, segments,
}

-- The lengths of Rust slices.
abbrev pub IsShort : Bytes → Type 0
IsShort segment = length segment < 2 ^ 64

-- What the loop appends.
abbrev flat : List Bytes → Bytes
flat [] = []
flat (s ∷ ss) = u64_le_bytes (length s) ++ s ++ flat ss

flat-inj :
    (xs ys : List Bytes)
    → length xs ≡ length ys
    → All IsShort xs
    → All IsShort ys
    → flat xs ≡ flat ys
    → xs ≡ ys
flat-inj [] [] l hx hy e = refl
flat-inj [] (y ∷ ys) l hx hy e = absurd (omega arith)
flat-inj (x ∷ xs) [] l hx hy e = absurd (omega arith)
flat-inj (x ∷ xs) (y ∷ ys) l hx hy e =
    let (prefix, behind) =
      append-inj (u64_le_bytes (length x)) (u64_le_bytes (length y)) (x ++ flat xs) (y ++ flat ys)
        refl e in
    let (same, rest) =
      append-inj x y (flat xs) (flat ys) (u64_le_bytes-inj (length x) (length y) hx.0 hy.0 prefix)
        behind in
    ap (λ s. s ∷ xs) same ∙ ap (◌∷◌ y) (flat-inj xs ys (omega arith) hx.1 hy.1 rest)

-- `append_bytes` appends to what was appended before.
pub record HashLaws (H : HashCrates) : Type 0 where
  pub appended : H.RoInput → Bytes
  pub appended_new : appended H.new_roinput ≡ []
  pub appended_append :
      (roi : H.RoInput) (bytes : Bytes)
      → appended (H.append_bytes roi bytes) ≡ appended roi ++ bytes

-- The use that a label names.
abbrev named : Bytes → HashUse
named l =
    if bytes_eq l (ascii "rho")
    then h1
    else if bytes_eq l (ascii "nonce")
    then h3
    else if bytes_eq l (ascii "msg")
    then h4
    else if bytes_eq l (ascii "com")
    then h5
    else if bytes_eq l (ascii "dkg")
    then hdkg
    else hid

named-label : (u : HashUse) → named (label u) ≡ u
named-label h1 = refl
named-label h3 = refl
named-label h4 = refl
named-label h5 = refl
named-label hdkg = refl
named-label hid = refl

label-IsShort : (u : HashUse) → IsShort (label u)
label-IsShort h1 = omega arith
label-IsShort h3 = omega arith
label-IsShort h4 = omega arith
label-IsShort h5 = omega arith
label-IsShort hdkg = omega arith
label-IsShort hid = omega arith

-- The segment at a place, or no bytes.
abbrev segment_at : ℕ → List Bytes → Bytes
segment_at i [] = []
segment_at zero (x ∷ xs) = x
segment_at (suc i) (x ∷ xs) = segment_at i xs

module _ (H : HashCrates) (L : HashLaws H) where
  appended-append_segments :
      (roi : H.RoInput) (xs : List Bytes)
      → L.appended (append_segments H roi xs) ≡ L.appended roi ++ flat xs
  appended-append_segments roi [] = sym (append-nil (L.appended roi))
  appended-append_segments roi (x ∷ xs) =
      appended-append_segments (H.append_bytes (H.append_bytes roi (u64_le_bytes (length x))) x) xs
      ∙ ap (λ b. b ++ flat xs)
          (L.appended_append _ x
            ∙ ap (λ b. b ++ x) (L.appended_append roi (u64_le_bytes (length x))))
      ∙ ap (λ b. b ++ flat xs) (append_assoc (L.appended roi) (u64_le_bytes (length x)) x)
      ∙ append_assoc (L.appended roi) (u64_le_bytes (length x) ++ x) (flat xs)
      ∙ ap (λ b. L.appended roi ++ b) (append_assoc (u64_le_bytes (length x)) x (flat xs))

  appended-to_roinput :
      (xs : List Bytes) → L.appended (to_roinput H xs) ≡ u64_le_bytes (length xs) ++ flat xs
  unfolding to_roinput
  appended-to_roinput xs =
      appended-append_segments (H.append_bytes H.new_roinput (u64_le_bytes (length xs))) xs
      ∙ ap (λ b. b ++ flat xs)
          (L.appended_append H.new_roinput (u64_le_bytes (length xs))
            ∙ ap (λ b. b ++ u64_le_bytes (length xs)) L.appended_new)

  -- Two lists of segments have the same hash input only if they are the same, where the number of
  -- segments and their lengths fit 64 bits: neither padding nor another division gives a collision.
  pub to_roinput-injective :
      (xs ys : List Bytes)
      → length xs < 2 ^ 64
      → length ys < 2 ^ 64
      → All IsShort xs
      → All IsShort ys
      → to_roinput H xs ≡ to_roinput H ys
      → xs ≡ ys
  to_roinput-injective xs ys lx ly hx hy e =
      let (count, rest) =
        append-inj (u64_le_bytes (length xs)) (u64_le_bytes (length ys)) (flat xs) (flat ys) refl
          (sym (appended-to_roinput xs) ∙ ap L.appended e ∙ appended-to_roinput ys) in
      flat-inj xs ys (u64_le_bytes-inj (length xs) (length ys) lx ly count) hx hy rest

  -- The hash functions of the ciphersuite are separated: two of them have the same input only if they
  -- are the same function of the same bytes.
  pub segments-injective :
      (u v : HashUse) (m n : Bytes)
      → IsShort m
      → IsShort n
      → to_roinput H (segments u m) ≡ to_roinput H (segments v n)
      → (u ≡ v) × (m ≡ n)
  segments-injective u v m n hm hn e =
      let same =
        to_roinput-injective (segments u m) (segments v n) (omega arith) (omega arith)
          (omega arith, (label-IsShort u, (hm, tt))) (omega arith, (label-IsShort v, (hn, tt))) e in
      (
        sym (named-label u) ∙ ap (λ s. named (segment_at 1 s)) same ∙ named-label v,
        ap (segment_at 2) same,
      )
