-- ===== src/PallasMessage/Faults.antt =====
-- Which bytes make `deserialize` index past their end.
use mina_multi_sig.Base.{
  ℕ, ◌≤◌, ◌≡◌, ◌≢◌, true, [], ◌∷◌, length, drop, take, panicked, returned, Attempt-cases, sym, ap,
  ◌∙◌, ◌-◌, arith, length-drop, refl, Bool, inl, inr, Option-cases, ltb, false,
}
use mina_multi_sig.Text.{Bytes, is_utf8}
use mina_multi_sig.NetworkId.{NetworkId, max_prefix_length}
use mina_multi_sig.PallasMessage.{
  RoInputCodec, pallas_message_version, deserialize, read_custom, read_network, read_body,
  read_flag,
}

-- A header of a custom network that ends with the name.
abbrev pub Truncated : Bytes → Type 0
Truncated (version ∷ tag ∷ name_len ∷ name) =
    (version ≡ pallas_message_version)
    × (tag ≡ 2)
    × (name_len ≡ length name)
    × (length name ≤ max_prefix_length)
    × (is_utf8 name ≡ true)
Truncated _ = ⊥

take-all : (xs : Bytes) → take (length xs) xs ≡ xs
take-all [] = refl
take-all (x ∷ xs) = ground (arith, take-all xs)

drop-all : (xs : Bytes) → drop (length xs) xs ≡ []
drop-all [] = refl
drop-all (x ∷ xs) = drop-all xs

read_custom-nothing :
    (third : ℕ) (rest : Bytes) (n : NetworkId)
    → read_custom (third ∷ rest) ≡ returned (n, [])
    → (third ≡ length rest) × (length rest ≤ max_prefix_length) × (is_utf8 rest ≡ true)
unfolding read_custom
read_custom-nothing third rest n h =
    let short : third ≤ 20 = ground arith in
    let room : third ≤ length rest = ground arith in
    let nothing : drop third rest ≡ [] = ground (arith, short, room) in
    let none_left : length rest - third ≡ 0 = sym (length-drop third rest) ∙ ap length nothing in
    let whole : third ≡ length rest = omega (arith, none_left, room) in
    let text : is_utf8 (take third rest) ≡ true = ground (arith, short, room) in
    (whole, omega (arith, short, whole), rw (sym (take-all rest), sym whole) text)

read_network-nothing :
    (tag third : ℕ) (rest : Bytes) (n : NetworkId)
    → read_network tag (third ∷ rest) ≡ returned (n, [])
    → (tag ≡ 2) × (read_custom (third ∷ rest) ≡ returned (n, []))
unfolding read_network
read_network-nothing tag third rest n h = ground arith

read_network-returns : (tag third : ℕ) (rest : Bytes) → read_network tag (third ∷ rest) ≢ panicked
unfolding read_network read_custom
read_network-returns tag third rest h = ground arith

module _ (R : RoInputCodec) where
  read_body-returns : (n : NetworkId) (l : Bool) (bytes : Bytes) → read_body R n l bytes ≢ panicked
  unfolding read_body
  read_body-returns n l [] h = ground arith
  read_body-returns n l (b0 ∷ []) h = ground arith
  read_body-returns n l (b0 ∷ b1 ∷ []) h = ground arith
  read_body-returns n l (b0 ∷ b1 ∷ b2 ∷ []) h = ground arith
  read_body-returns n l (b0 ∷ b1 ∷ b2 ∷ b3 ∷ roi) h = elim (Option-cases (R.read roi)) [
    | inl e ↦ ground (arith, e)
    | inr (a, e) ↦ ground (arith, e)
  ]

  read_flag-panics : (n : NetworkId) (bytes : Bytes) → read_flag R n bytes ≡ panicked → bytes ≡ []
  unfolding read_flag
  read_flag-panics n [] h = refl
  read_flag-panics n (b ∷ rest) h =
      ground (arith, read_body-returns n true rest, read_body-returns n false rest)

  -- Bytes that end a custom network's header with its name make `PallasMessage::deserialize`
  -- panic.
  pub Truncated-panics : (bytes : Bytes) → Truncated bytes → deserialize R bytes ≡ panicked
  unfolding deserialize read_network read_custom read_flag
  Truncated-panics [] h = absurd h
  Truncated-panics (version ∷ []) h = absurd h
  Truncated-panics (version ∷ tag ∷ []) h = absurd h
  Truncated-panics (version ∷ tag ∷ name_len ∷ name) (v, t, n, short, u) =
      let room : ltb (length name) (length name) ≡ false = ground arith in
      let fits : ltb max_prefix_length (length name) ≡ false = ground arith in
      rw (v, t, n, fits, room, take-all name, drop-all name, u)

  -- `PallasMessage::deserialize` panics on no other bytes than those that end a custom network's
  -- header with its name.
  pub deserialize-panics : (bytes : Bytes) → deserialize R bytes ≡ panicked → Truncated bytes
  unfolding deserialize
  deserialize-panics [] h = ground arith
  deserialize-panics (version ∷ []) h = ground arith
  deserialize-panics (version ∷ tag ∷ []) h = ground arith
  deserialize-panics (version ∷ tag ∷ third ∷ rest) h =
      let v : version ≡ 1 = ground arith in
      elim (Attempt-cases (read_network tag (third ∷ rest))) [
        | inl e ↦ absurd (read_network-returns tag third rest e)
        | inr (inl (e, f)) ↦ absurd (ground (arith, f, v))
        | inr (inr ((n, body), f)) ↦
            let gone : body ≡ [] = read_flag-panics n body (ground (arith, f, v)) in
            let (t, g) =
              read_network-nothing tag third rest n (f ∙ ap (λ b. returned (n, b)) gone) in
            let (whole, short, u) = read_custom-nothing third rest n g in (v, t, whole, short, u)
      ]
