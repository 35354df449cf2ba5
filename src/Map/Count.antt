-- ===== src/Map/Count.antt =====
-- Sizes of maps: an insertion adds at most one entry, and two maps with the same keys have the same
-- size.
use mina_multi_sig.Base.{
  sym, ◌≡◌, refl, ◌≤◌, suc, true, [], ◌∷◌, none, some, arith, length, &&-eq-true, Option-cases,
  Bool-cases, inl, inr,
}
use mina_multi_sig.Map.{Map, get, insert, remove, contains_key, keys_within, same_keys, Distinct}
use mina_multi_sig.Map.Laws.{get-remove_ne}

module _ {K : Type 0} (dec : Discrete K) {V : Type 0} where
  pub length-insert_new :
      (k : K) (v : V) (m : Map K V)
      → get dec k m ≡ none
      → length (insert dec k v m) ≡ suc (length m)
  unfolding get insert
  length-insert_new k v [] h = refl
  length-insert_new k v ((i, w) ∷ m) h = ground (arith, length-insert_new k v m)

  pub length-insert_old :
      (k : K) (v w : V) (m : Map K V) → get dec k m ≡ some w → length (insert dec k v m) ≡ length m
  unfolding get insert
  length-insert_old k v w [] h = ground arith
  length-insert_old k v w ((i, u) ∷ m) h = ground (arith, length-insert_old k v w m)

  pub length-insert-le : (k : K) (v : V) (m : Map K V) → length (insert dec k v m) ≤ suc (length m)
  length-insert-le k v m = elim (Option-cases (get dec k m)) [
    | inl free ↦ omega (arith, length-insert_new k v m free)
    | inr (w, old) ↦ omega (arith, length-insert_old k v w m old)
  ]

  length-remove :
      (k : K) (v : V) (m : Map K V)
      → get dec k m ≡ some v
      → suc (length (remove dec k m)) ≡ length m
  unfolding get remove
  length-remove k v [] h = ground arith
  length-remove k v ((i, u) ∷ m) h = ground (arith, length-remove k v m)

module _ {K : Type 0} (dec : Discrete K) {V W : Type 0} where
  pub keys_within-get :
      (m : Map K V) (n : Map K W) (k : K) (v : V)
      → keys_within dec m n ≡ true
      → get dec k m ≡ some v
      → contains_key dec k n ≡ true
  unfolding keys_within get
  keys_within-get [] n k v h e = ground arith
  keys_within-get ((i, u) ∷ m) n k v h e = ground (arith, keys_within-get m n k v)

  keys_within-remove :
      (m : Map K V) (n : Map K W) (k : K)
      → keys_within dec m n ≡ true
      → get dec k m ≡ none
      → keys_within dec m (remove dec k n) ≡ true
  unfolding keys_within get
  keys_within-remove [] n k h e = refl
  keys_within-remove ((i, u) ∷ m) n k h e =
      ground (arith, keys_within-remove m n k, get-remove_ne dec k i n)

  pub keys_within-le :
      (m : Map K V) (n : Map K W)
      → Distinct dec m
      → keys_within dec m n ≡ true
      → length m ≤ length n
  unfolding keys_within
  keys_within-le [] n d h = omega arith
  keys_within-le ((i, u) ∷ m) n d h = elim (Option-cases (get dec i n)) [
    | inl missing ↦ absurd (ground arith)
    | inr (w, found) ↦ omega (
      arith,
      keys_within-le m (remove dec i n) d.1 (keys_within-remove m n i (&&-eq-true _ _ h).1 d.0),
      length-remove dec i w n found,
    )
  ]

-- Two maps with the same keys have the same number of entries.
module _ {K : Type 0} (dec : Discrete K) {V W : Type 0} where
  pub same_keys-length :
      (m : Map K V) (n : Map K W)
      → Distinct dec m
      → Distinct dec n
      → same_keys dec m n ≡ true
      → length m ≡ length n
  unfolding same_keys
  same_keys-length m n d e h = omega (
    arith,
    keys_within-le dec m n d (&&-eq-true _ _ h).0,
    keys_within-le dec n m e (&&-eq-true _ _ h).1,
  )

module _ {K : Type 0} (dec : Discrete K) {V W : Type 0} where
  keys_within-all :
      (n : Map K W) (m : Map K V)
      → Distinct dec n
      → ((k : K) (w : W) → get dec k n ≡ some w → contains_key dec k m ≡ true)
      → keys_within dec n m ≡ true
  unfolding keys_within get
  keys_within-all [] m d h = refl
  keys_within-all ((i, u) ∷ n) m d h = ground (
    arith,
    h i u,
    keys_within-all n m d.1
        (λ k w e. elim (dec i k) [ yes p ↦ absurd (ground arith) | no p ↦ h k w (ground arith) ]),
  )

  keys_within_of_contains :
      (n : Map K W) (m : Map K V)
      → Distinct dec n
      → ((k : K) → contains_key dec k n ≡ contains_key dec k m)
      → keys_within dec n m ≡ true
  keys_within_of_contains n m d h = keys_within-all n m d (λ k w e. ground (arith, h k, e))

  -- A map that has all its keys in another one, and as many entries, has the same keys.
  pub same_keys_of_length :
      (m : Map K V) (n : Map K W)
      → Distinct dec m
      → Distinct dec n
      → keys_within dec m n ≡ true
      → length m ≡ length n
      → same_keys dec m n ≡ true
  unfolding same_keys
  same_keys_of_length m n d e h l = rw h (
      keys_within-all n m e λ k w found. elim (Bool-cases (contains_key dec k m)) [
        | inl inside ↦ inside
        | inr outside ↦ absurd (
            omega (
              arith,
              keys_within-le dec m (remove dec k n) d
                  (keys_within-remove dec m n k h (ground arith)),
              length-remove dec k w n found,
            ))
      ])

module _ {K : Type 0} (dec : Discrete K) where
  keys_within-contains :
      {V W : Type 0} (m : Map K V) (n : Map K W) (j : K)
      → keys_within dec m n ≡ true
      → contains_key dec j m ≡ true
      → contains_key dec j n ≡ true
  unfolding keys_within get
  keys_within-contains [] n j h e = ground arith
  keys_within-contains ((k, v) ∷ m) n j h e = ground (arith, keys_within-contains m n j)

  -- Maps with the same keys have entries at the same keys.
  pub same_keys-contains :
      {V W : Type 0} (m : Map K V) (n : Map K W) (j : K)
      → same_keys dec m n ≡ true
      → contains_key dec j m ≡ contains_key dec j n
  unfolding same_keys
  same_keys-contains m n j h =
      let (there, back) = &&-eq-true (keys_within dec m n) (keys_within dec n m) h in
      ground (arith, keys_within-contains m n j there, keys_within-contains n m j back)

module _ {K : Type 0} (dec : Discrete K) {V W : Type 0} where
  pub same_keys_of_contains :
      (m : Map K V) (n : Map K W)
      → Distinct dec m
      → Distinct dec n
      → ((k : K) → contains_key dec k m ≡ contains_key dec k n)
      → same_keys dec m n ≡ true
  unfolding same_keys
  same_keys_of_contains m n d e h = ground (
    arith,
    keys_within_of_contains dec m n d h,
    keys_within_of_contains dec n m e (λ k. sym (h k)),
  )
