-- ===== src/Map/Entries.antt =====
-- Predicates on all entries of a map, and what an insertion does to them and to key sets.
use mina_multi_sig.Base.{
  refl, Bool, &&-eq-true, ◌++◌, ◌≡◌, sym, subst, true, [], ◌∷◌, some, arith, if_pos, if_neg,
}
use mina_multi_sig.Map.{
  key_set, all_values, all_entries, Map, get, insert, contains_key, keys_within, has_value,
}

-- Every entry of the map satisfies `P`.
abbrev pub Entries : {K V : Type 0} → (K → V → Type 0) → Map K V → Type 0
Entries P [] = Unit
Entries P ((k, v) ∷ m) = P k v × Entries P m

module _ {K : Type 0} (dec : Discrete K) {V : Type 0} where
  pub Entries-insert :
      (P : K → V → Type 0) (k : K) (v : V) (m : Map K V)
      → P k v
      → Entries P m
      → Entries P (insert dec k v m)
  unfolding insert
  Entries-insert P k v [] h e = (h, tt)
  Entries-insert P k v ((j, w) ∷ m) h e = elim (dec j k) [
    | yes p ↦ rw (if_pos _ p) (subst (λ x. P x v) (sym p) h, e.1)
    | no p ↦ rw (if_neg _ p) (e.0, Entries-insert P k v m h e.1)
  ]

  pub Entries-get :
      (P : K → V → Type 0) (k : K) (v : V) (m : Map K V)
      → Entries P m
      → get dec k m ≡ some v
      → P k v
  unfolding get
  Entries-get P k v [] e h = absurd (ground arith)
  Entries-get P k v ((j, w) ∷ m) e h = elim (dec j k) [
    | yes p ↦ subst (λ x. P x v) p (subst (P j) (ground arith) e.0)
    | no p ↦ Entries-get P k v m e.1 (ground arith)
  ]

module _ {K : Type 0} (dec : Discrete K) {V W : Type 0} where
  pub keys_within-insert :
      (k : K) (v : V) (m : Map K V) (n : Map K W)
      → contains_key dec k n ≡ true
      → keys_within dec m n ≡ true
      → keys_within dec (insert dec k v m) n ≡ true
  unfolding keys_within insert
  keys_within-insert k v [] n c h = ground arith
  keys_within-insert k v ((j, w) ∷ m) n c h = ground (arith, keys_within-insert k v m n)

  pub keys_within_middle :
      (m l : Map K V) (n : Map K W) (k : K) (v : V)
      → keys_within dec (m ++ (k, v) ∷ l) n ≡ true
      → contains_key dec k n ≡ true
  unfolding keys_within
  keys_within_middle [] l n k v h = (&&-eq-true _ _ h).0
  keys_within_middle ((j, w) ∷ m) l n k v h = keys_within_middle m l n k v (&&-eq-true _ _ h).1

module _ {J : Type 0} (dec_j : Discrete J) {K : Type 0} (dec_k : Discrete K) where
  pub has_value-get :
      (j : J) (k : K) (m : Map J K) → get dec_j j m ≡ some k → has_value dec_k k m ≡ true
  unfolding get has_value
  has_value-get j k [] h = ground arith
  has_value-get j k ((i, w) ∷ m) h = ground (arith, has_value-get j k m)

module _ {K : Type 0} (dec : Discrete K) {V : Type 0} where
  pub all_entries-get :
      (p : K → V → Bool) (k : K) (v : V) (m : Map K V)
      → all_entries p m ≡ true
      → get dec k m ≡ some v
      → p k v ≡ true
  unfolding get
  all_entries-get p k v [] h e = absurd (ground arith)
  all_entries-get p k v ((j, w) ∷ m) h e = elim (dec j k) [
    | yes q ↦
        subst (λ x. p x v ≡ true) q (subst (λ x. p j x ≡ true) (ground arith) (&&-eq-true _ _ h).0)
    | no q ↦ all_entries-get p k v m (&&-eq-true _ _ h).1 (ground arith)
  ]

  pub all_values-get :
      (p : V → Bool) (k : K) (v : V) (m : Map K V)
      → all_values p m ≡ true
      → get dec k m ≡ some v
      → p v ≡ true
  unfolding get
  all_values-get p k v [] h e = absurd (ground arith)
  all_values-get p k v ((j, w) ∷ m) h e = elim (dec j k) [
    | yes q ↦ subst (λ x. p x ≡ true) (ground arith) (&&-eq-true _ _ h).0
    | no q ↦ all_values-get p k v m (&&-eq-true _ _ h).1 (ground arith)
  ]

  pub contains-key_set :
      (k : K) (m : Map K V) → contains_key dec k (key_set m) ≡ contains_key dec k m
  unfolding get
  contains-key_set k [] = refl
  contains-key_set k ((j, w) ∷ m) = ground (arith, contains-key_set k m)
