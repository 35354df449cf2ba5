-- ===== src/Map.antt =====
-- `HashMap` and `BTreeMap` of the Rust standard library, as the sessions use them: an association
-- list in which `insert` replaces the value of a key that is there. No operation of the sessions
-- depends on the order of the entries.
pub mod Laws
pub mod Count
pub mod Entries
use mina_multi_sig.Base.{
  ◌≡◌, Bool, true, false, ◌&&◌, List, [], ◌∷◌, map, all, Option, none, some, ite, is_some,
}

abbrev pub Map : Type 0 → Type 0 → Type 0
Map K V = List (K × V)

-- The keys of a map, as `keys().cloned().collect::<HashSet<_>>()`.
abbrev pub key_set : {K V : Type 0} → Map K V → Map K (Unit {0})
key_set [] = []
key_set ((k, v) ∷ m) = (k, tt) ∷ key_set m

-- `m.values().all(p)`
abbrev pub all_values : {K V : Type 0} → (V → Bool) → Map K V → Bool
all_values p [] = true
all_values p ((k, v) ∷ m) = p v && all_values p m

-- `m.iter().all(p)`
abbrev pub all_entries : {K V : Type 0} → (K → V → Bool) → Map K V → Bool
all_entries p [] = true
all_entries p ((k, v) ∷ m) = p k v && all_entries p m

module _ {K : Type 0} (dec : Discrete K) where
  unfoldable pub get : {V : Type 0} → K → Map K V → Option V
  get k [] = none
  get k ((j, v) ∷ m) = ite (dec j k) (some v) (get k m)

  unfoldable pub insert : {V : Type 0} → K → V → Map K V → Map K V
  insert k v [] = (k, v) ∷ []
  insert k v ((j, w) ∷ m) = ite (dec j k) ((j, v) ∷ m) ((j, w) ∷ insert k v m)

  unfoldable pub remove : {V : Type 0} → K → Map K V → Map K V
  remove k [] = []
  remove k ((j, w) ∷ m) = ite (dec j k) m ((j, w) ∷ remove k m)

  abbrev pub contains_key : {V : Type 0} → K → Map K V → Bool
  contains_key k m = is_some (get k m)

  -- Every key of the first map is a key of the second.
  unfoldable pub keys_within : {V W : Type 0} → Map K V → Map K W → Bool
  keys_within [] n = true
  keys_within ((k, v) ∷ m) n = contains_key k n && keys_within m n

  -- `a.keys().collect::<HashSet<_>>() == b.keys().collect::<HashSet<_>>()`
  unfoldable pub same_keys : {V W : Type 0} → Map K V → Map K W → Bool
  same_keys m n = keys_within m n && keys_within n m

  -- No key stands twice.
  abbrev pub Distinct : {V : Type 0} → Map K V → Type 0
  Distinct [] = Unit
  Distinct ((k, v) ∷ m) = (get k m ≡ none) × Distinct m

  -- `m.values().any(|&w| w == v)`, at values that have a decidable equality.
  unfoldable pub has_value : {J : Type 0} → K → Map J K → Bool
  has_value v [] = false
  has_value v ((j, w) ∷ m) = ite (dec w v) true (has_value v m)
