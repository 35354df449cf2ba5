-- ===== src/Map/Laws.antt =====
-- Look-ups after an insertion or a removal, and the entries that stay.
use mina_multi_sig.Base.{◌++◌, none, [], ◌≡◌, refl, [], ◌∷◌, some, ite, arith, ◌≢◌}
use mina_multi_sig.Map.{Map, get, insert, remove, Distinct}

module _ {K : Type 0} (dec : Discrete K) {V : Type 0} where
  pub get-insert :
      (k j : K) (v : V) (m : Map K V)
      → get dec j (insert dec k v m) ≡ ite (dec k j) (some v) (get dec j m)
  unfolding get insert
  get-insert k j v [] = refl
  get-insert k j v ((i, w) ∷ m) = ground (arith, get-insert k j v m)

  pub get-insert_self : (k : K) (v : V) (m : Map K V) → get dec k (insert dec k v m) ≡ some v
  get-insert_self k v m = ground (arith, get-insert k k v m)

  pub get-insert_other :
      (k j : K) (v : V) (m : Map K V) → k ≢ j → get dec j (insert dec k v m) ≡ get dec j m
  get-insert_other k j v m ne = ground (arith, get-insert k j v m)

  pub get-remove_ne : (k j : K) (m : Map K V) → k ≢ j → get dec j (remove dec k m) ≡ get dec j m
  unfolding get remove
  get-remove_ne k j [] h = refl
  get-remove_ne k j ((i, w) ∷ m) h = ground (arith, get-remove_ne k j m)

  pub insert-Distinct :
      (k : K) (v : V) (m : Map K V) → Distinct dec m → Distinct dec (insert dec k v m)
  unfolding get insert
  insert-Distinct k v [] d = (refl, tt)
  insert-Distinct k v ((i, w) ∷ m) d = ground (arith, insert-Distinct k v m, get-insert k i v m)

  -- A fresh key goes to the end.
  pub insert_fresh :
      (k : K) (v : V) (m : Map K V) → get dec k m ≡ none → insert dec k v m ≡ m ++ (k, v) ∷ []
  unfolding get insert
  insert_fresh k v [] h = refl
  insert_fresh k v ((i, w) ∷ m) h = ground (arith, insert_fresh k v m)

  pub get-append :
      (k : K) (m n : Map K V)
      → get dec k (m ++ n) ≡ elim (get dec k m) [ none ↦ get dec k n | some v ↦ some v ]
  unfolding get
  get-append k [] n = refl
  get-append k ((i, w) ∷ m) n = ground (arith, get-append k m n)

  -- In a list of entries with distinct keys an entry in the middle is new to those before it.
  pub Distinct-middle :
      (m n : Map K V) (k : K) (v : V) → Distinct dec (m ++ (k, v) ∷ n) → get dec k m ≡ none
  unfolding get
  Distinct-middle [] n k v d = refl
  Distinct-middle ((i, w) ∷ m) n k v d =
      ground (arith, Distinct-middle m n k v d.1, get-append i m ((k, v) ∷ n))

  pub Distinct-front : (m n : Map K V) → Distinct dec (m ++ n) → Distinct dec m
  Distinct-front [] n d = tt
  Distinct-front ((i, w) ∷ m) n d = ground (arith, Distinct-front m n d.1, get-append i m n)

  -- To insert what is there changes nothing.
  pub insert_same : (k : K) (v : V) (m : Map K V) → get dec k m ≡ some v → insert dec k v m ≡ m
  unfolding get insert
  insert_same k v [] h = ground arith
  insert_same k v ((i, w) ∷ m) h = ground (arith, insert_same k v m)
