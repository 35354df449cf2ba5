-- ===== src/Session/Coordinator/Getters.antt =====
-- `commitments` and `signature_shares` turn a map of vectors into a vector of maps. In a valid state
-- no index is out of range, and nothing is lost or mixed up.
use mina_multi_sig.Base.{
  ℕ, zero, suc, ◌+◌, ◌≡◌, subst, refl, ◌≤◌, ◌<◌, ◌<◌, List, [], ◌∷◌, Option, none, some, length,
  get_elem?, get_elem?-some, arith, Option-cases, inl, inr,
}
use native.Mathlib.Nat.{add-zero, zero-add}
use mina_multi_sig.Map.{Map, get}
use mina_multi_sig.Session.Types.{Ciphersuite}
use mina_multi_sig.Session.Coordinator.{
  waiting_for_signature_shares, signature_shares_ready, column, columns, commitments,
  signature_shares, ShareRound, SharesReady,
}
use mina_multi_sig.Session.Coordinator.Invariant.{IsValid, Rows}

abbrev pub and_then : {A B : Type 0} → Option A → (A → Option B) → Option B
and_then none f = none
and_then (some a) f = f a

module _ {K : Type 0} (dec : Discrete K) {V : Type 0} where
  pub column-some :
      (m : Map K (List V)) (i n : ℕ)
      → Rows n m
      → i < n
      → (c : Map K V) × (column m i ≡ some c) × (length c ≡ length m)
  unfolding column
  column-some [] i n r h = ([], refl, refl)
  column-some ((k, v) ∷ m) i n r h =
      let (a, e) = get_elem?-some v i (omega arith) in
      let (c, f, l) = column-some m i n r.1 h in ((k, a) ∷ c, rw (e, f, column), omega arith)

  columns-some :
      (m : Map K (List V)) (i k n : ℕ)
      → Rows n m
      → i + k ≤ n
      → (cs : List (Map K V)) × (columns m i k ≡ some cs) × (length cs ≡ k)
  unfolding columns
  columns-some m i zero n r h = ([], refl, refl)
  columns-some m i (suc k) n r h =
      let (c, e, l) = column-some m i n r (omega arith) in
      let (cs, f, q) = columns-some m (suc i) k n r (omega arith) in
      (c ∷ cs, rw (e, f, columns), omega arith)

  pub column-get :
      (m : Map K (List V)) (i : ℕ) (c : Map K V) (k : K)
      → column m i ≡ some c
      → get dec k c ≡ and_then (get dec k m) (λ v. get_elem? v i)
  unfolding column get
  column-get [] i c k h = ground arith
  column-get ((j, v) ∷ m) i c k h = elim (Option-cases (get_elem? v i)) [
    | inl bad ↦ absurd (ground arith)
    | inr (a, e) ↦ elim (Option-cases (column m i)) [
      | inl bad ↦ absurd (ground arith)
      | inr (rest, f) ↦ ground (arith, column-get m i rest k f)
    ]
  ]

  columns_inv :
      (m : Map K (List V)) (i n : ℕ) (cs : List (Map K V))
      → columns m i (suc n) ≡ some cs
      → (c : Map K V) × (rest : List (Map K V)) × (column m i ≡ some c)
        × (columns m (suc i) n ≡ some rest)
        × (cs ≡ c ∷ rest)
  unfolding columns
  columns_inv m i n cs h = elim (Option-cases (column m i)) [
    | inl bad ↦ absurd (ground arith)
    | inr (c, e) ↦ elim (Option-cases (columns m (suc i) n)) [
      | inl bad ↦ absurd (ground arith)
      | inr (rest, f) ↦ (c, rest, e, f, ground arith)
    ]
  ]

  columns-get :
      (m : Map K (List V)) (i n j : ℕ) (cs : List (Map K V)) (c : Map K V) (k : K)
      → columns m i n ≡ some cs
      → get_elem? cs j ≡ some c
      → get dec k c ≡ and_then (get dec k m) (λ v. get_elem? v (i + j))
  unfolding columns
  columns-get m i zero j cs c k h e = ground arith
  columns-get m i (suc n) zero cs c k h e =
      let (c0, rest, p, q, r) = columns_inv m i n cs h in
      rw (add-zero i) (column-get m i c k (ground arith))
  columns-get m i (suc n) (suc j) cs c k h e =
      let (c0, rest, p, q, r) = columns_inv m i n cs h in
      let shift : i + suc j ≡ suc i + j = omega arith in
      rw shift (columns-get m (suc i) n j rest c k q (ground arith))

  columns_transpose :
      (m : Map K (List V)) (n j : ℕ) (k : K)
      → Rows n m
      → j < n
      → (cs : List (Map K V)) × (c : Map K V) × (columns m 0 n ≡ some cs)
        × (length cs ≡ n)
        × (get_elem? cs j ≡ some c)
        × (get dec k c ≡ and_then (get dec k m) (λ v. get_elem? v j))
  columns_transpose m n j k r h =
      let (cs, e, l) = columns-some m 0 n n r (omega arith) in
      let (c, f) = get_elem?-some cs j (omega arith) in
      (
        cs,
        c,
        e,
        l,
        f,
        subst (λ t. get dec k c ≡ and_then (get dec k m) (λ v. get_elem? v t)) (zero-add j)
            (columns-get m 0 n j cs c k e f),
      )

module _ (C : Ciphersuite) where
  open C use {Identifier, SigningCommitments, SignatureShare, identifier_discrete}

  -- Once a valid session has all commitments, `commitments` returns the mapping of public keys and
  -- one map for each message; the map for message `j` holds, for each identifier, the `j`-th
  -- commitment that it sent, and nothing for an identifier that sent none.
  pub commitments_transpose :
      (r : ShareRound C) (j : ℕ) (k : Identifier)
      → IsValid C (waiting_for_signature_shares r)
      → j < r.args.num_messages
      → (cs : List (Map Identifier SigningCommitments)) × (c : Map Identifier SigningCommitments)
        × (commitments C (waiting_for_signature_shares r) ≡ some (cs, r.pubkeys))
        × (length cs ≡ r.args.num_messages)
        × (get_elem? cs j ≡ some c)
        × (get identifier_discrete k c
            ≡ and_then (get identifier_discrete k r.commitments) (λ v. get_elem? v j))
  unfolding commitments
  commitments_transpose r j k v h =
      let (cs, c, e, l, f, g) =
        columns_transpose identifier_discrete r.commitments r.args.num_messages j k v.rows h in
      (cs, c, rw (e, commitments), l, f, g)

  -- In the last state `signature_shares` returns one map for each message, and the map for message
  -- `j` holds, for each identifier, the `j`-th share that it sent, and nothing for any other.
  pub signature_shares_transpose :
      (r : SharesReady C) (j : ℕ) (k : Identifier)
      → IsValid C (signature_shares_ready r)
      → j < r.args.num_messages
      → (cs : List (Map Identifier SignatureShare)) × (c : Map Identifier SignatureShare)
        × (signature_shares C (signature_shares_ready r) ≡ some cs)
        × (length cs ≡ r.args.num_messages)
        × (get_elem? cs j ≡ some c)
        × (get identifier_discrete k c
            ≡ and_then (get identifier_discrete k r.signature_shares) (λ v. get_elem? v j))
  unfolding signature_shares
  signature_shares_transpose r j k v h =
      columns_transpose identifier_discrete r.signature_shares r.args.num_messages j k v.shares_rows
        h
