-- ===== src/Session/Dkg/Moves.antt =====
-- The phases of a DKG session: which states a message that is accepted leads to.
use mina_multi_sig.Base.{
  ◌≡◌, sym, subst, true, List, [], ◌∷◌, ◌-◌, ◌==◌, length, some, Option-cases, Bool-cases, inl, inr,
  ◌⊎◌, done, arith,
}
use mina_multi_sig.Map.{Map, get, insert, same_keys}
use mina_multi_sig.Session.Types.{PublicKey-discrete, Msg, Ciphersuite}
use mina_multi_sig.Session.Dkg.{
  DkgSessionState, Round1, Round1Broadcast, Round2, Round2Ready, waiting_for_round1_packages,
  waiting_for_round1_packages_broadcast, waiting_for_round2_packages, round2_packages_ready,
  after_round1, store_round1_package, handle_round1_package, is_complete, advance_broadcast,
  store_round2_package, handle_round2_package, recv, has_round1_broadcast_packages, round1_packages,
}
use mina_multi_sig.Session.Dkg.Echo.{with_echo}
use mina_multi_sig.Session.Dkg.Run.{exchange, exchange_inv}
use mina_multi_sig.Session.Dkg.Agreement.{recv_broadcast_inv}

module _ (C : Ciphersuite) where
  open C use {
    Identifier, Round1Package, Round2Package, identifier_discrete, read_round1_package,
    read_round2_package,
  }

  abbrev State : Type 0
  State = DkgSessionState C

  -- A phase goes on with more packages, or the next one begins.
  abbrev pub Moves : State → State → Type 0
  Moves (waiting_for_round1_packages r) next =
      ((p : Map Identifier Round1Package) × (next
          ≡ waiting_for_round1_packages (record r { round1_packages = p })))
      ⊎ ((p : Map Identifier Round1Package) × (next ≡ after_round1 C r.pubkeys p))
  Moves (waiting_for_round1_packages_broadcast r) next =
      ((b : Map Identifier (Map Identifier Round1Package)) × (next
          ≡ waiting_for_round1_packages_broadcast (record r { round1_broadcasted_packages = b })))
      ⊎ (next
          ≡ waiting_for_round2_packages (record {
            pubkeys = r.pubkeys;
            round1_packages = r.round1_packages;
            round2_packages = [];
          }))
  Moves (waiting_for_round2_packages r) next =
      ((p : Map Identifier Round2Package) × (next
          ≡ waiting_for_round2_packages (record r { round2_packages = p })))
      ⊎ ((p : Map Identifier Round2Package) × (next
            ≡ round2_packages_ready (record { pubkeys = r.pubkeys; round2_packages = p }))
          × (same_keys identifier_discrete p r.round1_packages ≡ true))
  Moves (round2_packages_ready r) next = ⊥

  store_round1_package-Moves :
      (r : Round1 C) (i : Identifier) (p : Round1Package) (next : State)
      → store_round1_package C r i p ≡ done next
      → Moves (waiting_for_round1_packages r) next
  unfolding store_round1_package
  store_round1_package-Moves r i p next h =
      let packages = insert identifier_discrete i p r.round1_packages in
      elim (Bool-cases (length packages == length r.pubkeys - 1)) [
        | inl full ↦ inr (packages, ground (arith, full))
        | inr more ↦ inl (packages, ground (arith, more))
      ]

  handle_round1_package-Moves :
      (r : Round1 C) (m : Msg) (p : Round1Package) (next : State)
      → handle_round1_package C (waiting_for_round1_packages r) m.sender p ≡ done next
      → Moves (waiting_for_round1_packages r) next
  unfolding handle_round1_package
  handle_round1_package-Moves r m p next h =
      elim (Option-cases (get PublicKey-discrete m.sender r.pubkeys)) [
        | inl unknown ↦ absurd (ground (arith, unknown))
        | inr (i, known) ↦ store_round1_package-Moves r i p next (ground (arith, known))
      ]

  store_round2_package-Moves :
      (r : Round2 C) (i : Identifier) (p : Round2Package)
      → Moves (waiting_for_round2_packages r) (store_round2_package C r i p)
  unfolding store_round2_package
  store_round2_package-Moves r i p =
      let packages = insert identifier_discrete i p r.round2_packages in
      elim (Bool-cases (same_keys identifier_discrete packages r.round1_packages)) [
        | inl full ↦ inr (packages, ground (arith, full), full)
        | inr more ↦ inl (packages, ground (arith, more))
      ]

  handle_round2_package-Moves :
      (r : Round2 C) (m : Msg) (p : Round2Package) (next : State)
      → handle_round2_package C (waiting_for_round2_packages r) m.sender p ≡ done next
      → Moves (waiting_for_round2_packages r) next
  unfolding handle_round2_package
  handle_round2_package-Moves r m p next h =
      elim (Option-cases (get PublicKey-discrete m.sender r.pubkeys)) [
        | inl unknown ↦ absurd (ground (arith, unknown))
        | inr (i, known) ↦
            let stored : store_round2_package C r i p ≡ next = ground (arith, known) in
            subst (Moves (waiting_for_round2_packages r)) stored (store_round2_package-Moves r i p)
      ]

  advance_broadcast-Moves :
      (r : Round1Broadcast C) (b : Map Identifier (Map Identifier Round1Package))
      → Moves
          (waiting_for_round1_packages_broadcast r)
          (advance_broadcast C (record r { round1_broadcasted_packages = b }))
  unfolding advance_broadcast
  advance_broadcast-Moves r b = elim (Bool-cases (is_complete C r.round1_packages b)) [
    | inl complete ↦ inr (ground (arith, complete))
    | inr more ↦ inl (b, ground (arith, more))
  ]

  pub recv-Moves :
      (st : State) (m : Msg) (self : Identifier) (next : State)
      → recv C st m self ≡ done next
      → Moves st next
  unfolding recv
  recv-Moves (waiting_for_round1_packages r) m self next h =
      elim (Option-cases (read_round1_package m.msg)) [
        | inl bad ↦ absurd (ground (arith, bad))
        | inr (p, good) ↦ handle_round1_package-Moves r m p next (ground (arith, good))
      ]
  recv-Moves (waiting_for_round1_packages_broadcast r) m self next h =
      let (s, o, p, _, moved) = recv_broadcast_inv C r m self next h in
      subst (Moves (waiting_for_round1_packages_broadcast r)) (sym moved)
        (advance_broadcast-Moves r (with_echo C r s o p).round1_broadcasted_packages)
  recv-Moves (waiting_for_round2_packages r) m self next h =
      elim (Option-cases (read_round2_package m.msg)) [
        | inl bad ↦ absurd (ground (arith, bad))
        | inr (p, good) ↦ handle_round2_package-Moves r m p next (ground (arith, good))
      ]
  recv-Moves (round2_packages_ready r) m self next h = absurd (ground arith)

  -- The last state takes no message.
  pub ready_last :
      (r : Round2Ready C) (ms : List Msg) (self : Identifier) (t : State)
      → exchange C (round2_packages_ready r) ms self ≡ done t
      → round2_packages_ready r ≡ t
  unfolding exchange
  ready_last r [] self t h = ground arith
  ready_last r (m ∷ ms) self t h =
      let (next, taken, rest) = exchange_inv C (round2_packages_ready r) m ms self t h in
      absurd (recv-Moves (round2_packages_ready r) m self next taken)

  -- Past the broadcast the packages of round 1 stay.
  pub round2_packages_held :
      (r : Round2 C) (ms : List Msg) (self : Identifier) (t : State)
      → exchange C (waiting_for_round2_packages r) ms self ≡ done t
      → has_round1_broadcast_packages C t ≡ true
      → round1_packages C t ≡ some r.round1_packages
  unfolding exchange
  round2_packages_held r [] self t h over = ground arith
  round2_packages_held r (m ∷ ms) self t h over =
      let (next, taken, rest) = exchange_inv C (waiting_for_round2_packages r) m ms self t h in
      elim (recv-Moves (waiting_for_round2_packages r) m self next taken) [
        | inl (p, e) ↦
            round2_packages_held (record r { round2_packages = p }) ms self t
              (subst (λ x. exchange C x ms self ≡ done t) e rest) over
        | inr (p, e, same) ↦
            let last = ready_last _ ms self t (subst (λ x. exchange C x ms self ≡ done t) e rest) in
            absurd (ground (arith, last))
      ]

  pub broadcast_packages_held :
      (r : Round1Broadcast C) (ms : List Msg) (self : Identifier) (t : State)
      → exchange C (waiting_for_round1_packages_broadcast r) ms self ≡ done t
      → has_round1_broadcast_packages C t ≡ true
      → round1_packages C t ≡ some r.round1_packages
  unfolding exchange
  broadcast_packages_held r [] self t h over = absurd (ground arith)
  broadcast_packages_held r (m ∷ ms) self t h over =
      let (next, taken, rest) =
        exchange_inv C (waiting_for_round1_packages_broadcast r) m ms self t h in
      elim (recv-Moves (waiting_for_round1_packages_broadcast r) m self next taken) [
        | inl (b, e) ↦
            broadcast_packages_held (record r { round1_broadcasted_packages = b }) ms self t
              (subst (λ x. exchange C x ms self ≡ done t) e rest) over
        | inr e ↦
            round2_packages_held _ ms self t (subst (λ x. exchange C x ms self ≡ done t) e rest)
              over
      ]
