-- ===== src/Session/Dkg/Sources/OfRound1.antt =====
-- Where the packages of round 1 that a DKG session holds come from.
use mina_multi_sig.Session.Dkg.Sources.{Contributed, traced}
use mina_multi_sig.Base.{
  ◌≡◌, ◌∙◌, ap, subst, true, List, [], ◌∷◌, some, Option-cases, Bool-cases, inl, inr, ◌⊎◌, done,
  arith, ◌-◌, ◌==◌, length, ltb,
}
use mina_multi_sig.Map.{Map, get, insert}
use mina_multi_sig.Session.Types.{PublicKey, PublicKey-discrete, Msg, Ciphersuite}
use mina_multi_sig.Session.Dkg.{
  DkgSessionState, Round1, waiting_for_round1_packages, store_round1_package, handle_round1_package,
  recv, round1_packages, after_round1, has_round1_broadcast_packages,
}
use mina_multi_sig.Session.Dkg.Run.{exchange, exchange_inv}
use mina_multi_sig.Session.Dkg.Moves.{round2_packages_held, broadcast_packages_held}

module _ (C : Ciphersuite) where
  open C use {
    Identifier, Round1Package, Round2Package, identifier_discrete, read_round1_package,
    read_round2_package,
  }

  recv_first_inv :
      (r : Round1 C) (m : Msg) (self : Identifier) (next : DkgSessionState C)
      → recv C (waiting_for_round1_packages r) m self ≡ done next
      → (i : Identifier) × (q : Round1Package) × (get PublicKey-discrete m.sender r.pubkeys
          ≡ some i)
        × (read_round1_package m.msg ≡ some q)
        × (store_round1_package C r i q ≡ done next)
  unfolding recv handle_round1_package
  recv_first_inv r m self next h = elim (Option-cases (read_round1_package m.msg)) [
    | inl bad ↦ absurd (ground arith)
    | inr (q, good) ↦ elim (Option-cases (get PublicKey-discrete m.sender r.pubkeys)) [
      | inl unknown ↦ absurd (ground arith)
      | inr (i, known) ↦ (i, q, known, good, ground arith)
    ]
  ]

  -- The packages of round 1 stay after it.
  after_round1-held :
      (pubkeys : Map PublicKey Identifier) (before packages : Map Identifier Round1Package)
      (ms : List Msg) (self : Identifier) (t : DkgSessionState C)
      → exchange C (after_round1 C pubkeys before) ms self ≡ done t
      → has_round1_broadcast_packages C t ≡ true
      → round1_packages C t ≡ some packages
      → before ≡ packages
  unfolding after_round1
  after_round1-held pubkeys before packages ms self t h over held =
      elim (Bool-cases (ltb 2 (length pubkeys))) [
        | inl many ↦
            let kept = broadcast_packages_held C _ ms self t (rw (many, after_round1) at h) over in
            cc (kept, held)
        | inr two ↦
            let kept = round2_packages_held C _ ms self t (rw (two, after_round1) at h) over in
            cc (kept, held)
      ]

  store_first_inv :
      (r : Round1 C) (i : Identifier) (q : Round1Package) (next : DkgSessionState C)
      → store_round1_package C r i q ≡ done next
      → (next ≡ after_round1 C r.pubkeys (insert identifier_discrete i q r.round1_packages))
        ⊎ (next
            ≡ waiting_for_round1_packages
                (record r { round1_packages = insert identifier_discrete i q r.round1_packages }))
  unfolding store_round1_package
  store_first_inv r i q next h =
      elim (Bool-cases
        (length (insert identifier_discrete i q r.round1_packages) == length r.pubkeys - 1)) [
          | inl full ↦ inl (ground (arith, full))
          | inr more ↦ inr (ground (arith, more))
        ]

  -- Each package of round 1 is of a message from its participant.
  pub first_package_sources :
      (r : Round1 C) (ms : List Msg) (self : Identifier) (t : DkgSessionState C)
      (packages : Map Identifier Round1Package) (id : Identifier) (p : Round1Package)
      → exchange C (waiting_for_round1_packages r) ms self ≡ done t
      → has_round1_broadcast_packages C t ≡ true
      → round1_packages C t ≡ some packages
      → get identifier_discrete id packages ≡ some p
      → (get identifier_discrete id r.round1_packages ≡ some p)
        ⊎ Contributed C read_round1_package r.pubkeys id p ms
  unfolding exchange
  first_package_sources r [] self t packages id p h over held at = absurd (ground arith)
  first_package_sources r (m ∷ ms) self t packages id p h over held at =
      let (next, taken, rest) = exchange_inv C (waiting_for_round1_packages r) m ms self t h in
      let (i, q, known, good, stored) = recv_first_inv r m self next taken in
      traced C read_round1_package r.pubkeys m ms i id q p r.round1_packages known good
        (elim (store_first_inv r i q next stored) [
          | inl e ↦
              let own =
                after_round1-held r.pubkeys _ packages ms self t
                  (subst (λ x. exchange C x ms self ≡ done t) e rest) over held in
              inl (ap (get identifier_discrete id) own ∙ at)
          | inr e ↦
              first_package_sources
                (record r { round1_packages = insert identifier_discrete i q r.round1_packages }) ms
                self t packages id p (subst (λ x. exchange C x ms self ≡ done t) e rest) over held
                at
        ])
