-- ===== src/Session/Dkg/Sources/OfRound2.antt =====
-- Where the packages of round 2 that a DKG session holds come from.
use mina_multi_sig.Session.Dkg.Sources.{Contributed, traced}
use mina_multi_sig.Base.{
  refl, ◌≡◌, ◌∙◌, sym, ap, subst, List, [], ◌∷◌, none, some, Option-cases, Bool-cases, inl, inr,
  ◌⊎◌, done, arith, length, ltb,
}
use mina_multi_sig.Map.{Map, get, insert, same_keys}
use mina_multi_sig.Session.Types.{PublicKey, PublicKey-discrete, Msg, Ciphersuite}
use mina_multi_sig.Session.Dkg.{
  DkgSessionState, Round2, waiting_for_round1_packages, waiting_for_round1_packages_broadcast,
  waiting_for_round2_packages, round2_packages_ready, store_round2_package, handle_round2_package,
  recv, after_round1,
}
use mina_multi_sig.Session.Dkg.Run.{exchange, exchange_inv}
use mina_multi_sig.Session.Dkg.Through.{pubkeys_of, Moves-pubkeys_of}
use mina_multi_sig.Session.Dkg.Moves.{recv-Moves}

module _ (C : Ciphersuite) where
  open C use {
    Identifier, Round1Package, Round2Package, identifier_discrete, read_round1_package,
    read_round2_package,
  }

  recv_round2_inv :
      (r : Round2 C) (m : Msg) (self : Identifier) (next : DkgSessionState C)
      → recv C (waiting_for_round2_packages r) m self ≡ done next
      → (i : Identifier) × (q : Round2Package) × (get PublicKey-discrete m.sender r.pubkeys
          ≡ some i)
        × (read_round2_package m.msg ≡ some q)
        × (next ≡ store_round2_package C r i q)
  unfolding recv handle_round2_package
  recv_round2_inv r m self next h = elim (Option-cases (read_round2_package m.msg)) [
    | inl bad ↦ absurd (ground arith)
    | inr (q, good) ↦ elim (Option-cases (get PublicKey-discrete m.sender r.pubkeys)) [
      | inl unknown ↦ absurd (ground arith)
      | inr (i, known) ↦ (i, q, known, good, ground arith)
    ]
  ]

  -- The packages of round 2 that a state holds, complete or not.
  abbrev pub round2_so_far : DkgSessionState C → Map Identifier Round2Package
  round2_so_far (waiting_for_round2_packages r) = r.round2_packages
  round2_so_far (round2_packages_ready r) = r.round2_packages
  round2_so_far _ = []

  store_round2_so_far :
      (r : Round2 C) (i : Identifier) (q : Round2Package)
      → round2_so_far (store_round2_package C r i q)
        ≡ insert identifier_discrete i q r.round2_packages
  unfolding store_round2_package
  store_round2_so_far r i q =
      elim (Bool-cases (
        same_keys identifier_discrete (insert identifier_discrete i q r.round2_packages)
          r.round1_packages)) [
            | inl full ↦ rw (full, store_round2_package) refl
            | inr more ↦ rw (more, store_round2_package) refl
          ]

  -- No package is there where a state follows that is not of round 2.
  recv_begins :
      (st : DkgSessionState C) (m : Msg) (self : Identifier) (next : DkgSessionState C)
      → recv C st m self ≡ done next
      → (round2_so_far next ≡ []) ⊎ ((r : Round2 C) × (st ≡ waiting_for_round2_packages r))
  unfolding after_round1
  recv_begins (waiting_for_round1_packages r) m self next h =
      elim (recv-Moves C (waiting_for_round1_packages r) m self next h) [
        | inl (p, e) ↦ inl (ap round2_so_far e)
        | inr (p, e) ↦ inl (ap round2_so_far e ∙ nothing_yet r.pubkeys p)
      ]
    where
      nothing_yet :
          (pubkeys : Map PublicKey Identifier) (p : Map Identifier Round1Package)
          → round2_so_far (after_round1 C pubkeys p) ≡ []
      nothing_yet pubkeys p = elim (Bool-cases (ltb 2 (length pubkeys))) [
        | inl many ↦ rw (many, after_round1) refl
        | inr two ↦ rw (two, after_round1) refl
      ]
  recv_begins (waiting_for_round1_packages_broadcast r) m self next h =
      elim (recv-Moves C (waiting_for_round1_packages_broadcast r) m self next h) [
        | inl (b, e) ↦ inl (ap round2_so_far e)
        | inr e ↦ inl (ap round2_so_far e)
      ]
  recv_begins (waiting_for_round2_packages r) m self next h = inr (r, refl)
  recv_begins (round2_packages_ready r) m self next h =
      absurd (recv-Moves C (round2_packages_ready r) m self next h)

  -- A message adds the package that it reads as, or none.
  round2_source :
      (st : DkgSessionState C) (m : Msg) (ms : List Msg) (self : Identifier)
      (next : DkgSessionState C) (id : Identifier) (p : Round2Package)
      → recv C st m self ≡ done next
      → (get identifier_discrete id (round2_so_far next) ≡ some p)
        ⊎ Contributed C read_round2_package (pubkeys_of C next) id p ms
      → (get identifier_discrete id (round2_so_far st) ≡ some p)
        ⊎ Contributed C read_round2_package (pubkeys_of C st) id p (m ∷ ms)
  unfolding get
  round2_source st m ms self next id p h (inr later) = inr (
      inr (
        subst (λ k. Contributed C read_round2_package k id p ms)
          (Moves-pubkeys_of C st next (recv-Moves C st m self next h)) later))
  round2_source st m ms self next id p h (inl there) = elim (recv_begins st m self next h) [
    | inl e ↦
        let w : none ≡ some p = ap (get identifier_discrete id) (sym e) ∙ there in absurd (cc w)
    | inr (r, e) ↦
        let (i, q, known, good, moved) =
          recv_round2_inv r m self next (subst (λ x. recv C x m self ≡ done next) e h) in
        subst
          (λ x.
            (get identifier_discrete id (round2_so_far x) ≡ some p)
            ⊎ Contributed C read_round2_package (pubkeys_of C x) id p (m ∷ ms))
          (sym e)
          (traced C read_round2_package r.pubkeys m ms i id q p r.round2_packages known good (
            inl (
              ap (get identifier_discrete id)
                (sym (ap round2_so_far moved ∙ store_round2_so_far r i q))
              ∙ there)))
  ]

  -- Each package of round 2 is of a message from its participant.
  pub round2_sources :
      (st : DkgSessionState C) (ms : List Msg) (self : Identifier) (t : DkgSessionState C)
      (id : Identifier) (p : Round2Package)
      → exchange C st ms self ≡ done t
      → get identifier_discrete id (round2_so_far t) ≡ some p
      → (get identifier_discrete id (round2_so_far st) ≡ some p)
        ⊎ Contributed C read_round2_package (pubkeys_of C st) id p ms
  unfolding exchange
  round2_sources st [] self t id p h at =
      let same : st ≡ t = ground arith in
      inl (ap (λ x. get identifier_discrete id (round2_so_far x)) same ∙ at)
  round2_sources st (m ∷ ms) self t id p h at =
      let (next, taken, rest) = exchange_inv C st m ms self t h in
      round2_source st m ms self next id p taken (round2_sources next ms self t id p rest at)
