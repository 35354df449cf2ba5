-- ===== src/Session/Dkg/Agreement.antt =====
-- The echo broadcast: round 2 begins only when every other participant has echoed, to this one, the
-- very package that each original sender sent.
use mina_multi_sig.Base.{
  ◌≡◌, ◌≢◌, ◌∙◌, subst, Bool, true, false, List, [], ◌∷◌, some, done, inl, inr, ◌⊎◌, arith,
  Option-cases, Bool-cases,
}
use mina_multi_sig.Map.{Map, get, insert}
use mina_multi_sig.Map.Laws.{get-insert}
use mina_multi_sig.Session.Types.{PublicKey, PublicKey-discrete, Msg, Ciphersuite}
use mina_multi_sig.Session.Dkg.{
  DkgSessionState, waiting_for_round1_packages_broadcast, Round1Broadcast, is_complete, echoes_of,
  advance_broadcast, store_broadcast, handle_round1_package_broadcast, recv,
}
use mina_multi_sig.Session.Dkg.Complete.{is_complete-get}
use mina_multi_sig.Session.Dkg.Run.{exchange, exchange_inv}
use mina_multi_sig.Session.Dkg.Echo.{with_echo}

module _ (C : Ciphersuite) where
  open C use {
    Identifier, Round1Package, identifier_discrete, round1_package_discrete, read_round1_broadcast,
  }

  -- A message of `sender` that echoes the package `p` of `original`.
  abbrev pub Echoes :
      Map PublicKey Identifier → Identifier → Identifier → Round1Package → Msg → Type 0
  Echoes pubkeys sender original p m =
      (get PublicKey-discrete m.sender pubkeys ≡ some sender)
      × (read_round1_broadcast m.msg ≡ some (original, p))

  -- One of the messages is such an echo.
  abbrev pub Echoed :
      Map PublicKey Identifier → Identifier → Identifier → Round1Package → List Msg → Type 0
  Echoed pubkeys sender original p [] = ⊥
  Echoed pubkeys sender original p (m ∷ ms) =
      Echoes pubkeys sender original p m ⊎ Echoed pubkeys sender original p ms

  -- An echo that is there after one more was stored was there before, or is that one.
  with_echo_origin :
      (r : Round1Broadcast C) (s o s' o' : Identifier) (p p' : Round1Package)
      → get identifier_discrete s
          (echoes_of C (with_echo C r s' o' p').round1_broadcasted_packages o)
        ≡ some p
      → (get identifier_discrete s (echoes_of C r.round1_broadcasted_packages o) ≡ some p)
        ⊎ ((s' ≡ s) × (o' ≡ o) × (p' ≡ p))
  with_echo_origin r s o s' o' p p' h =
      let echoes = echoes_of C r.round1_broadcasted_packages o' in
      ground (
        arith,
        get-insert identifier_discrete o' o (insert identifier_discrete s' p' echoes)
            r.round1_broadcasted_packages,
        get-insert identifier_discrete s' s p' echoes,
      )

  pub recv_broadcast_inv :
      (r : Round1Broadcast C) (m : Msg) (self : Identifier) (next : DkgSessionState C)
      → recv C (waiting_for_round1_packages_broadcast r) m self ≡ done next
      → (s : Identifier) × (o : Identifier) × (p : Round1Package) × Echoes r.pubkeys s o p m
        × (next ≡ advance_broadcast C (with_echo C r s o p))
  unfolding recv handle_round1_package_broadcast store_broadcast
  recv_broadcast_inv r m self next h = elim (Option-cases (read_round1_broadcast m.msg)) [
    | inl bad ↦ absurd (ground arith)
    | inr ((o, p), good) ↦ elim (Option-cases (get PublicKey-discrete m.sender r.pubkeys)) [
      | inl unknown ↦ absurd (ground arith)
      | inr (s, known) ↦ (s, o, p, (known, good), ground arith)
    ]
  ]

  echo_source :
      (r : Round1Broadcast C) (m : Msg) (ms : List Msg) (s o s' o' : Identifier)
      (p p' : Round1Package)
      → Echoes r.pubkeys s' o' p' m
      → get identifier_discrete s
          (echoes_of C (with_echo C r s' o' p').round1_broadcasted_packages o)
        ≡ some p
      → (get identifier_discrete s (echoes_of C r.round1_broadcasted_packages o) ≡ some p)
        ⊎ Echoed r.pubkeys s o p (m ∷ ms)
  echo_source r m ms s o s' o' p p' now there = elim (with_echo_origin r s o s' o' p p' there) [
    | inl old ↦ inl old
    | inr same ↦ inr (inl (ground arith, ground arith))
  ]

  abbrev pub is_broadcasting : DkgSessionState C → Bool
  is_broadcasting (waiting_for_round1_packages_broadcast r) = true
  is_broadcasting _ = false

  -- A stored echo completes the broadcast, or the state waits on.
  advance_echoed :
      (r : Round1Broadcast C) (s o : Identifier) (p q : Round1Package)
      → o ≢ s
      → get identifier_discrete o r.round1_packages ≡ some p
      → get identifier_discrete s r.round1_packages ≡ some q
      → (get identifier_discrete s (echoes_of C r.round1_broadcasted_packages o) ≡ some p)
        ⊎ (advance_broadcast C r ≡ waiting_for_round1_packages_broadcast r)
  unfolding advance_broadcast
  advance_echoed r s o p q ne fo fs =
      elim (Bool-cases (is_complete C r.round1_packages r.round1_broadcasted_packages)) [
        | inl complete ↦ inl (
            is_complete-get C r.round1_packages r.round1_broadcasted_packages o s p q complete ne fo
              fs)
        | inr more ↦ inr (rw (more, advance_broadcast))
      ]

  exchange-Echoed :
      (r : Round1Broadcast C) (ms : List Msg) (self : Identifier) (t : DkgSessionState C)
      (s o : Identifier) (p q : Round1Package)
      → exchange C (waiting_for_round1_packages_broadcast r) ms self ≡ done t
      → is_broadcasting t ≡ false
      → o ≢ s
      → get identifier_discrete o r.round1_packages ≡ some p
      → get identifier_discrete s r.round1_packages ≡ some q
      → (get identifier_discrete s (echoes_of C r.round1_broadcasted_packages o) ≡ some p)
        ⊎ Echoed r.pubkeys s o p ms
  unfolding exchange
  exchange-Echoed r [] self t s o p q h left ne fo fs = absurd (ground arith)
  exchange-Echoed r (m ∷ ms) self t s o p q h left ne fo fs =
      let (next, e, f) = exchange_inv C (waiting_for_round1_packages_broadcast r) m ms self t h in
      let (s', o', p', now, g) = recv_broadcast_inv r m self next e in
      elim (advance_echoed (with_echo C r s' o' p') s o p q ne fo fs) [
        | inl there ↦ echo_source r m ms s o s' o' p p' now there
        | inr wait ↦
            elim (exchange-Echoed (with_echo C r s' o' p') ms self t s o p q
              (subst (λ x. exchange C x ms self ≡ done t) (g ∙ wait) f) left ne fo fs) [
                | inl there ↦ echo_source r m ms s o s' o' p p' now there
                | inr later ↦ inr (inr later)
              ]
      ]

  -- If a participant that has all round 1 packages of at least two others gets past the echo
  -- broadcast on some messages, then for any two different senders of round 1 packages one of these
  -- messages came from the second and echoes the very package that came from the first.
  pub echo_agreement :
      (pubkeys : Map PublicKey Identifier) (packages : Map Identifier Round1Package) (ms : List Msg)
      (self : Identifier) (t : DkgSessionState C) (s o : Identifier) (p q : Round1Package)
      → exchange C
          (waiting_for_round1_packages_broadcast (record {
            pubkeys = pubkeys;
            round1_packages = packages;
            round1_broadcasted_packages = [];
          }))
          ms
          self
        ≡ done t
      → is_broadcasting t ≡ false
      → o ≢ s
      → get identifier_discrete o packages ≡ some p
      → get identifier_discrete s packages ≡ some q
      → Echoed pubkeys s o p ms
  unfolding get
  echo_agreement pubkeys packages ms self t s o p q h left ne fo fs =
      elim (exchange-Echoed _ ms self t s o p q h left ne fo fs) [
        | inl old ↦ absurd (ground arith)
        | inr heard ↦ heard
      ]
