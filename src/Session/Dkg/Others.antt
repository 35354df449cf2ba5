-- ===== src/Session/Dkg/Others.antt =====
-- Whose packages a DKG session holds: after the broadcast none is its own, and at the end those of
-- round 2 are of the senders of round 1.
use mina_multi_sig.Base.{
  refl, ◌≡◌, ◌≢◌, ◌∙◌, subst, true, false, List, [], ◌∷◌, none, some, Option-cases, Bool-cases, inl,
  inr, done, arith, &&-eq-true,
}
use mina_multi_sig.Map.{Map, get, same_keys}
use mina_multi_sig.Map.Laws.{get-insert_other}
use mina_multi_sig.Map.Count.{same_keys-contains}
use mina_multi_sig.Session.Types.{PublicKey-discrete, Msg, Ciphersuite}
use mina_multi_sig.Session.Dkg.{
  DkgSessionState, Round1Broadcast, Round2, waiting_for_round1_packages_broadcast,
  waiting_for_round2_packages, round2_packages_ready, is_complete, advance_broadcast,
  check_broadcast, handle_round1_package_broadcast, store_broadcast, recv, round2_packages,
}
use mina_multi_sig.Session.Dkg.Echo.{with_echo, check_broadcast_passed}
use mina_multi_sig.Session.Dkg.Run.{exchange, exchange_inv}
use mina_multi_sig.Session.Dkg.Agreement.{is_broadcasting}
use mina_multi_sig.Session.Dkg.Moves.{recv-Moves, ready_last}

module _ (C : Ciphersuite) where
  open C use {Identifier, Round1Package, Round2Package, identifier_discrete, read_round1_broadcast}

  -- An echo that is accepted is of the package of another participant.
  recv_broadcast_other :
      (r : Round1Broadcast C) (m : Msg) (self : Identifier) (next : DkgSessionState C)
      → recv C (waiting_for_round1_packages_broadcast r) m self ≡ done next
      → (s : Identifier) × (o : Identifier) × (p : Round1Package) × (o ≢ self)
        × (next ≡ advance_broadcast C (with_echo C r s o p))
  unfolding recv handle_round1_package_broadcast store_broadcast
  recv_broadcast_other r m self next h = elim (Option-cases (read_round1_broadcast m.msg)) [
    | inl bad ↦ absurd (ground arith)
    | inr ((o, p), good) ↦ elim (Option-cases (get PublicKey-discrete m.sender r.pubkeys)) [
      | inl unknown ↦ absurd (ground arith)
      | inr (s, known) ↦ elim (Option-cases (check_broadcast C r self s o p)) [
        | inr (e, stopped) ↦ absurd (ground (arith, stopped))
        | inl passed ↦
            (s, o, p, (check_broadcast_passed C r self s o p passed).1, ground (arith, passed))
      ]
    ]
  ]

  -- A complete broadcast has echoes of the package of each sender.
  complete_without :
      (packages : Map Identifier Round1Package) (b : Map Identifier (Map Identifier Round1Package))
      (o : Identifier)
      → is_complete C packages b ≡ true
      → get identifier_discrete o b ≡ none
      → get identifier_discrete o packages ≡ none
  unfolding is_complete
  complete_without packages b o h e =
      let keys = (&&-eq-true (same_keys identifier_discrete b packages) _ h).0 in
      ground (arith, same_keys-contains identifier_discrete b packages o keys, e)

  pub broadcast_others :
      (r : Round1Broadcast C) (ms : List Msg) (self : Identifier) (t : DkgSessionState C)
      → exchange C (waiting_for_round1_packages_broadcast r) ms self ≡ done t
      → is_broadcasting C t ≡ false
      → get identifier_discrete self r.round1_broadcasted_packages ≡ none
      → get identifier_discrete self r.round1_packages ≡ none
  unfolding exchange advance_broadcast
  broadcast_others r [] self t h over e = absurd (ground arith)
  broadcast_others r (m ∷ ms) self t h over e =
      let (next, taken, rest) =
        exchange_inv C (waiting_for_round1_packages_broadcast r) m ms self t h in
      let (s, o, p, other, moved) = recv_broadcast_other r m self next taken in
      let absent : get identifier_discrete self (with_echo C r s o p).round1_broadcasted_packages
          ≡ none =
        get-insert_other identifier_discrete o self _ r.round1_broadcasted_packages other ∙ e in
      elim (Bool-cases
        (is_complete C r.round1_packages (with_echo C r s o p).round1_broadcasted_packages)) [
          | inl complete ↦ complete_without r.round1_packages _ self complete absent
          | inr more ↦
              let waits : advance_broadcast C (with_echo C r s o p)
                  ≡ waiting_for_round1_packages_broadcast (with_echo C r s o p) =
                rw (more, advance_broadcast) refl in
              broadcast_others (with_echo C r s o p) ms self t
                (subst (λ x. exchange C x ms self ≡ done t) (moved ∙ waits) rest) over absent
        ]

  -- The packages of round 2 are of the senders of round 1.
  pub round2_senders :
      (r : Round2 C) (ms : List Msg) (self : Identifier) (t : DkgSessionState C)
      (packages : Map Identifier Round2Package)
      → exchange C (waiting_for_round2_packages r) ms self ≡ done t
      → round2_packages C t ≡ some packages
      → same_keys identifier_discrete packages r.round1_packages ≡ true
  unfolding exchange
  round2_senders r [] self t packages h held = absurd (ground arith)
  round2_senders r (m ∷ ms) self t packages h held =
      let (next, taken, rest) = exchange_inv C (waiting_for_round2_packages r) m ms self t h in
      elim (recv-Moves C (waiting_for_round2_packages r) m self next taken) [
        | inl (p, e) ↦
            round2_senders (record r { round2_packages = p }) ms self t packages
              (subst (λ x. exchange C x ms self ≡ done t) e rest) held
        | inr (p, e, same) ↦
            let last : round2_packages_ready _ ≡ t =
              ready_last C _ ms self t (subst (λ x. exchange C x ms self ≡ done t) e rest) in
            let own : p ≡ packages = ground (arith, last, held) in
            subst (λ x. same_keys identifier_discrete x r.round1_packages ≡ true) own same
      ]
