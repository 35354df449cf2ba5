-- ===== src/Session/Dkg/Invariant.antt =====
-- `recv` keeps every state of a DKG participant valid, and never panics.
use mina_multi_sig.Base.{refl, inl, inr, Option-cases, Bool-cases}
use mina_multi_sig.Map.{get, contains_key}
use mina_multi_sig.Session.Types.{PublicKey, PublicKey-discrete, Msg, Ciphersuite}
use mina_multi_sig.Session.Dkg.{
  DkgSessionState, waiting_for_round1_packages, waiting_for_round1_packages_broadcast,
  waiting_for_round2_packages, round2_packages_ready, Round1Broadcast, handle_round1_package,
  check_broadcast, handle_round1_package_broadcast, handle_round2_package, recv,
}
use mina_multi_sig.Session.Coordinator.Invariant.{Settles}
use mina_multi_sig.Session.Dkg.Valid.{
  Round1BroadcastInv, IsValid, store_round1_package-Settles, store_round2_package-IsValid,
}
use mina_multi_sig.Session.Dkg.Echo.{store_broadcast-Settles, check_broadcast_passed}

module _ (C : Ciphersuite) where
  open C use {
    Identifier, Round1Package, Round2Package, identifier_discrete, round1_package_discrete,
  }

  handle_round1_package_broadcast-Settles :
      (r : Round1Broadcast C) (pubkey : PublicKey) (self o : Identifier) (p : Round1Package)
      → Round1BroadcastInv C r
      → Settles (IsValid C) (waiting_for_round1_packages_broadcast r) (
          handle_round1_package_broadcast C
            (waiting_for_round1_packages_broadcast r)
            pubkey
            self
            o
            p)
  unfolding handle_round1_package_broadcast
  handle_round1_package_broadcast-Settles r pubkey self o p v =
      elim (Option-cases (get PublicKey-discrete pubkey r.pubkeys)) [
        | inl unknown ↦ rw (unknown, handle_round1_package_broadcast) refl
        | inr (s, known) ↦ elim (Option-cases (check_broadcast C r self s o p)) [
          | inr (e, refused) ↦ rw (known, handle_round1_package_broadcast, refused) refl
          | inl passed ↦
              rw (known, handle_round1_package_broadcast, passed)
                (store_broadcast-Settles C r s o p v
                  (check_broadcast_passed C r self s o p passed).3)
        ]
      ]

  -- `recv` of the DKG session never panics from a valid state: a message that is refused leaves
  -- the state as it was, also where the handler has stored its echo already, and one that is
  -- accepted leaves a valid state.
  pub participant_recv-Settles :
      (st : DkgSessionState C) (m : Msg) (self : Identifier)
      → IsValid C st
      → Settles (IsValid C) st (recv C st m self)
  unfolding recv handle_round1_package handle_round2_package
  participant_recv-Settles (waiting_for_round1_packages r) m self v =
      elim (Option-cases (C.read_round1_package m.msg)) [
        | inl bad ↦ rw (bad, recv) refl
        | inr (p, good) ↦ elim (Option-cases (get PublicKey-discrete m.sender r.pubkeys)) [
          | inl unknown ↦ rw (good, recv, handle_round1_package, unknown) refl
          | inr (i, known) ↦
              rw (good, recv, handle_round1_package, known)
                (store_round1_package-Settles C r m.sender i p v known)
        ]
      ]
  participant_recv-Settles (waiting_for_round1_packages_broadcast r) m self v =
      elim (Option-cases (C.read_round1_broadcast m.msg)) [
        | inl bad ↦ rw (bad, recv) refl
        | inr ((o, p), good) ↦
            rw (good, recv) (handle_round1_package_broadcast-Settles r m.sender self o p v)
      ]
  participant_recv-Settles (waiting_for_round2_packages r) m self v =
      elim (Option-cases (C.read_round2_package m.msg)) [
        | inl bad ↦ rw (bad, recv) refl
        | inr (p, good) ↦ elim (Option-cases (get PublicKey-discrete m.sender r.pubkeys)) [
          | inl unknown ↦ rw (good, recv, handle_round2_package, unknown) refl
          | inr (i, known) ↦
              elim (Bool-cases (contains_key identifier_discrete i r.round1_packages)) [
                | inl inside ↦
                    rw (good, recv, handle_round2_package, known, inside)
                      (store_round2_package-IsValid C r i p v inside)
                | inr outside ↦ rw (good, recv, handle_round2_package, known, outside) refl
              ]
        ]
      ]
  participant_recv-Settles (round2_packages_ready r) m self v = refl
