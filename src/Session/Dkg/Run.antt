-- ===== src/Session/Dkg/Run.antt =====
-- The receiving loops of mina-frost-client/src/dkg/comms/http.rs: they hand each message to `recv`
-- and stop at the first error.
use mina_multi_sig.Base.{
  ◌<◌, ◌≡◌, refl, sym, subst, ap, ◌++◌, List, [], ◌∷◌, Outcome, done, fail, panic, arith, length,
}
use mina_multi_sig.Map.{Map}
use mina_multi_sig.Session.Types.{PublicKey, Msg, Ciphersuite, SessionError}
use mina_multi_sig.Session.Coordinator.Invariant.{Settles}
use mina_multi_sig.Session.Dkg.{DkgSessionState, recv, waiting_for_round1_packages}
use mina_multi_sig.Session.Dkg.Valid.{IsValid}
use mina_multi_sig.Session.Dkg.Invariant.{participant_recv-Settles}

module _ (C : Ciphersuite) where
  open C use {Identifier}

  -- Messages in order; the receiving loop stops at the first that fails.
  unfoldable pub exchange :
      DkgSessionState C → List Msg → Identifier → Outcome SessionError (DkgSessionState C)
  exchange st [] self = done st
  exchange st (m ∷ ms) self = elim (recv C st m self) [
    | done next ↦ exchange next ms self
    | fail next e ↦ fail next e
    | panic ↦ panic
  ]

  pub exchange_inv :
      (st : DkgSessionState C) (m : Msg) (ms : List Msg) (self : Identifier) (t : DkgSessionState C)
      → exchange st (m ∷ ms) self ≡ done t
      → (next : DkgSessionState C) × (recv C st m self ≡ done next)
        × (exchange next ms self ≡ done t)
  unfolding exchange
  exchange_inv st m ms self t h = go (recv C st m self) refl
    where
      go :
          (o : Outcome SessionError (DkgSessionState C))
          → recv C st m self ≡ o
          → (next : DkgSessionState C) × (recv C st m self ≡ done next)
            × (exchange next ms self ≡ done t)
      go (done next) e = (next, e, ground arith)
      go (fail next x) e = absurd (ground arith)
      go panic e = absurd (ground arith)

  pub exchange-append :
      (st : DkgSessionState C) (ms ns : List Msg) (self : Identifier) (t : DkgSessionState C)
      → exchange st ms self ≡ done t
      → exchange st (ms ++ ns) self ≡ exchange t ns self
  unfolding exchange
  exchange-append st [] ns self t h =
      let same : st ≡ t = ground arith in ap (λ u. exchange u ns self) same
  exchange-append st (m ∷ ms) ns self t h =
      let (next, taken, rest) = exchange_inv st m ms self t h in
      rw (taken, exchange) (exchange-append next ms ns self t rest)

  -- The loop ends in a valid state, with an error or without, and not in a panic.
  abbrev pub EndsValid : Outcome SessionError (DkgSessionState C) → Type 0
  EndsValid (done t) = IsValid C t
  EndsValid (fail t e) = IsValid C t
  EndsValid panic = ⊥

  exchange-EndsValid :
      (st : DkgSessionState C) (ms : List Msg) (self : Identifier)
      → IsValid C st
      → EndsValid (exchange st ms self)
  unfolding exchange
  exchange-EndsValid st [] self v = v
  exchange-EndsValid st (m ∷ ms) self v =
      go (recv C st m self) refl (participant_recv-Settles C st m self v)
        (λ next w. exchange-EndsValid next ms self w)
    where
      go :
          (o : Outcome SessionError (DkgSessionState C))
          → recv C st m self ≡ o
          → Settles (IsValid C) st o
          → ((next : DkgSessionState C) → IsValid C next → EndsValid (exchange next ms self))
          → EndsValid (exchange st (m ∷ ms) self)
      go (done next) e s rest = rw (e, exchange) (rest next s)
      go (fail next x) e s rest = rw (e, exchange) (subst (IsValid C) (sym s) v)
      go panic e s rest = absurd s

  -- A DKG session of at least two participants never panics, whatever messages arrive, and it stops
  -- in a valid state.
  pub exchange-start-EndsValid :
      (pubkeys : Map PublicKey Identifier) (ms : List Msg) (self : Identifier)
      → 1 < length pubkeys
      → EndsValid (
          exchange
            (waiting_for_round1_packages (record { pubkeys = pubkeys; round1_packages = [] }))
            ms
            self)
  exchange-start-EndsValid pubkeys ms self h =
      exchange-EndsValid _ ms self
        (record { packages = record { distinct = tt; known = tt }; open_places = h })
