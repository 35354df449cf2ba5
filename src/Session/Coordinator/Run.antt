-- ===== src/Session/Coordinator/Run.antt =====
-- A coordinator that goes on after refused messages, as its receiving loop does, over any messages.
use mina_multi_sig.Base.{
  ℕ, ◌≡◌, refl, sym, subst, ◌<◌, List, [], ◌∷◌, Option, none, some, Outcome, done, fail, panic,
}
use mina_multi_sig.Map.{Map}
use mina_multi_sig.Session.Types.{PublicKey, Msg, Ciphersuite, SessionError}
use mina_multi_sig.Session.Coordinator.{CoordinatorSessionState, new, recv}
use mina_multi_sig.Session.Coordinator.Invariant.{
  IsValid, Settles, coordinator_recv-Settles, new-IsValid,
}

-- The state after the call; `none` is a panic.
abbrev pub after : {E S : Type 0} → Outcome E S → Option S
after (done s) = some s
after (fail s e) = some s
after panic = none

module _ (C : Ciphersuite) where
  unfoldable pub serve : CoordinatorSessionState C → List Msg → Option (CoordinatorSessionState C)
  serve st [] = some st
  serve st (m ∷ ms) = elim (after (recv C st m)) [ none ↦ none | some next ↦ serve next ms ]

  Settles-after :
      (st : CoordinatorSessionState C) (o : Outcome SessionError (CoordinatorSessionState C))
      → IsValid C st
      → Settles (IsValid C) st o
      → (t : CoordinatorSessionState C) × (after o ≡ some t) × IsValid C t
  Settles-after st (done t) v s = (t, refl, s)
  Settles-after st (fail t e) v s = (t, refl, subst (IsValid C) (sym s) v)
  Settles-after st panic v s = absurd s

  serve-IsValid :
      (st : CoordinatorSessionState C) (ms : List Msg)
      → IsValid C st
      → (t : CoordinatorSessionState C) × (serve st ms ≡ some t) × IsValid C t
  unfolding serve
  serve-IsValid st [] v = (st, refl, v)
  serve-IsValid st (m ∷ ms) v =
      let (next, e, w) = Settles-after st (recv C st m) v (coordinator_recv-Settles C st m v) in
      rw (e, serve) (serve-IsValid next ms w)

  -- Whatever messages arrive, a coordinator session of at least one signer never panics, and it
  -- ends in a valid state.
  pub serve-new-IsValid :
      (num_messages num_signers : ℕ) (pubkeys : Map PublicKey C.Identifier) (ms : List Msg)
      → 0 < num_signers
      → (t : CoordinatorSessionState C) × (serve (new C num_messages num_signers pubkeys) ms
          ≡ some t)
        × IsValid C t
  serve-new-IsValid num_messages num_signers pubkeys ms h =
      serve-IsValid (new C num_messages num_signers pubkeys) ms
        (new-IsValid C num_messages num_signers pubkeys h)
