-- ===== src/Session/Dkg/Keygen/Total.antt =====
-- No run of `keygen` panics.
use mina_multi_sig.Base.{
  ltb, err, lift, Result, ◌<◌, ◌≡◌, ◌≢◌, sym, subst, List, [], ◌++◌, Option, none, some, true,
  Option-cases, Bool-cases, Result-cases, Attempt-cases, ok, Attempt, panicked, bind, inl, inr,
  length,
}
use mina_multi_sig.Text.{Bytes}
use mina_multi_sig.Map.{Map}
use mina_multi_sig.Noise.{Snow}
use mina_multi_sig.Noise.Laws.{SnowLaws}
use mina_multi_sig.Session.Types.{PublicKey, Ciphersuite}
use mina_multi_sig.Session.Dkg.{initial, has_round2_packages}
use mina_multi_sig.Session.Dkg.Comms.{
  comm_privkey_missing, comm_pubkey_missing, identifier_not_derived, CommsError, Link,
}
use mina_multi_sig.Session.Dkg.Comms.Ends.{IsReady}
use mina_multi_sig.Session.Dkg.Comms.Identifiers.{get_identifier-Entered}
use mina_multi_sig.Session.Dkg.Comms.Join.{
  identifiers, choose_session, or_error, Server, with_pubkeys, get_identifier_and_max_signers,
  enter, DkgConfig, Joined,
}
use mina_multi_sig.Session.Dkg.Comms.Rounds.{
  Writers, Method, returns, waits, fails, panics, get_round1_packages, get_round2_packages,
  get_pubkey_identifier_map,
}
use mina_multi_sig.Session.Dkg.Comms.Agreed.{fresh}
use mina_multi_sig.Session.Dkg.Keygen.{
  keygen, doit, Keys, FrostDkg, Inbox, chain, frost, finish, exchange_packages,
}
use mina_multi_sig.Session.Dkg.Comms.Calm.{Calm, get_round1-Calm, get_round2-Calm}

module _ {C : Ciphersuite} {S : Snow} {A B : Type 0} (P : Link C S → Type 0) where
  frost-Calm :
      (o : Option A) (next : A → Method C S B) → ((a : A) → Calm P (next a)) → Calm P (frost o next)
  frost-Calm none next h = tt
  frost-Calm (some a) next h = h a

  chain-Calm :
      (Q : Link C S → Type 0) (m : Method C S A)
      (next : Link C S → List (PublicKey × Bytes) → A → Method C S B)
      → Calm Q m
      → ((l : Link C S) (sent : List (PublicKey × Bytes)) (a : A) → Q l → Calm P (next l sent a))
      → Calm P (chain m next)
  chain-Calm Q (returns l sent a) next c h = h l sent a c
  chain-Calm Q (waits l) next c h = tt
  chain-Calm Q (fails e) next c h = tt
  chain-Calm Q panics next c h = absurd c

module _ (C : Ciphersuite) (S : Snow) (W : Writers C) (F : FrostDkg C) (L : SnowLaws S) where
  finish-Calm :
      (secret : F.Secret2) (round1 : Map C.Identifier C.Round1Package)
      (round2 : Map C.Identifier C.Round2Package) (l : Link C S) (sent : List (PublicKey × Bytes))
      → Calm (λ _. Unit) (finish C S W F secret round1 round2 l sent)
  unfolding finish
  finish-Calm secret round1 round2 l sent = frost-Calm _ (F.part3 secret round1 round2) _ λ keys.
      elim (Result-cases (get_pubkey_identifier_map C S W l.state)) [
        | inl (m, e) ↦ rw e tt
        | inr (x, e) ↦ rw e tt
      ]

  exchange_packages-Calm :
      (config : DkgConfig) (j : Joined C) (inbox : Inbox)
      → j.state ≡ fresh C S W j.pubkeys
      → 1 < length j.pubkeys
      → Calm (λ _. Unit) (exchange_packages C S W F config j inbox)
  unfolding exchange_packages
  exchange_packages-Calm config j inbox st many =
      frost-Calm _ (F.part1 j.identifier j.max_signers config.min_signers) _ λ part1.
        chain-Calm _ (IsReady C S) _ _
          (subst
            (λ x. Calm (IsReady C S) (
              get_round1_packages C S W config j.identifier j.pubkeys x part1.1 inbox.round1
                inbox.broadcasts))
            (sym st)
            (get_round1-Calm C S W L config j.identifier j.pubkeys part1.1 inbox.round1
              inbox.broadcasts many))
          λ l sent round1 ready. frost-Calm _ (F.part2 part1.0 round1) _ λ part2.
            chain-Calm (λ _. Unit {0}) (λ t. has_round2_packages C t.state ≡ true)
              (get_round2_packages C S W config j.identifier j.pubkeys l part2.1 inbox.round2)
              (λ next more round2. finish C S W F part2.0 round1 round2 next (sent ++ more))
              (get_round2-Calm C S W L config j.identifier j.pubkeys l part2.1 inbox.round2 ready)
              λ next more round2 over. finish-Calm part2.0 round1 round2 next (sent ++ more)

  -- Reading the server's answers does not panic: the state machine has not started.
  enter-ne-panicked :
      (key : PublicKey) (id : Bytes) (pubkeys : Map PublicKey C.Identifier)
      → enter C F.derive S key id pubkeys (initial C) ≢ panicked
  unfolding enter with_pubkeys initial
  enter-ne-panicked key id pubkeys = elim (Bool-cases (ltb (length pubkeys) 2)) [
    | inl few ↦ rw few cc
    | inr many ↦ elim (Option-cases (F.derive (id ++ key))) [
      | inl bad ↦ rw (many, bad) cc
      | inr (i, good) ↦ rw (many, good) cc
    ]
  ]

  bind-lift-ne-panicked :
      {A B : Type 0} (r : Result (CommsError S) A) (f : A → Attempt (CommsError S) B)
      → ((a : A) → f a ≢ panicked)
      → bind (lift r) f ≢ panicked
  bind-lift-ne-panicked (ok a) f h = h a
  bind-lift-ne-panicked (err e) f h = cc

  get_identifier-ne-panicked :
      (config : DkgConfig) (server : Server)
      → get_identifier_and_max_signers C F.derive S config none server (initial C) ≢ panicked
  unfolding get_identifier_and_max_signers
  get_identifier-ne-panicked config server =
      bind-lift-ne-panicked (or_error config.comm_privkey comm_privkey_missing) _ λ _.
        bind-lift-ne-panicked (or_error config.comm_pubkey comm_pubkey_missing) _ λ key.
          bind-lift-ne-panicked (choose_session S config none server) _ λ id.
            bind-lift-ne-panicked
              (or_error (identifiers C F.derive id (server.session_pubkeys id) [])
                identifier_not_derived)
              _ λ pubkeys. enter-ne-panicked key id pubkeys

  doit-Calm :
      (config : DkgConfig) (server : Server) (inbox : Inbox)
      → Calm (λ _. Unit) (doit C S W F config server inbox)
  unfolding doit with_pubkeys initial
  doit-Calm config server inbox =
      elim (Attempt-cases
        (get_identifier_and_max_signers C F.derive S config none server (initial C))) [
          | inl e ↦ absurd (get_identifier-ne-panicked config server e)
          | inr (inl (x, e)) ↦ rw (e, doit) tt
          | inr (inr (j, e)) ↦
              let entered =
                get_identifier-Entered C F.derive S config none server (initial C) j e in
              rw (e, doit)
                (exchange_packages-Calm config j inbox
                  (let w : some (fresh C S W j.pubkeys) ≡ some j.state = entered.state in cc w)
                  entered.others)
        ]

  Calm-ne-panics : (m : Method C S (Keys C F)) → Calm (λ _. Unit) m → m ≢ panics
  Calm-ne-panics (returns l sent a) h = cc
  Calm-ne-panics (waits l) h = cc
  Calm-ne-panics (fails e) h = cc
  Calm-ne-panics panics h = absurd h

  -- Under the laws of the Noise library, `keygen` does not panic, whatever its configuration is,
  -- whatever the server answers and hands out, and whatever frost-core's parts return.
  pub keygen-ne-panics :
      (config : DkgConfig) (server : Server) (inbox : Inbox)
      → (keygen C S W F config server inbox).0 ≢ panics
  unfolding keygen
  keygen-ne-panics config server inbox =
      Calm-ne-panics (doit C S W F config server inbox) (doit-Calm config server inbox)
