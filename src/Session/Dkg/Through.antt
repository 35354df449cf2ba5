-- ===== src/Session/Dkg/Through.antt =====
-- What a DKG session went through that got past the broadcast.
use mina_multi_sig.Base.{
  ◌≡◌, refl, sym, subst, ap, ◌++◌, ◌∙◌, true, List, [], ◌∷◌, ◌<◌, length, ltb, some, Bool-cases,
  inl, inr, done, arith,
}
use mina_multi_sig.Map.{Map}
use mina_multi_sig.Session.Types.{PublicKey, Msg, Ciphersuite}
use mina_multi_sig.Session.Dkg.{
  DkgSessionState, Round1, waiting_for_round1_packages, waiting_for_round1_packages_broadcast,
  waiting_for_round2_packages, round2_packages_ready, after_round1, has_round1_broadcast_packages,
  round1_packages,
}
use mina_multi_sig.Session.Dkg.Run.{exchange, exchange_inv}
use mina_multi_sig.Session.Dkg.Moves.{Moves, recv-Moves, broadcast_packages_held}

module _ (C : Ciphersuite) where
  open C use {
    Identifier, Round1Package, Round2Package, identifier_discrete, read_round1_package,
    read_round2_package,
  }

  abbrev State : Type 0
  State = DkgSessionState C

  abbrev pub broadcasting : Map PublicKey Identifier → Map Identifier Round1Package → State
  broadcasting pubkeys packages =
      waiting_for_round1_packages_broadcast
        (record { pubkeys = pubkeys; round1_packages = packages; round1_broadcasted_packages = [] })

  -- A session that got past the broadcast went through it with the packages that it holds.
  pub record ThroughBroadcast (pubkeys : Map PublicKey Identifier) (ms : List Msg)
      (self : Identifier) (start t : State) : Type 0 where
    pub packages : Map Identifier Round1Package
    pub before : List Msg
    pub msgs : List Msg
    pub split : before ++ msgs ≡ ms
    pub reached : exchange C start before self ≡ done (broadcasting pubkeys packages)
    pub run : exchange C (broadcasting pubkeys packages) msgs self ≡ done t
    pub held : round1_packages C t ≡ some packages

  pub exchange-ThroughBroadcast :
      (r : Round1 C) (ms : List Msg) (self : Identifier) (t : State)
      → exchange C (waiting_for_round1_packages r) ms self ≡ done t
      → has_round1_broadcast_packages C t ≡ true
      → 2 < length r.pubkeys
      → ThroughBroadcast r.pubkeys ms self (waiting_for_round1_packages r) t
  unfolding exchange after_round1
  exchange-ThroughBroadcast r [] self t h over many = absurd (ground arith)
  exchange-ThroughBroadcast r (m ∷ ms) self t h over many =
      let (next, taken, rest) = exchange_inv C (waiting_for_round1_packages r) m ms self t h in
      elim (recv-Moves C (waiting_for_round1_packages r) m self next taken) [
        | inl (p, e) ↦
            let later =
              exchange-ThroughBroadcast (record r { round1_packages = p }) ms self t
                (subst (λ x. exchange C x ms self ≡ done t) e rest) over many in
            record {
              packages = later.packages;
              before = m ∷ later.before;
              msgs = later.msgs;
              split = ap (◌∷◌ m) later.split;
              reached =
                  rw (taken, exchange)
                    (subst
                      (λ x.
                        exchange C x later.before self
                        ≡ done (broadcasting r.pubkeys later.packages))
                      (sym e) later.reached);
              run = later.run;
              held = later.held;
            }
        | inr (p, e) ↦
            let enough : ltb 2 (length r.pubkeys) ≡ true = ground arith in
            let entered : next ≡ broadcasting r.pubkeys p = e ∙ rw (enough, after_round1) refl in
            let started : exchange C (broadcasting r.pubkeys p) ms self ≡ done t =
              subst (λ x. exchange C x ms self ≡ done t) entered rest in
            record {
              packages = p;
              before = m ∷ [];
              msgs = ms;
              split = refl;
              reached = rw (taken, exchange, entered) refl;
              run = started;
              held = broadcast_packages_held C _ ms self t started over;
            }
      ]

  abbrev pub pubkeys_of : State → Map PublicKey Identifier
  pubkeys_of (waiting_for_round1_packages r) = r.pubkeys
  pubkeys_of (waiting_for_round1_packages_broadcast r) = r.pubkeys
  pubkeys_of (waiting_for_round2_packages r) = r.pubkeys
  pubkeys_of (round2_packages_ready r) = r.pubkeys

  after_round1-pubkeys_of :
      (pubkeys : Map PublicKey Identifier) (p : Map Identifier Round1Package)
      → pubkeys_of (after_round1 C pubkeys p) ≡ pubkeys
  unfolding after_round1
  after_round1-pubkeys_of pubkeys p = elim (Bool-cases (ltb 2 (length pubkeys))) [
    | inl many ↦ rw (many, after_round1) refl
    | inr two ↦ rw (two, after_round1) refl
  ]

  pub Moves-pubkeys_of : (st next : State) → Moves C st next → pubkeys_of next ≡ pubkeys_of st
  Moves-pubkeys_of (waiting_for_round1_packages r) next (inl (p, e)) = ap pubkeys_of e
  Moves-pubkeys_of (waiting_for_round1_packages r) next (inr (p, e)) =
      ap pubkeys_of e ∙ after_round1-pubkeys_of r.pubkeys p
  Moves-pubkeys_of (waiting_for_round1_packages_broadcast r) next (inl (b, e)) = ap pubkeys_of e
  Moves-pubkeys_of (waiting_for_round1_packages_broadcast r) next (inr e) = ap pubkeys_of e
  Moves-pubkeys_of (waiting_for_round2_packages r) next (inl (p, e)) = ap pubkeys_of e
  Moves-pubkeys_of (waiting_for_round2_packages r) next (inr (p, e, same)) = ap pubkeys_of e
  Moves-pubkeys_of (round2_packages_ready r) next h = absurd h

  -- The public keys stay.
  pub exchange-pubkeys_of :
      (st : State) (ms : List Msg) (self : Identifier) (t : State)
      → exchange C st ms self ≡ done t
      → pubkeys_of t ≡ pubkeys_of st
  unfolding exchange
  exchange-pubkeys_of st [] self t h = let same : st ≡ t = ground arith in ap pubkeys_of (sym same)
  exchange-pubkeys_of st (m ∷ ms) self t h =
      let (next, taken, rest) = exchange_inv C st m ms self t h in
      exchange-pubkeys_of next ms self t rest
      ∙ Moves-pubkeys_of st next (recv-Moves C st m self next taken)
