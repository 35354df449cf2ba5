-- ===== src/Session/Dkg/Comms/Agreed.antt =====
-- The packages of round 1 on which the participants agree.
use mina_multi_sig.Base.{
  none, suc, ◌<◌, ◌≡◌, ◌≢◌, refl, sym, subst, ap, ◌∙◌, List, [], ◌∷◌, ◌++◌, ◌⊎◌, inl, some, true,
  false, inr, done, length, arith,
}
use mina_multi_sig.Map.{Map, get}
use mina_multi_sig.Noise.{Snow}
use mina_multi_sig.Cipher.{Cipher}
use mina_multi_sig.Session.Types.{PublicKey, Msg, Ciphersuite}
use mina_multi_sig.Session.Dkg.{
  DkgSessionState, waiting_for_round1_packages, waiting_for_round1_packages_broadcast,
  waiting_for_round2_packages, round2_packages_ready, has_round1_broadcast_packages,
  round1_packages,
}
use mina_multi_sig.Session.Dkg.Run.{exchange, exchange-append, exchange-start-EndsValid, EndsValid}
use mina_multi_sig.Session.Dkg.Valid.{IsValid, PackagesInv}
use mina_multi_sig.Session.Dkg.Others.{broadcast_others}
use mina_multi_sig.Session.Dkg.Sources.{Contributed}
use mina_multi_sig.Session.Dkg.Sources.OfRound1.{first_package_sources}
use mina_multi_sig.Session.Dkg.Through.{broadcasting, exchange-ThroughBroadcast}
use mina_multi_sig.Session.Dkg.Agreement.{Echoed, echo_agreement, is_broadcasting}
use mina_multi_sig.Session.Dkg.Comms.Openings.{all_msgs, openings}
use mina_multi_sig.Session.Dkg.Comms.Rounds.{Writers}

module _ (C : Ciphersuite) (S : Snow) (W : Writers C) where
  open C use {Identifier, Round1Package, identifier_discrete, read_round1_package}

  -- An echo among the last messages is one among all.
  Echoed-append :
      (pubkeys : Map PublicKey Identifier) (s o : Identifier) (p : Round1Package)
      (before ms : List Msg)
      → Echoed C pubkeys s o p ms
      → Echoed C pubkeys s o p (before ++ ms)
  Echoed-append pubkeys s o p [] ms h = h
  Echoed-append pubkeys s o p (m ∷ before) ms h = inr (Echoed-append pubkeys s o p before ms h)

  -- What was read of the batches, decrypted.
  pub record Heard (batches : List (List Msg)) (msgs : List Msg) : Type 0 where
    pub cipher : Cipher S
    pub used : List (List Msg)
    pub unused : List (List Msg)
    pub split : batches ≡ used ++ unused
    pub decrypted : msgs ≡ openings S cipher (all_msgs used)

  abbrev pub fresh : Map PublicKey Identifier → DkgSessionState C
  fresh pubkeys = waiting_for_round1_packages (record { pubkeys = pubkeys; round1_packages = [] })

  -- The packages are from as many different participants of the session as there are others than this
  -- one, and from none that is this one: each is what a message of its sender reads as. Each was
  -- echoed by all these: their echoes are among the messages that the server handed out, and these
  -- messages led to the packages.
  pub record Agreed (pubkeys : Map PublicKey Identifier) (self : Identifier)
      (batches broadcasts : List (List Msg)) (final : DkgSessionState C)
      (packages : Map Identifier Round1Package) : Type 0 where
    pub complete : suc (length packages) ≡ length pubkeys
    pub senders : PackagesInv C pubkeys packages
    pub others : get identifier_discrete self packages ≡ none
    pub over : has_round1_broadcast_packages C final ≡ true
    pub held : round1_packages C final ≡ some packages
    pub first : List Msg
    pub second : List Msg
    pub from_first : Heard batches first
    pub from_second : Heard broadcasts second
    pub reached : exchange C (fresh pubkeys) (first ++ second) self ≡ done final
    pub sources :
        (id : Identifier) (p : Round1Package)
        → get identifier_discrete id packages ≡ some p
        → Contributed C read_round1_package pubkeys id p (first ++ second)
    pub echoed :
        (o s : Identifier) (p q : Round1Package)
        → o ≢ s
        → get identifier_discrete o packages ≡ some p
        → get identifier_discrete s packages ≡ some q
        → Echoed C pubkeys s o p (first ++ second)

  -- How the messages that were heard lead to the packages.
  pub record Led (self : Identifier) (st : DkgSessionState C) (broadcasts : List (List Msg))
      (final : DkgSessionState C) (packages : Map Identifier Round1Package) : Type 0 where
    pub msgs : List Msg
    pub heard : Heard broadcasts msgs
    pub run : exchange C st msgs self ≡ done final
    pub over : has_round1_broadcast_packages C final ≡ true
    pub held : round1_packages C final ≡ some packages

  left_broadcast :
      (t : DkgSessionState C)
      → has_round1_broadcast_packages C t ≡ true
      → is_broadcasting C t ≡ false
  left_broadcast (waiting_for_round1_packages r) h = refl
  left_broadcast (waiting_for_round1_packages_broadcast r) h = absurd (ground arith)
  left_broadcast (waiting_for_round2_packages r) h = refl
  left_broadcast (round2_packages_ready r) h = refl

  pub Led-Agreed :
      (pubkeys : Map PublicKey Identifier) (self : Identifier) (st final : DkgSessionState C)
      (batches broadcasts : List (List Msg)) (first : List Msg)
      (packages : Map Identifier Round1Package)
      → 2 < length pubkeys
      → Heard batches first
      → exchange C (fresh pubkeys) first self ≡ done st
      → Led self st broadcasts final packages
      → Agreed pubkeys self batches broadcasts final packages
  Led-Agreed pubkeys self st final batches broadcasts first packages many heard run led =
      let whole : exchange C (fresh pubkeys) (first ++ led.msgs) self ≡ done final =
        exchange-append C (fresh pubkeys) first led.msgs self st run ∙ led.run in
      let t =
        exchange-ThroughBroadcast C (record { pubkeys = pubkeys; round1_packages = [] })
          (first ++ led.msgs) self final whole led.over many in
      let same : t.packages ≡ packages = cc (t.held, led.held) in
      let valid : IsValid C (broadcasting C pubkeys t.packages) =
        subst (EndsValid C) t.reached
          (exchange-start-EndsValid C pubkeys t.before self (omega (arith, many))) in
      record {
        complete =
            ap (λ (m : Map Identifier Round1Package). suc (length m)) (sym same)
            ∙ valid.all_packages;
        senders = subst (PackagesInv C pubkeys) same valid.packages;
        others =
            ap (get identifier_discrete self) (sym same)
            ∙ broadcast_others C _ t.msgs self final t.run (left_broadcast final led.over) none_yet;
        over = led.over;
        held = led.held;
        first = first;
        second = led.msgs;
        from_first = heard;
        from_second = led.heard;
        reached = whole;
        sources = λ id p at. all_new id p (
            first_package_sources C (record { pubkeys = pubkeys; round1_packages = [] })
              (first ++ led.msgs) self final packages id p whole led.over led.held at);
        echoed = λ o s p q ne fo fs. subst (Echoed C pubkeys s o p) t.split (
            Echoed-append pubkeys s o p t.before t.msgs (
              echo_agreement C pubkeys t.packages t.msgs self final s o p q t.run
                (left_broadcast final led.over) ne (ap (get identifier_discrete o) same ∙ fo)
                (ap (get identifier_discrete s) same ∙ fs)));
      }
    where
      all_new :
          (id : Identifier) (p : Round1Package)
          → (get identifier_discrete id [] ≡ some p)
            ⊎ Contributed C read_round1_package pubkeys id p (first ++ led.msgs)
          → Contributed C read_round1_package pubkeys id p (first ++ led.msgs)
      all_new id p (inr new) = new
      all_new id p (inl old) = absurd (unfold get in cc old)

      none_yet : get identifier_discrete {V = Map Identifier Round1Package} self [] ≡ none
      none_yet = unfold get in refl
