-- ===== src/Session/Dkg/Comms/Round2.antt =====
-- The packages of round 2 that `get_round2_packages` returns.
use mina_multi_sig.Base.{
  refl, is_some, true, suc, ◌<◌, ◌≡◌, refl, sym, subst, ap, ◌∙◌, ◌++◌, ◌⊎◌, inl, inr, List, [],
  some, ok, done, length,
}
use mina_multi_sig.Text.{Bytes}
use mina_multi_sig.Map.Count.{same_keys-contains}
use mina_multi_sig.Map.{get, same_keys, Distinct, Map}
use mina_multi_sig.Noise.{Snow}
use mina_multi_sig.Session.Types.{PublicKey, Msg, Ciphersuite}
use mina_multi_sig.Session.Dkg.{
  has_round1_broadcast_packages, round1_packages, DkgSessionState, waiting_for_round1_packages,
  waiting_for_round1_packages_broadcast, waiting_for_round2_packages, round2_packages_ready,
  has_round2_packages, round2_packages,
}
use mina_multi_sig.Session.Dkg.Run.{exchange, exchange-append, exchange-start-EndsValid, EndsValid}
use mina_multi_sig.Session.Dkg.Valid.{IsValid}
use mina_multi_sig.Session.Dkg.Through.{pubkeys_of, exchange-pubkeys_of}
use mina_multi_sig.Session.Dkg.Comms.{Link, receive_round2}
use mina_multi_sig.Session.Dkg.Comms.Openings.{receive_until-Read}
use mina_multi_sig.Session.Dkg.Comms.Join.{DkgConfig}
use mina_multi_sig.Session.Dkg.Comms.Rounds.{
  Writers, returns, send_round2, get_round2_packages, get_pubkey_identifier_map,
}
use mina_multi_sig.Session.Dkg.Comms.Inversion.{sending_inv, receiving_inv, got_inv}
use mina_multi_sig.Session.Dkg.Comms.Agreed.{Heard, fresh}
use mina_multi_sig.Session.Dkg.Sources.{Contributed}
use mina_multi_sig.Session.Dkg.Sources.OfRound2.{round2_sources, round2_so_far}
use mina_multi_sig.Session.Dkg.Others.{round2_senders}

module _ (C : Ciphersuite) (S : Snow) (W : Writers C) where
  open C use {Identifier, Round1Package, Round2Package, identifier_discrete, read_round2_package}

  -- The packages of round 2 are from the senders of round 1, one from each: what a message of that
  -- sender reads as, among those that the server handed out until then.
  pub record Received (pubkeys : Map PublicKey Identifier) (self : Identifier)
      (batches : List (List Msg)) (earlier : List Msg) (mid : DkgSessionState C)
      (round1 : Map Identifier Round1Package) (round2 : Map Identifier Round2Package) : Type 0 where
    pub complete : suc (length round2) ≡ length pubkeys
    pub distinct : Distinct identifier_discrete round2
    pub same_senders :
        (id : Identifier)
        → is_some (get identifier_discrete id round2) ≡ is_some (get identifier_discrete id round1)
    pub msgs : List Msg
    pub heard : Heard C S W batches msgs
    pub ready : DkgSessionState C
    pub run : exchange C mid msgs self ≡ done ready
    pub held : round2_packages C ready ≡ some round2
    pub sources :
        (id : Identifier) (p : Round2Package)
        → get identifier_discrete id round2 ≡ some p
        → Contributed C read_round2_package pubkeys id p (earlier ++ msgs)

  -- In the last state there is a package for each other participant, and the keys are those of the
  -- session.
  ready_complete :
      (t : DkgSessionState C) (pubkeys : Map PublicKey Identifier)
      (packages : Map Identifier Round2Package)
      → IsValid C t
      → pubkeys_of C t ≡ pubkeys
      → round2_packages C t ≡ some packages
      → (suc (length packages) ≡ length pubkeys)
        × Distinct identifier_discrete packages
        × (get_pubkey_identifier_map C S W t ≡ ok pubkeys)
  unfolding get_pubkey_identifier_map
  ready_complete (waiting_for_round1_packages r) pubkeys packages v e h = absurd (cc)
  ready_complete (waiting_for_round1_packages_broadcast r) pubkeys packages v e h = absurd (cc)
  ready_complete (waiting_for_round2_packages r) pubkeys packages v e h = absurd (cc)
  ready_complete (round2_packages_ready r) pubkeys packages v e h =
      let same : r.round2_packages ≡ packages = cc h in
      (
        ap (λ (m : Map Identifier Round2Package). suc (length m)) (sym same)
            ∙ v.all_packages
            ∙ ap (λ (m : Map PublicKey Identifier). length m) e,
        subst (λ m. Distinct identifier_discrete m) same v.distinct,
        ap ok e,
      )

  -- The last packages are of the senders of the first, past the broadcast.
  senders_agree :
      (st : DkgSessionState C) (ms : List Msg) (self : Identifier) (t : DkgSessionState C)
      (round1 : Map Identifier Round1Package) (round2 : Map Identifier Round2Package)
      → has_round1_broadcast_packages C st ≡ true
      → round1_packages C st ≡ some round1
      → exchange C st ms self ≡ done t
      → round2_packages C t ≡ some round2
      → same_keys identifier_discrete round2 round1 ≡ true
  senders_agree (waiting_for_round1_packages r) ms self t round1 round2 over held run h =
      absurd (cc)
  senders_agree (waiting_for_round1_packages_broadcast r) ms self t round1 round2 over held run h =
      absurd (cc)
  senders_agree (round2_packages_ready r) ms self t round1 round2 over held run h = absurd (cc)
  senders_agree (waiting_for_round2_packages r) ms self t round1 round2 over held run h =
      let same : r.round1_packages ≡ round1 = cc held in
      subst (λ m. same_keys identifier_discrete round2 m ≡ true) same
        (round2_senders C r ms self t round2 run h)

  ready_so_far :
      (t : DkgSessionState C) (packages : Map Identifier Round2Package)
      → round2_packages C t ≡ some packages
      → round2_so_far C t ≡ packages
  ready_so_far (round2_packages_ready r) packages h = cc h
  ready_so_far (waiting_for_round1_packages r) packages h = absurd (cc)
  ready_so_far (waiting_for_round1_packages_broadcast r) packages h = absurd (cc)
  ready_so_far (waiting_for_round2_packages r) packages h = absurd (cc)

  all_new :
      (id : Identifier) (p : Round2Package) (pubkeys : Map PublicKey Identifier) (ms : List Msg)
      → (get identifier_discrete id [] ≡ some p) ⊎ Contributed C read_round2_package pubkeys id p ms
      → Contributed C read_round2_package pubkeys id p ms
  unfolding get
  all_new id p pubkeys ms (inr new) = new
  all_new id p pubkeys ms (inl old) = absurd (cc old)

  pub get_round2-Received :
      (config : DkgConfig) (self : Identifier) (pubkeys : Map PublicKey Identifier) (t l : Link C S)
      (ms : List Msg) (outgoing : Map Identifier Round2Package) (batches : List (List Msg))
      (sent : List (PublicKey × Bytes)) (round1 : Map Identifier Round1Package)
      (packages : Map Identifier Round2Package)
      → get_round2_packages C S W config self pubkeys t outgoing batches ≡ returns l sent packages
      → 1 < length pubkeys
      → exchange C (fresh C S W pubkeys) ms self ≡ done t.state
      → has_round1_broadcast_packages C t.state ≡ true
      → round1_packages C t.state ≡ some round1
      → Received pubkeys self batches ms t.state round1 packages
        × (get_pubkey_identifier_map C S W l.state ≡ ok pubkeys)
  unfolding get_round2_packages receive_round2
  get_round2-Received config self pubkeys t l ms outgoing batches sent round1 packages h many run
        over first =
      let (msgs, h1) =
        sending_inv (send_round2 C S W t.cipher config.comm_pubkey outgoing pubkeys) _ l sent
          packages h in
      let (next, took, h2) = receiving_inv _ _ l sent packages h1 in
      let r = receive_until-Read C S (has_round2_packages C) _ self batches next took in
      let (held, same) = got_inv (round2_packages C next.state) next l _ sent packages h2 in
      let whole = exchange-append C (fresh C S W pubkeys) ms _ self t.state run ∙ r.run in
      let valid : IsValid C next.state =
        subst (EndsValid C) whole (exchange-start-EndsValid C pubkeys _ self many) in
      let (complete, distinct, mapped) =
        ready_complete next.state pubkeys packages valid
          (exchange-pubkeys_of C (fresh C S W pubkeys) _ self next.state whole) held in
      (
        record {
          complete = complete;
          distinct = distinct;
          same_senders = λ id.
              same_keys-contains identifier_discrete packages round1 id
                (senders_agree t.state _ self next.state round1 packages over first r.run held);
          msgs = _;
          heard = record {
            cipher = _;
            used = r.used;
            unused = r.unused;
            split = r.split;
            decrypted = refl;
          };
          ready = next.state;
          run = r.run;
          held = held;
          sources = λ id p at. all_new id p pubkeys (ms ++ _) (
              round2_sources C (fresh C S W pubkeys) (ms ++ _) self next.state id p whole
                (ap (get identifier_discrete id) (ready_so_far next.state packages held) ∙ at));
        },
        subst (λ (x : Link C S). get_pubkey_identifier_map C S W x.state ≡ ok pubkeys) same mapped,
      )
