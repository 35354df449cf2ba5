-- ===== src/Session/Dkg/Comms/Round1.antt =====
-- The packages of round 1 that `get_round1_packages` returns.
use mina_multi_sig.Base.{
  ◌<◌, ◌≡◌, refl, subst, List, [], some, true, false, Option-cases, Bool-cases, Result-cases, inl,
  inr, length, arith,
}
use mina_multi_sig.Text.{Bytes}
use mina_multi_sig.Map.{Map}
use mina_multi_sig.Noise.{Snow}
use mina_multi_sig.Session.Types.{PublicKey, Msg, Ciphersuite}
use mina_multi_sig.Session.Dkg.{has_round1_packages, has_round1_broadcast_packages, round1_packages}
use mina_multi_sig.Session.Dkg.Run.{exchange}
use mina_multi_sig.Session.Dkg.Comms.{Link, left, receive_round1, receive_broadcasts}
use mina_multi_sig.Session.Dkg.Comms.Openings.{all_msgs, openings, receive_until-Read}
use mina_multi_sig.Session.Dkg.Comms.Sends.{round1_sends, broadcast_sends}
use mina_multi_sig.Session.Dkg.Comms.Join.{DkgConfig}
use mina_multi_sig.Session.Dkg.Comms.Rounds.{
  Writers, returns, start_cipher, send, echo_packages, get_round1_packages,
}
use mina_multi_sig.Session.Dkg.Comms.Inversion.{sending_inv, receiving_inv, got_inv}
use mina_multi_sig.Session.Dkg.Comms.Agreed.{fresh, Agreed, Led, Led-Agreed}

module _ (C : Ciphersuite) (S : Snow) (W : Writers C) where
  open C use {Identifier, Round1Package, identifier_discrete}

  -- The echo broadcast was over.
  skipped :
      (t : Link C S) (broadcasts : List (List Msg)) {self : Identifier}
      (packages : Map Identifier Round1Package)
      → has_round1_broadcast_packages C t.state ≡ true
      → round1_packages C t.state ≡ some packages
      → Led C S W self t.state broadcasts t.state packages
  unfolding exchange openings
  skipped t broadcasts packages met held = record {
    msgs = [];
    heard = record {
      cipher = t.cipher;
      used = [];
      unused = broadcasts;
      split = refl;
      decrypted = refl;
    };
    run = refl;
    over = met;
    held = held;
  }

  -- The echoes were received.
  exchanged :
      (self : Identifier) (l next : Link C S) (broadcasts : List (List Msg))
      (packages : Map Identifier Round1Package)
      → has_round1_broadcast_packages C l.state ≡ false
      → receive_broadcasts C S l self broadcasts ≡ left next
      → round1_packages C next.state ≡ some packages
      → Led C S W self l.state broadcasts next.state packages
  unfolding receive_broadcasts
  exchanged self l next broadcasts packages unmet took held =
      let r =
        receive_until-Read C S (has_round1_broadcast_packages C) l self broadcasts next
          (rw (unmet, receive_broadcasts) at took) in
      record {
        msgs = openings S l.cipher (all_msgs r.used);
        heard = record {
          cipher = l.cipher;
          used = r.used;
          unused = r.unused;
          split = r.split;
          decrypted = refl;
        };
        run = r.run;
        over = r.met;
        held = held;
      }

  echo_packages-Led :
      (config : DkgConfig) (self : Identifier) (pubkeys : Map PublicKey Identifier) (t l : Link C S)
      (msgs sent : List (PublicKey × Bytes)) (broadcasts : List (List Msg))
      (packages : Map Identifier Round1Package)
      → echo_packages C S W config self pubkeys t msgs broadcasts ≡ returns l sent packages
      → Led C S W self t.state broadcasts l.state packages
  unfolding echo_packages
  echo_packages-Led config self pubkeys t l msgs sent broadcasts packages h =
      elim (Bool-cases (has_round1_broadcast_packages C t.state)) [
        | inl met ↦
            let (held, same) =
              got_inv (round1_packages C t.state) t l msgs sent packages
                (rw (met, echo_packages) at h) in
            subst (λ (x : Link C S). Led C S W self t.state broadcasts x.state packages) same
              (skipped t broadcasts packages met held)
        | inr unmet ↦ elim (Option-cases (round1_packages C t.state)) [
          | inl bad ↦ absurd (ground (arith, unmet, bad))
          | inr (own, good) ↦
              let (echoes, h1) =
                sending_inv
                  (send C S W t.cipher
                    (broadcast_sends C W.write_broadcast config.comm_pubkey own pubkeys))
                  _ l sent packages (rw (unmet, good, echo_packages) at h) in
              let (next, took, h2) = receiving_inv _ _ l sent packages h1 in
              let (held, same) = got_inv (round1_packages C next.state) next l _ sent packages h2 in
              subst (λ (x : Link C S). Led C S W self t.state broadcasts x.state packages) same
                (exchanged self _ next broadcasts packages unmet took held)
        ]
      ]

  -- If `get_round1_packages` returns in a session of more than two participants, it returns a package
  -- for each other participant; and for any two of them, a message of the second that the server
  -- handed out echoes the very package that is returned for the first.
  pub get_round1-Agreed :
      (config : DkgConfig) (self : Identifier) (pubkeys : Map PublicKey Identifier)
      (own : Round1Package) (batches broadcasts : List (List Msg)) (l : Link C S)
      (sent : List (PublicKey × Bytes)) (packages : Map Identifier Round1Package)
      → get_round1_packages C S W config self pubkeys (fresh C S W pubkeys) own batches broadcasts
        ≡ returns l sent packages
      → 2 < length pubkeys
      → Agreed C S W pubkeys self batches broadcasts l.state packages
  unfolding get_round1_packages receive_round1
  get_round1-Agreed config self pubkeys own batches broadcasts l sent packages h many =
      elim (Result-cases (start_cipher C S W config pubkeys)) [
        | inr (e, bad) ↦ absurd (ground (arith, bad))
        | inl (c, good) ↦
            let (msgs, h1) =
              sending_inv
                (send C S W c (round1_sends C config.comm_pubkey (W.write_round1 own) pubkeys)) _ l
                sent packages (rw (good, get_round1_packages) at h) in
            let (t, took, h2) = receiving_inv _ _ l sent packages h1 in
            let r = receive_until-Read C S (has_round1_packages C) _ self batches t took in
            Led-Agreed C S W pubkeys self t.state l.state batches broadcasts _ packages many
              (record {
                cipher = _;
                used = r.used;
                unused = r.unused;
                split = r.split;
                decrypted = refl;
              })
              r.run (echo_packages-Led config self pubkeys t l msgs sent broadcasts packages h2)
      ]
