-- ===== src/Session/Dkg/Keygen/Agreement.antt =====
-- What `keygen` makes its keys of.
use mina_multi_sig.Base.{
  ◌<◌, ◌≡◌, refl, sym, subst, ap, ◌∙◌, List, ◌++◌, Option, none, some, ok, returned, length, arith,
}
use mina_multi_sig.Text.{Bytes}
use mina_multi_sig.Map.{Map}
use mina_multi_sig.Noise.{Snow}
use mina_multi_sig.Session.Types.{PublicKey, Ciphersuite}
use mina_multi_sig.Session.Dkg.{DkgSessionState, initial}
use mina_multi_sig.Session.Dkg.Comms.{Link}
use mina_multi_sig.Session.Dkg.Comms.Join.{
  DkgConfig, Server, Joined, with_pubkeys, get_identifier_and_max_signers,
}
use mina_multi_sig.Session.Dkg.Comms.Identifiers.{Entered, get_identifier-Entered}
use mina_multi_sig.Session.Dkg.Comms.Rounds.{
  Writers, Method, returns, waits, fails, panics, get_round1_packages, get_round2_packages,
  get_pubkey_identifier_map,
}
use mina_multi_sig.Session.Dkg.Comms.Round2.{Received, get_round2-Received}
use mina_multi_sig.Session.Dkg.Comms.Agreed.{Agreed, fresh}
use mina_multi_sig.Session.Dkg.Comms.Round1.{get_round1-Agreed}
use mina_multi_sig.Session.Dkg.Keygen.{
  FrostDkg, Inbox, Keys, chain, frost, finish, exchange_packages, doit, keygen,
}

module _ {C : Ciphersuite} {S : Snow} {A B : Type 0} where
  chain_inv :
      (m : Method C S A) (next : Link C S → List (PublicKey × Bytes) → A → Method C S B)
      (l : Link C S) (sent : List (PublicKey × Bytes)) (b : B)
      → chain m next ≡ returns l sent b
      → (t : Link C S) × (msgs : List (PublicKey × Bytes)) × (a : A) × (m ≡ returns t msgs a)
        × (next t msgs a ≡ returns l sent b)
  chain_inv (returns t msgs a) next l sent b h = (t, msgs, a, refl, h)
  chain_inv (waits t) next l sent b h = absurd (cc)
  chain_inv (fails e) next l sent b h = absurd (cc)
  chain_inv panics next l sent b h = absurd (cc)

  frost_inv :
      (o : Option A) (next : A → Method C S B) (l : Link C S) (sent : List (PublicKey × Bytes))
      (b : B)
      → frost o next ≡ returns l sent b
      → (a : A) × (o ≡ some a) × (next a ≡ returns l sent b)
  frost_inv none next l sent b h = absurd (cc)
  frost_inv (some a) next l sent b h = (a, refl, h)

module _ (C : Ciphersuite) (S : Snow) (W : Writers C) (F : FrostDkg C) where
  open C use {Identifier, Round1Package, Round2Package}

  -- How the keys came about.
  pub record Generated (config : DkgConfig) (j : Joined C) (inbox : Inbox) (keys : Keys C F)
      : Type 0 where
    pub secret1 : F.Secret1
    pub own : Round1Package
    pub start : F.part1 j.identifier j.max_signers config.min_signers ≡ some (secret1, own)
    pub mid : DkgSessionState C
    pub round1 : Map Identifier Round1Package
    pub agreed : Agreed C S W j.pubkeys j.identifier inbox.round1 inbox.broadcasts mid round1
    pub secret2 : F.Secret2
    pub outgoing : Map Identifier Round2Package
    pub middle : F.part2 secret1 round1 ≡ some (secret2, outgoing)
    pub round2 : Map Identifier Round2Package
    pub received :
        Received C S W j.pubkeys j.identifier inbox.round2
          (agreed.first ++ agreed.second)
          mid
          round1
          round2
    pub last : F.part3 secret2 round1 round2 ≡ some (keys.key_package, keys.public_key_package)
    pub identifiers : keys.pubkey_map ≡ j.pubkeys

  returned_keys :
      (made keys : Keys C F) (t l : Link C S) (msgs sent : List (PublicKey × Bytes))
      → returns t msgs made ≡ returns l sent keys
      → made ≡ keys
  returned_keys made keys t l msgs sent h = cc h

  finish_inv :
      (secret : F.Secret2) (round1 : Map Identifier Round1Package)
      (round2 : Map Identifier Round2Package) (t l : Link C S)
      (msgs sent : List (PublicKey × Bytes)) (pubkeys : Map PublicKey Identifier) (keys : Keys C F)
      → finish C S W F secret round1 round2 t msgs ≡ returns l sent keys
      → get_pubkey_identifier_map C S W t.state ≡ ok pubkeys
      → (F.part3 secret round1 round2 ≡ some (keys.key_package, keys.public_key_package))
        × (keys.pubkey_map ≡ pubkeys)
  unfolding finish
  finish_inv secret round1 round2 t l msgs sent pubkeys keys h mapped =
      let (made, e, h1) = frost_inv (F.part3 secret round1 round2) _ l sent keys h in
      let same = returned_keys _ keys t l msgs sent (rw mapped at h1) in
      (
        e ∙ ap (λ (k : Keys C F). some (k.key_package, k.public_key_package)) same,
        ap (λ (k : Keys C F). k.pubkey_map) (sym same),
      )

  exchange_packages-Generated :
      (config : DkgConfig) (j : Joined C) (inbox : Inbox) (l : Link C S)
      (sent : List (PublicKey × Bytes)) (keys : Keys C F)
      → exchange_packages C S W F config j inbox ≡ returns l sent keys
      → j.state ≡ fresh C S W j.pubkeys
      → 2 < length j.pubkeys
      → Generated config j inbox keys
  unfolding exchange_packages
  exchange_packages-Generated config j inbox l sent keys h st many =
      let ((secret1, own), start, h1) =
        frost_inv (F.part1 j.identifier j.max_signers config.min_signers) _ l sent keys h in
      let (t, msgs, round1, ran, h2) =
        chain_inv
          (get_round1_packages C S W config j.identifier j.pubkeys j.state own inbox.round1
            inbox.broadcasts)
          _ l sent keys h1 in
      let agreed =
        get_round1-Agreed C S W config j.identifier j.pubkeys own inbox.round1 inbox.broadcasts t
          msgs round1
          (subst
            (λ x.
              get_round1_packages C S W config j.identifier j.pubkeys x own inbox.round1
                inbox.broadcasts
              ≡ returns t msgs round1)
            st ran)
          many in
      let ((secret2, outgoing), middle, h3) = frost_inv (F.part2 secret1 round1) _ l sent keys h2 in
      let (u, more, round2, ran2, h4) =
        chain_inv (get_round2_packages C S W config j.identifier j.pubkeys t outgoing inbox.round2)
          _ l sent keys h3 in
      let (received, mapped) =
        get_round2-Received C S W config j.identifier j.pubkeys t u (agreed.first ++ agreed.second)
          outgoing inbox.round2 more round1 round2 ran2 (omega (arith, many)) agreed.reached
          agreed.over agreed.held in
      let (last, identifiers) =
        finish_inv secret2 round1 round2 u l _ sent j.pubkeys keys h4 mapped in
      record {
        secret1 = secret1;
        own = own;
        start = start;
        mid = t.state;
        round1 = round1;
        agreed = agreed;
        secret2 = secret2;
        outgoing = outgoing;
        middle = middle;
        round2 = round2;
        received = received;
        last = last;
        identifiers = identifiers;
      }

  -- If the key generation of more than two participants returns keys, frost-core made them of
  -- packages of round 1 from as many different participants of the session, none of them this one,
  -- as there are others, and of packages of round 2 from exactly these, one from each. Each
  -- package is what a message of its participant, among those that the server handed out, reads
  -- as; all these participants echoed, to this one, the very packages of round 1 of each other;
  -- and the map of identifiers is that of the session.
  pub keygen-Generated :
      (config : DkgConfig) (server : Server) (inbox : Inbox) (j : Joined C) (l : Link C S)
      (sent : List (PublicKey × Bytes)) (keys : Keys C F)
      → get_identifier_and_max_signers C F.derive S config none server (initial C) ≡ returned j
      → 2 < length j.pubkeys
      → (keygen C S W F config server inbox).0 ≡ returns l sent keys
      → Generated config j inbox keys
  unfolding keygen doit with_pubkeys initial
  keygen-Generated config server inbox j l sent keys joined many h =
      exchange_packages-Generated config j inbox l sent keys (rw (joined, doit) at h)
        (entered_state
          (get_identifier-Entered C F.derive S config none server (initial C) j joined))
        many
    where
      entered_state :
          Entered C F.derive config server (initial C) j → j.state ≡ fresh C S W j.pubkeys
      entered_state e = let w : some (fresh C S W j.pubkeys) ≡ some j.state = e.state in cc w
