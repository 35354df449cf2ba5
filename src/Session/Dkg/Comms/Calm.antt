-- ===== src/Session/Dkg/Comms/Calm.antt =====
-- Neither method of a round panics.
use mina_multi_sig.Base.{
  ◌<◌, ◌≡◌, ◌≢◌, refl, subst, List, [], ◌∷◌, Option, none, some, Bool, true, Option-cases,
  Bool-cases, Result-cases, Attempt-cases, ok, Attempt, returned, refused, panicked, inl, inr,
  arith, length,
}
use mina_multi_sig.Text.{Bytes}
use mina_multi_sig.Map.{Map, get}
use mina_multi_sig.Noise.{Snow}
use mina_multi_sig.Noise.Laws.{SnowLaws}
use mina_multi_sig.Cipher
use mina_multi_sig.Cipher.{Cipher, Error, encrypt, encrypt_to}
use mina_multi_sig.Cipher.Valid as CipherValid
use mina_multi_sig.Cipher.Valid.{Returns, encrypt_to-Returns, new-IsValid}
use mina_multi_sig.Session.Types.{PublicKey, Msg, Ciphersuite}
use mina_multi_sig.Session.Dkg.{
  DkgSessionState, waiting_for_round1_packages, waiting_for_round1_packages_broadcast,
  waiting_for_round2_packages, round2_packages_ready, has_round1_packages,
  has_round1_broadcast_packages, has_round2_packages, round1_packages, round2_packages,
}
use mina_multi_sig.Session.Dkg.Comms.{CommsError, Link, Waited, left, waiting, stopped, crashed}
use mina_multi_sig.Session.Dkg.Comms.Ends.{IsReady, EndsWell, rounds_end_well}
use mina_multi_sig.Session.Dkg.Comms.Sends.{is_own, round1_sends, broadcast_sends, send_all}
use mina_multi_sig.Session.Dkg.Comms.Join.{DkgConfig}
use mina_multi_sig.Session.Dkg.Comms.Rounds.{
  Writers, Method, returns, waits, fails, panics, sending, receiving, got, registered, start_cipher,
  send, echo_packages, send_round2, get_round1_packages, get_round2_packages,
}
use mina_multi_sig.Session.Dkg.Comms.Agreed.{fresh}
use mina_multi_sig.Session.Dkg.Comms.Returns.{
  encrypt-Returns, bind-ne-panicked, send_all-Returns, from_cipher-ne-panicked,
}

-- A method does not panic, and what it leaves satisfies `P` if it returns.
abbrev pub Calm :
    {C : Ciphersuite} {S : Snow} {A : Type 0} → (Link C S → Type 0) → Method C S A → Type 0
Calm P (returns l sent a) = P l
Calm P (waits l) = Unit
Calm P (fails e) = Unit
Calm P panics = ⊥

module _ {C : Ciphersuite} {S : Snow} {A : Type 0} (P : Link C S → Type 0) where
  sending-Calm :
      (r : Cipher S × Attempt (CommsError S) (List (PublicKey × Bytes)))
      (next : Cipher S → List (PublicKey × Bytes) → Method C S A)
      → r.1 ≢ panicked
      → ((msgs : List (PublicKey × Bytes)) → Calm P (next r.0 msgs))
      → Calm P (sending r next)
  sending-Calm (c, returned msgs) next calm h = h msgs
  sending-Calm (c, refused e) next calm h = tt
  sending-Calm (c, panicked) next calm h = absurd (calm refl)

  receiving-Calm :
      (over : DkgSessionState C → Bool) (st : DkgSessionState C) (self : C.Identifier)
      (w : Waited C S) (next : Link C S → Method C S A)
      → EndsWell C S over st self w
      → ((l : Link C S) → IsReady C S l → over l.state ≡ true → Calm P (next l))
      → Calm P (receiving w next)
  receiving-Calm over st self (left l) next e h = h l e.0 e.2
  receiving-Calm over st self (waiting l) next e h = tt
  receiving-Calm over st self (stopped l x) next e h = tt
  receiving-Calm over st self crashed next e h = absurd e

  got-Calm :
      (o : Option A) (l : Link C S) (msgs : List (PublicKey × Bytes)) (a : A)
      → o ≡ some a
      → P l
      → Calm P (got o l msgs)
  got-Calm none l msgs a e p = absurd (cc)
  got-Calm (some b) l msgs a e p = p

-- What a state that meets the test of a loop holds.
module _ (C : Ciphersuite) where
  open C use {Identifier, Round1Package, Round2Package}

  has_round1-some :
      (st : DkgSessionState C)
      → has_round1_packages C st ≡ true
      → (p : Map Identifier Round1Package) × (round1_packages C st ≡ some p)
  has_round1-some (waiting_for_round1_packages r) h = absurd (cc)
  has_round1-some (waiting_for_round1_packages_broadcast r) h = (r.round1_packages, refl)
  has_round1-some (waiting_for_round2_packages r) h = (r.round1_packages, refl)
  has_round1-some (round2_packages_ready r) h = absurd (cc)

  has_broadcast-some :
      (st : DkgSessionState C)
      → has_round1_broadcast_packages C st ≡ true
      → (p : Map Identifier Round1Package) × (round1_packages C st ≡ some p)
  has_broadcast-some (waiting_for_round1_packages r) h = absurd (cc)
  has_broadcast-some (waiting_for_round1_packages_broadcast r) h = absurd (cc)
  has_broadcast-some (waiting_for_round2_packages r) h = (r.round1_packages, refl)
  has_broadcast-some (round2_packages_ready r) h = absurd (cc)

  has_round2-some :
      (st : DkgSessionState C)
      → has_round2_packages C st ≡ true
      → (p : Map Identifier Round2Package) × (round2_packages C st ≡ some p)
  has_round2-some (waiting_for_round1_packages r) h = absurd (cc)
  has_round2-some (waiting_for_round1_packages_broadcast r) h = absurd (cc)
  has_round2-some (waiting_for_round2_packages r) h = absurd (cc)
  has_round2-some (round2_packages_ready r) h = (r.round2_packages, refl)

module _ (C : Ciphersuite) (S : Snow) (W : Writers C) (L : SnowLaws S) where
  open C use {Identifier, Round1Package, Round2Package, identifier_discrete}

  start_cipher-IsValid :
      (config : DkgConfig) (pubkeys : Map PublicKey Identifier) (c : Cipher S)
      → start_cipher C S W config pubkeys ≡ ok c
      → CipherValid.IsValid S c
  unfolding start_cipher
  start_cipher-IsValid config pubkeys c h = elim (Option-cases config.comm_privkey) [
    | inl e ↦ absurd (ground (arith, e))
    | inr (sk, e) ↦ elim (Option-cases config.comm_participant_pubkey_getter) [
      | inl f ↦ absurd (ground (arith, e, f))
      | inr (getter, f) ↦ elim (Option-cases (registered getter pubkeys)) [
        | inl g ↦ absurd (ground (arith, e, f, g))
        | inr (peers, g) ↦ elim (Result-cases (Cipher.new S sk peers)) [
          | inr (x, k) ↦ absurd (ground (arith, e, f, g, k))
          | inl (d, k) ↦
              let same : d ≡ c = ground (arith, e, f, g, k) in
              subst (CipherValid.IsValid S) same (new-IsValid S L sk peers d k)
        ]
      ]
    ]
  ]

  send_round2-IsValid :
      (c : Cipher S) (own : Option PublicKey) (packages : Map Identifier Round2Package)
      (pubkeys : Map PublicKey Identifier)
      → CipherValid.IsValid S c
      → CipherValid.IsValid S (send_round2 C S W c own packages pubkeys).0
        × ((send_round2 C S W c own packages pubkeys).1 ≢ panicked)
  unfolding send_round2
  send_round2-IsValid c own packages [] v = (v, cc)
  send_round2-IsValid c own packages ((pubkey, identifier) ∷ pubkeys) v =
      elim (Bool-cases (is_own own pubkey)) [
        | inl e ↦ rw (e, send_round2) (send_round2-IsValid c own packages pubkeys v)
        | inr e ↦ elim (Option-cases (get identifier_discrete identifier packages)) [
          | inl f ↦ rw (e, f, send_round2) (v, cc)
          | inr (pkg, f) ↦
              let sealed : Returns S (encrypt S c (some pubkey) (W.write_round2 pkg)) =
                encrypt-Returns S L c pubkey (W.write_round2 pkg) v in
              let rest =
                send_round2-IsValid (encrypt S c (some pubkey) (W.write_round2 pkg)).0 own packages
                  pubkeys sealed.valid in
              elim (Attempt-cases (encrypt S c (some pubkey) (W.write_round2 pkg)).1) [
                | inl g ↦ absurd (sealed.result g)
                | inr (inl (x, g)) ↦ rw (e, f, g, send_round2) (sealed.valid, cc)
                | inr (inr (msg, g)) ↦
                    rw (e, f, g, send_round2)
                      (rest.0, bind-ne-panicked S L _ (λ msgs. (pubkey, msg) ∷ msgs) rest.1)
              ]
        ]
      ]

  echo_packages-Calm :
      (config : DkgConfig) (self : Identifier) (pubkeys : Map PublicKey Identifier) (l : Link C S)
      (sent : List (PublicKey × Bytes)) (batches : List (List Msg))
      → IsReady C S l
      → has_round1_packages C l.state ≡ true
      → Calm (IsReady C S) (echo_packages C S W config self pubkeys l sent batches)
  unfolding echo_packages send
  echo_packages-Calm config self pubkeys l sent batches r h =
      elim (Bool-cases (has_round1_broadcast_packages C l.state)) [
        | inl met ↦
            let (p, held) = has_broadcast-some C l.state met in
            rw (met, echo_packages) (got-Calm (IsReady C S) _ l sent p held r)
        | inr unmet ↦
            let (own, held) = has_round1-some C l.state h in
            let sealed : Returns S (
                send_all S l.cipher
                  (broadcast_sends C W.write_broadcast config.comm_pubkey own pubkeys)) =
              send_all-Returns S L l.cipher _ r.cipher in
            rw (unmet, held, echo_packages)
              (sending-Calm (IsReady C S) _ _ (from_cipher-ne-panicked S L _ sealed.result)
                λ echoes.
                  receiving-Calm (IsReady C S) (has_round1_broadcast_packages C) l.state self _ _
                    (rounds_end_well C S L
                      (record l {
                        cipher =
                            (send_all S l.cipher (
                              broadcast_sends C W.write_broadcast config.comm_pubkey own
                                pubkeys)).0;
                      })
                      self batches (record { cipher = sealed.valid; state = r.state })).1
                    (λ next ready over.
                      let (p, got_p) = has_broadcast-some C next.state over in
                      got-Calm (IsReady C S) _ next _ p got_p ready))
      ]

  pub get_round1-Calm :
      (config : DkgConfig) (self : Identifier) (pubkeys : Map PublicKey Identifier)
      (own : Round1Package) (batches broadcasts : List (List Msg))
      → 1 < length pubkeys
      → Calm (IsReady C S) (
          get_round1_packages C S W config self pubkeys
            (fresh C S W pubkeys)
            own
            batches
            broadcasts)
  unfolding get_round1_packages send
  get_round1-Calm config self pubkeys own batches broadcasts many =
      elim (Result-cases (start_cipher C S W config pubkeys)) [
        | inr (e, bad) ↦ rw (bad, get_round1_packages) tt
        | inl (c, good) ↦
            let sends : List (PublicKey × Bytes) =
              round1_sends C config.comm_pubkey (W.write_round1 own) pubkeys in
            let sealed : Returns S (send_all S c sends) =
              send_all-Returns S L c sends (start_cipher-IsValid config pubkeys c good) in
            rw (good, get_round1_packages)
              (sending-Calm (IsReady C S) _ _ (from_cipher-ne-panicked S L _ sealed.result) λ msgs.
                receiving-Calm (IsReady C S) (has_round1_packages C) (fresh C S W pubkeys) self _ _
                  (rounds_end_well C S L
                    (record { cipher = (send_all S c sends).0; state = fresh C S W pubkeys }) self
                    batches
                    (record {
                      cipher = sealed.valid;
                      state = record {
                        packages = record { distinct = tt; known = tt };
                        open_places = many;
                      };
                    })).0
                  (λ l ready over.
                    echo_packages-Calm config self pubkeys l msgs broadcasts ready over))
      ]

  pub get_round2-Calm :
      (config : DkgConfig) (self : Identifier) (pubkeys : Map PublicKey Identifier) (l : Link C S)
      (outgoing : Map Identifier Round2Package) (batches : List (List Msg))
      → IsReady C S l
      → Calm
          (λ t. has_round2_packages C t.state ≡ true)
          (get_round2_packages C S W config self pubkeys l outgoing batches)
  unfolding get_round2_packages
  get_round2-Calm config self pubkeys l outgoing batches r =
      let sealed = send_round2-IsValid l.cipher config.comm_pubkey outgoing pubkeys r.cipher in
      sending-Calm _ _ _ sealed.1 λ msgs.
        receiving-Calm _ (has_round2_packages C) l.state self _ _
          (rounds_end_well C S L
            (record l {
              cipher = (send_round2 C S W l.cipher config.comm_pubkey outgoing pubkeys).0;
            })
            self batches (record { cipher = sealed.0; state = r.state })).2
          (λ next ready over.
            let (p, held) = has_round2-some C next.state over in got-Calm _ _ next msgs p held over)
