-- ===== src/Session/Dkg/Comms/Rounds.antt =====
-- `get_round1_packages` and `get_round2_packages` of mina-frost-client/src/dkg/comms/http.rs. The
-- batches that the server will hand out are arguments; a method that has read them all and still
-- waits is `waits`. The closing of the session by its creator and the logout are left out.
use mina_multi_sig.Base.{
  List, [], ◌∷◌, ◌++◌, Option, none, some, Result, ok, err, Attempt, returned, refused, panicked,
  bind, if◌then◌else◌, true, false,
}
use mina_multi_sig.Text.{Bytes}
use mina_multi_sig.Map.{Map, get}
use mina_multi_sig.Noise.{Snow}
use mina_multi_sig.Cipher
use mina_multi_sig.Cipher.{Cipher, Error, encrypt}
use mina_multi_sig.Session.Types.{PublicKey, Msg, Ciphersuite}
use mina_multi_sig.Session.Dkg.{
  DkgSessionState, round2_packages_ready, has_round1_broadcast_packages, round1_packages,
  round2_packages,
}
use mina_multi_sig.Session.Dkg.Comms.{
  CommsError, cipher_error, comm_keys_missing, participant_not_registered, round2_package_missing,
  wrong_state, Link, Waited, left, waiting, stopped, crashed, receive_round1, receive_broadcasts,
  receive_round2,
}
use mina_multi_sig.Session.Dkg.Comms.Sends.{is_own, round1_sends, broadcast_sends, send_all}
use mina_multi_sig.Session.Dkg.Comms.Join.{DkgConfig}

-- The writers of serde_json.
pub record Writers (C : Ciphersuite) : Type 0 where
  pub write_round1 : C.Round1Package → Bytes
  pub write_broadcast : C.Identifier → C.Round1Package → Bytes
  pub write_round2 : C.Round2Package → Bytes

-- How a method ends; one that returns has sent messages.
pub data Method (C : Ciphersuite) (S : Snow) (A : Type 0) : Type 0 where
  returns : Link C S → List (PublicKey × Bytes) → A → Method C S A
  waits : Link C S → Method C S A
  fails : CommsError S → Method C S A
  panics : Method C S A

module _ {C : Ciphersuite} {S : Snow} {A : Type 0} where
  -- What follows the sends.
  abbrev pub sending :
      Cipher S × Attempt (CommsError S) (List (PublicKey × Bytes))
      → (Cipher S → List (PublicKey × Bytes) → Method C S A)
      → Method C S A
  sending (c, returned msgs) next = next c msgs
  sending (c, refused e) next = fails e
  sending (c, panicked) next = panics

  -- What follows a receiving loop.
  abbrev pub receiving : Waited C S → (Link C S → Method C S A) → Method C S A
  receiving (left l) next = next l
  receiving (waiting l) next = waits l
  receiving (stopped l e) next = fails e
  receiving crashed next = panics

  -- A getter of the session; `none` is its panic.
  abbrev pub got : Option A → Link C S → List (PublicKey × Bytes) → Method C S A
  got none l msgs = panics
  got (some a) l msgs = returns l msgs a

-- The keys of the other participants in the address book, up to the first that is not there.
unfoldable pub registered :
    {V : Type 0} → (PublicKey → Option PublicKey) → Map PublicKey V → Option (List PublicKey)
registered getter [] = some []
registered getter ((pubkey, v) ∷ pubkeys) = elim (getter pubkey) [
  | none ↦ none
  | some known ↦ elim (registered getter pubkeys) [ none ↦ none | some rest ↦ some (known ∷ rest) ]
]

-- `?` on an error of the cipher.
abbrev pub from_cipher : {S : Snow} {A : Type 0} → Attempt (Error S) A → Attempt (CommsError S) A
from_cipher (returned a) = returned a
from_cipher (refused e) = refused (cipher_error e)
from_cipher panicked = panicked

abbrev pub new_cipher : {S : Snow} → Result (Error S) (Cipher S) → Result (CommsError S) (Cipher S)
new_cipher (ok c) = ok c
new_cipher (err e) = err (cipher_error e)

module _ (C : Ciphersuite) (S : Snow) (W : Writers C) where
  open C use {Identifier, Round1Package, Round2Package, identifier_discrete}

  unfoldable pub start_cipher :
      DkgConfig → Map PublicKey Identifier → Result (CommsError S) (Cipher S)
  start_cipher config pubkeys = elim config.comm_privkey [
    | none ↦ err comm_keys_missing
    | some comm_privkey ↦ elim config.comm_participant_pubkey_getter [
      | none ↦ err comm_keys_missing
      | some getter ↦ elim (registered getter pubkeys) [
        | none ↦ err participant_not_registered
        | some peers ↦ new_cipher (Cipher.new S comm_privkey peers)
      ]
    ]
  ]

  -- The plaintexts are encrypted and sent.
  unfoldable pub send :
      Cipher S
      → List (PublicKey × Bytes)
      → Cipher S × Attempt (CommsError S) (List (PublicKey × Bytes))
  send c sends = let sent = send_all S c sends in (sent.0, from_cipher sent.1)

  unfoldable pub echo_packages :
      DkgConfig
      → Identifier
      → Map PublicKey Identifier
      → Link C S
      → List (PublicKey × Bytes)
      → List (List Msg)
      → Method C S (Map Identifier Round1Package)
  echo_packages config self pubkeys l sent batches =
      if has_round1_broadcast_packages C l.state
      then got (round1_packages C l.state) l sent
      else elim (round1_packages C l.state) [
        | none ↦ panics
        | some packages ↦
            sending
              (send l.cipher
                (broadcast_sends C W.write_broadcast config.comm_pubkey packages pubkeys))
              λ cipher echoes.
                receiving (receive_broadcasts C S (record l { cipher = cipher }) self batches)
                  λ next. got (round1_packages C next.state) next (sent ++ echoes)
      ]

  unfoldable pub get_round1_packages :
      DkgConfig
      → Identifier
      → Map PublicKey Identifier
      → DkgSessionState C
      → Round1Package
      → List (List Msg)
      → List (List Msg)
      → Method C S (Map Identifier Round1Package)
  get_round1_packages config self pubkeys st round1_package batches broadcasts =
      elim (start_cipher config pubkeys) [
        | err e ↦ fails e
        | ok c ↦
            sending
              (send c (round1_sends C config.comm_pubkey (W.write_round1 round1_package) pubkeys))
              λ cipher sent.
                receiving (receive_round1 C S (record { cipher = cipher; state = st }) self batches)
                  λ l. echo_packages config self pubkeys l sent broadcasts
      ]

  -- A package for each other participant, up to the first error.
  unfoldable pub send_round2 :
      Cipher S
      → Option PublicKey
      → Map Identifier Round2Package
      → Map PublicKey Identifier
      → Cipher S × Attempt (CommsError S) (List (PublicKey × Bytes))
  send_round2 c own packages [] = (c, returned [])
  send_round2 c own packages ((pubkey, identifier) ∷ pubkeys) = elim (is_own own pubkey) [
    | true ↦ send_round2 c own packages pubkeys
    | false ↦ elim (get identifier_discrete identifier packages) [
      | none ↦ (c, refused round2_package_missing)
      | some pkg ↦
          let sealed = encrypt S c (some pubkey) (W.write_round2 pkg) in
          let rest = send_round2 sealed.0 own packages pubkeys in
          elim sealed.1 [
            | panicked ↦ (sealed.0, panicked)
            | refused e ↦ (sealed.0, refused (cipher_error e))
            | returned msg ↦ (rest.0, bind rest.1 λ msgs. returned ((pubkey, msg) ∷ msgs))
          ]
    ]
  ]

  unfoldable pub get_round2_packages :
      DkgConfig
      → Identifier
      → Map PublicKey Identifier
      → Link C S
      → Map Identifier Round2Package
      → List (List Msg)
      → Method C S (Map Identifier Round2Package)
  get_round2_packages config self pubkeys l packages batches =
      sending (send_round2 l.cipher config.comm_pubkey packages pubkeys) λ cipher sent.
        receiving (receive_round2 C S (record l { cipher = cipher }) self batches)
          λ next. got (round2_packages C next.state) next sent

  unfoldable pub get_pubkey_identifier_map :
      DkgSessionState C → Result (CommsError S) (Map PublicKey Identifier)
  get_pubkey_identifier_map (round2_packages_ready r) = ok r.pubkeys
  get_pubkey_identifier_map _ = err wrong_state
