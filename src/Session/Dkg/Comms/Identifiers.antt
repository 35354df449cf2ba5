-- ===== src/Session/Dkg/Comms/Identifiers.antt =====
-- All participants of a session derive the same identifiers.
use mina_multi_sig.Base.{
  refused-ne-returned, panicked-ne-returned, returned-inj, ◌<◌, ◌≡◌, sym, ap, subst, ◌∙◌, List, [],
  ◌∷◌, ◌++◌, Option, none, some, Option-cases, returned, bind-returned, lift, ltb, length,
  Bool-cases, inl, inr, ◌⊎◌, arith,
}
use mina_multi_sig.Text.{Bytes}
use mina_multi_sig.Map.{Map, get, insert}
use mina_multi_sig.Map.Laws.{get-insert_self, get-insert_other}
use mina_multi_sig.Noise.{Snow}
use mina_multi_sig.Session.Types.{PublicKey, PublicKey-discrete, Ciphersuite}
use mina_multi_sig.Session.Dkg.{DkgSessionState}
use mina_multi_sig.Session.Dkg.Comms.{
  CommsError, comm_privkey_missing, comm_pubkey_missing, identifier_not_derived,
}
use mina_multi_sig.Session.Dkg.Comms.Join.{
  DkgConfig, Server, Joined, or_error, choose_session, identifiers, with_pubkeys, enter,
  get_identifier_and_max_signers,
}

-- The key is in the list that the server gave.
abbrev pub Listed : PublicKey → List PublicKey → Type 0
Listed k [] = ⊥
Listed k (p ∷ ps) = (p ≡ k) ⊎ Listed k ps

module _ (C : Ciphersuite) (derive : Bytes → Option C.Identifier) where
  open C use {Identifier}

  stored :
      (id : Bytes) (acc : Map PublicKey Identifier) (p k : PublicKey) (i j : Identifier)
      → p ≡ k
      → derive (id ++ p) ≡ some j
      → derive (id ++ k) ≡ some i
      → get PublicKey-discrete k (insert PublicKey-discrete p j acc) ≡ some i
  stored id acc p k i j e good d =
      subst (λ x. get PublicKey-discrete x (insert PublicKey-discrete p j acc) ≡ some i) e
        (get-insert_self PublicKey-discrete p j acc ∙ sym good ∙ ap (λ x. derive (id ++ x)) e ∙ d)

  -- A key that has its identifier keeps it.
  identifiers-kept :
      (id : Bytes) (ps : List PublicKey) (acc m : Map PublicKey Identifier) (k : PublicKey)
      (i : Identifier)
      → identifiers C derive id ps acc ≡ some m
      → derive (id ++ k) ≡ some i
      → get PublicKey-discrete k acc ≡ some i
      → get PublicKey-discrete k m ≡ some i
  unfolding identifiers
  identifiers-kept id [] acc m k i e d h = ground arith
  identifiers-kept id (p ∷ ps) acc m k i e d h = elim (Option-cases (derive (id ++ p))) [
    | inl bad ↦ absurd (ground (arith, bad))
    | inr (j, good) ↦
        identifiers-kept id ps (insert PublicKey-discrete p j acc) m k i (ground (arith, good)) d
          (elim (PublicKey-discrete p k) [
            | yes same ↦ stored id acc p k i j same good d
            | no n ↦ get-insert_other PublicKey-discrete p k j acc n ∙ h
          ])
  ]

  identifiers-get :
      (id : Bytes) (ps : List PublicKey) (acc m : Map PublicKey Identifier) (k : PublicKey)
      (i : Identifier)
      → identifiers C derive id ps acc ≡ some m
      → derive (id ++ k) ≡ some i
      → Listed k ps
      → get PublicKey-discrete k m ≡ some i
  unfolding identifiers
  identifiers-get id [] acc m k i e d listed = elim listed [ ]
  identifiers-get id (p ∷ ps) acc m k i e d listed = elim (Option-cases (derive (id ++ p))) [
    | inl bad ↦ absurd (ground (arith, bad))
    | inr (j, good) ↦ elim listed [
      | inl same ↦
          identifiers-kept id ps (insert PublicKey-discrete p j acc) m k i (ground (arith, good)) d
            (stored id acc p k i j same good d)
      | inr later ↦
          identifiers-get id ps (insert PublicKey-discrete p j acc) m k i (ground (arith, good)) d
            later
    ]
  ]

  -- What a participant knows once it has joined.
  pub record Entered (config : DkgConfig) (server : Server) (st : DkgSessionState C) (j : Joined C)
      : Type 0 where
    pub key : PublicKey
    pub own : config.comm_pubkey ≡ some key
    pub mapped :
        identifiers C derive j.session_id (server.session_pubkeys j.session_id) [] ≡ some j.pubkeys
    pub derived : derive (j.session_id ++ key) ≡ some j.identifier
    pub others : 1 < length j.pubkeys
    pub state : with_pubkeys C derive st j.pubkeys ≡ some j.state

  module _ (S : Snow) where
    enter-Entered :
        (config : DkgConfig) (server : Server) (st : DkgSessionState C) (key : PublicKey)
        (id : Bytes) (pubkeys : Map PublicKey Identifier) (j : Joined C)
        → config.comm_pubkey ≡ some key
        → identifiers C derive id (server.session_pubkeys id) [] ≡ some pubkeys
        → enter C derive S key id pubkeys st ≡ returned j
        → Entered config server st j
    unfolding enter
    enter-Entered config server st key id pubkeys j own mapped h =
        elim (Bool-cases (ltb (length pubkeys) 2)) [
          | inl few ↦ absurd (refused-ne-returned (rw (few, enter) at h))
          | inr many ↦ elim (Option-cases (with_pubkeys C derive st pubkeys)) [
            | inl bad ↦ absurd (panicked-ne-returned (rw (many, bad, enter) at h))
            | inr (next, good) ↦ elim (Option-cases (derive (id ++ key))) [
              | inl none_derived ↦
                  absurd (refused-ne-returned (rw (many, good, none_derived, enter) at h))
              | inr (identifier, found) ↦
                  subst (Entered config server st)
                    (returned-inj (rw (many, good, found, enter) at h))
                    (record {
                      key = key;
                      own = own;
                      mapped = mapped;
                      derived = found;
                      others = ground (arith, many);
                      state = good;
                    })
            ]
          ]
        ]

    or_error-returned :
        {A : Type 0} (o : Option A) (e : CommsError S) (a : A)
        → lift (or_error o e) ≡ returned a
        → o ≡ some a
    or_error-returned none e a h = absurd (refused-ne-returned h)
    or_error-returned (some b) e a h = ap some (returned-inj h)

    pub get_identifier-Entered :
        (config : DkgConfig) (session_id : Option Bytes) (server : Server) (st : DkgSessionState C)
        (j : Joined C)
        → get_identifier_and_max_signers C derive S config session_id server st ≡ returned j
        → Entered config server st j
    unfolding get_identifier_and_max_signers
    get_identifier-Entered config session_id server st j h =
        let (sk, _, h1) =
          bind-returned (lift (or_error config.comm_privkey comm_privkey_missing)) _ j h in
        let (key, own, h2) =
          bind-returned (lift (or_error config.comm_pubkey comm_pubkey_missing)) _ j h1 in
        let (id, _, h3) = bind-returned (lift (choose_session S config session_id server)) _ j h2 in
        let (pubkeys, mapped, h4) =
          bind-returned
            (lift (
              or_error (identifiers C derive id (server.session_pubkeys id) [])
                identifier_not_derived))
            _ j h3 in
        enter-Entered config server st key id pubkeys j
          (or_error-returned _ comm_pubkey_missing key own)
          (or_error-returned _ identifier_not_derived pubkeys mapped) h4

    -- Two participants that join the same session, of which the server gives them the same list of
    -- keys, map all keys to the same identifiers, and the identifier of each is the one that the
    -- other maps its key to, if its key is in the list.
    pub joined_agree :
        (config config' : DkgConfig) (chosen chosen' : Option Bytes) (server server' : Server)
        (st st' : DkgSessionState C) (j j' : Joined C) (key : PublicKey)
        → get_identifier_and_max_signers C derive S config chosen server st ≡ returned j
        → get_identifier_and_max_signers C derive S config' chosen' server' st' ≡ returned j'
        → j.session_id ≡ j'.session_id
        → server.session_pubkeys j.session_id ≡ server'.session_pubkeys j.session_id
        → config.comm_pubkey ≡ some key
        → Listed key (server.session_pubkeys j.session_id)
        → (j.pubkeys ≡ j'.pubkeys) × (get PublicKey-discrete key j'.pubkeys ≡ some j.identifier)
    joined_agree config config' chosen chosen' server server' st st' j j' key h h' session keys own
          listed =
        let a = get_identifier-Entered config chosen server st j h in
        let b = get_identifier-Entered config' chosen' server' st' j' h' in
        let maps : some j.pubkeys ≡ some j'.pubkeys =
          sym a.mapped
          ∙ ap (λ ps. identifiers C derive j.session_id ps []) keys
          ∙ ap (λ id. identifiers C derive id (server'.session_pubkeys id) []) session
          ∙ b.mapped in
        let same : j.pubkeys ≡ j'.pubkeys = cc maps in
        let own_key : a.key ≡ key = cc (a.own, own) in
        let known : derive (j.session_id ++ key) ≡ some j.identifier =
          ap (λ k. derive (j.session_id ++ k)) (sym own_key) ∙ a.derived in
        (
          same,
          subst (λ m. get PublicKey-discrete key m ≡ some j.identifier) same
              (identifiers-get j.session_id (server.session_pubkeys j.session_id) [] j.pubkeys key
                j.identifier a.mapped known listed),
        )
