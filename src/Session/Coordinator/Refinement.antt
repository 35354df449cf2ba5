-- ===== src/Session/Coordinator/Refinement.antt =====
-- An abstract view of the coordinator: its phases, with what each signer has sent in them, and the
-- step that each message is. It forgets maps, their order and the handlers.
pub mod Simulation
pub mod Stores
use mina_multi_sig.Base.{
  List, [], ◌∷◌, ℕ, ◌≡◌, ◌≢◌, true, false, Option, none, some, is_some, ite, length,
}
use mina_multi_sig.Map.{contains_key, Map, get, Distinct}
use mina_multi_sig.Session.Types.{PublicKey, PublicKey-discrete, Ciphersuite, Msg}
use mina_multi_sig.Session.Coordinator.{
  CoordinatorSessionState, CoordinatorSessionStateArgs, waiting_for_commitments,
  waiting_for_signature_shares, signature_shares_ready,
}

module _ (C : Ciphersuite) where
  open C use {Identifier, SigningCommitments, SignatureShare, identifier_discrete}

  abbrev pub Table : Type 0 → Type 0
  Table V = Identifier → Option (List V)

  -- The phases, each with what every signer has sent in it.
  pub data View : Type 0 where
    collecting : Table SigningCommitments → View
    signing : Table SigningCommitments → Table SignatureShare → View
    finished : Table SignatureShare → View

  abbrev pub nothing : {V : Type 0} → Table V
  nothing id = none

  abbrev pub update : {V : Type 0} → Identifier → List V → Table V → Table V
  update id v t j = ite (identifier_discrete id j) (some v) (t j)

  abbrev pub table : {V : Type 0} → Map Identifier (List V) → Table V
  table m id = get identifier_discrete id m

  abbrev pub view : CoordinatorSessionState C → View
  view (waiting_for_commitments r) = collecting (table r.commitments)
  view (waiting_for_signature_shares r) = signing (table r.commitments) (table r.signature_shares)
  view (signature_shares_ready r) = finished (table r.signature_shares)

  -- The table has entries at exactly `n` identifiers.
  pub record Holds {V : Type 0} (n : ℕ) (t : Table V) : Type 0 where
    pub signers : Map Identifier (Unit {0})
    pub distinct : Distinct identifier_discrete signers
    pub number : length signers ≡ n
    pub exactly : (j : Identifier) → contains_key identifier_discrete j signers ≡ is_some (t j)

  -- Both tables have entries at the same identifiers.
  abbrev pub SameSigners : {V W : Type 0} → Table V → Table W → Type 0
  SameSigners t u = (j : Identifier) → is_some (t j) ≡ is_some (u j)

  module _ (args : CoordinatorSessionStateArgs) (pubkeys : Map PublicKey Identifier) where
    -- The message holds commitments of a participant, one for each message to sign.
    pub record Commits (m : Msg) (id : Identifier) (c : List SigningCommitments) : Type 0 where
      pub sender : get PublicKey-discrete m.sender pubkeys ≡ some id
      pub content : C.read_commitments m.msg ≡ some c
      pub number : length c ≡ args.num_messages

    -- The message holds shares of a participant, one for each message to sign.
    pub record Signs (m : Msg) (id : Identifier) (s : List SignatureShare) : Type 0 where
      pub sender : get PublicKey-discrete m.sender pubkeys ≡ some id
      pub content : C.read_signature_shares m.msg ≡ some s
      pub number : length s ≡ args.num_messages

    -- The message is none of those that the phase takes.
    abbrev pub Unfit : Msg → View → Type 0
    Unfit m (collecting t) = (id : Identifier) (c : List SigningCommitments) → Commits m id c → ⊥
    Unfit m (signing t u) =
        (id : Identifier) (s : List SignatureShare) → Signs m id s → is_some (t id) ≡ false
    Unfit m (finished u) = Unit

    -- What a message does.
    pub data Step (m : Msg) (v w : View) : Type 0 where
      commits :
          (id : Identifier) (c : List SigningCommitments) (n : ℕ) (t : Table SigningCommitments)
          → Commits m id c
          → Holds n (update id c t)
          → n ≢ args.num_signers
          → v ≡ collecting t
          → w ≡ collecting (update id c t)
          → Step m v w
      closes :
          (id : Identifier) (c : List SigningCommitments) (t : Table SigningCommitments)
          → Commits m id c
          → Holds args.num_signers (update id c t)
          → v ≡ collecting t
          → w ≡ signing (update id c t) nothing
          → Step m v w
      signs :
          (id : Identifier) (s : List SignatureShare) (t : Table SigningCommitments)
          (u : Table SignatureShare)
          → Signs m id s
          → is_some (t id) ≡ true
          → (SameSigners (update id s u) t → ⊥)
          → v ≡ signing t u
          → w ≡ signing t (update id s u)
          → Step m v w
      finishes :
          (id : Identifier) (s : List SignatureShare) (t : Table SigningCommitments)
          (u : Table SignatureShare)
          → Signs m id s
          → is_some (t id) ≡ true
          → SameSigners (update id s u) t
          → v ≡ signing t u
          → w ≡ finished (update id s u)
          → Step m v w
      ignores : Unfit m v → w ≡ v → Step m v w

    -- The steps of messages in their order.
    abbrev pub Steps : View → List Msg → View → Type 0
    Steps v [] w = w ≡ v
    Steps v (m ∷ ms) w = (x : View) × Step m v x × Steps x ms w
