-- ===== src/Session/Dkg/Sources.antt =====
-- Where the packages that a DKG session holds come from.
pub mod OfRound1
pub mod OfRound2
use mina_multi_sig.Base.{
  refl, ◌≡◌, ◌∙◌, sym, ap, subst, true, false, List, [], ◌∷◌, none, some, Option, Option-cases,
  Bool-cases, inl, inr, ◌⊎◌, done, arith, ◌-◌, ◌==◌, length, ltb, ◌<◌, ite,
}
use mina_multi_sig.Text.{Bytes}
use mina_multi_sig.Map.{Map, get, insert, same_keys}
use mina_multi_sig.Map.Laws.{get-insert}
use mina_multi_sig.Session.Types.{PublicKey, PublicKey-discrete, Msg, Ciphersuite}
use mina_multi_sig.Session.Dkg.{
  DkgSessionState, Round1, Round2, waiting_for_round1_packages,
  waiting_for_round1_packages_broadcast, waiting_for_round2_packages, round2_packages_ready,
  store_round1_package, handle_round1_package, store_round2_package, handle_round2_package, recv,
  round2_packages, round1_packages, after_round1, has_round1_broadcast_packages,
}
use mina_multi_sig.Session.Dkg.Run.{exchange, exchange_inv}
use mina_multi_sig.Session.Dkg.Through.{pubkeys_of, Moves-pubkeys_of}
use mina_multi_sig.Session.Dkg.Moves.{
  recv-Moves, ready_last, round2_packages_held, broadcast_packages_held,
}

module _ (C : Ciphersuite) where
  open C use {
    Identifier, Round1Package, Round2Package, identifier_discrete, read_round1_package,
    read_round2_package,
  }

  -- One of the messages is from the participant, and reads as this.
  abbrev pub Contributed :
      {V : Type 0}
      → (Bytes → Option V)
      → Map PublicKey Identifier
      → Identifier
      → V
      → List Msg
      → Type 0
  Contributed read pubkeys id v [] = ⊥
  Contributed read pubkeys id v (m ∷ ms) =
      ((get PublicKey-discrete m.sender pubkeys ≡ some id) × (read m.msg ≡ some v))
      ⊎ Contributed read pubkeys id v ms

  -- What a map holds after an insertion was inserted, or was there.
  insert_inv :
      {V : Type 0} (i j : Identifier) (v w : V) (m : Map Identifier V)
      → get identifier_discrete j (insert identifier_discrete i v m) ≡ some w
      → ((i ≡ j) × (v ≡ w)) ⊎ (get identifier_discrete j m ≡ some w)
  insert_inv i j v w m h =
      go (identifier_discrete i j) (sym (get-insert identifier_discrete i j v m) ∙ h)
    where
      go :
          (d : Dec (i ≡ j))
          → ite d (some v) (get identifier_discrete j m) ≡ some w
          → ((i ≡ j) × (v ≡ w)) ⊎ (get identifier_discrete j m ≡ some w)
      go (yes e) h = inl (e, ground arith)
      go (no ne) h = inr h

  -- What is there after one more insertion was there before, or is the message's.
  pub traced :
      {V : Type 0} (read : Bytes → Option V) (pubkeys : Map PublicKey Identifier) (m : Msg)
      (ms : List Msg) (i id : Identifier) (q p : V) (before : Map Identifier V)
      → get PublicKey-discrete m.sender pubkeys ≡ some i
      → read m.msg ≡ some q
      → (get identifier_discrete id (insert identifier_discrete i q before) ≡ some p)
        ⊎ Contributed read pubkeys id p ms
      → (get identifier_discrete id before ≡ some p) ⊎ Contributed read pubkeys id p (m ∷ ms)
  traced read pubkeys m ms i id q p before known good (inr later) = inr (inr later)
  traced read pubkeys m ms i id q p before known good (inl there) =
      elim (insert_inv i id q p before there) [
        | inl (same, read_so) ↦ inr (inl (known ∙ ap some same, good ∙ ap some read_so))
        | inr old ↦ inl old
      ]
