-- ===== src/Session/Dkg/Echo.antt =====
-- One more echo: the state with it, the checks before it, and the move to round 2.
use mina_multi_sig.Base.{
  ap, ◌≡◌, ◌∙◌, refl, sym, true, [], none, some, inl, inr, arith, Option-cases, Bool-cases, ◌≢◌,
}
use mina_multi_sig.Map.{Map, get, insert, contains_key, keys_within, Distinct, has_value}
use mina_multi_sig.Map.Laws.{insert-Distinct, insert_same}
use mina_multi_sig.Map.Entries.{Entries, Entries-insert, Entries-get}
use mina_multi_sig.Session.Types.{Ciphersuite}
use mina_multi_sig.Session.Dkg.{
  waiting_for_round1_packages_broadcast, Round1Broadcast, is_complete, echoes_of, advance_broadcast,
  store_broadcast, check_broadcast,
}
use mina_multi_sig.Session.Coordinator.Invariant.{Settles}
use mina_multi_sig.Session.Dkg.Valid.{Round1BroadcastInv, IsValid}

module _ (C : Ciphersuite) where
  open C use {
    Identifier, Round1Package, Round2Package, identifier_discrete, round1_package_discrete,
  }

  -- The echoes that stand under a key have what holds of every entry, and of no echoes at all.
  pub echoes_of-Entries :
      (P : Identifier → Map Identifier Round1Package → Type 0) (o : Identifier)
      (b : Map Identifier (Map Identifier Round1Package))
      → P o []
      → Entries P b
      → P o (echoes_of C b o)
  echoes_of-Entries P o b h e = elim (Option-cases (get identifier_discrete o b)) [
    | inl missing ↦ rw (missing, echoes_of) h
    | inr (m, found) ↦ rw (found, echoes_of) (Entries-get identifier_discrete P o m b e found)
  ]

  -- The state of the broadcast with one more echo.
  abbrev pub with_echo :
      Round1Broadcast C → Identifier → Identifier → Round1Package → Round1Broadcast C
  with_echo r s o p = record r {
    round1_broadcasted_packages =
        insert identifier_discrete o
          (insert identifier_discrete s p (echoes_of C r.round1_broadcasted_packages o))
          r.round1_broadcasted_packages;
  }

  echoes_faithful :
      (r : Round1Broadcast C) (o : Identifier)
      → Round1BroadcastInv C r
      → Entries
          (λ sender p. get identifier_discrete o r.round1_packages ≡ some p)
          (echoes_of C r.round1_broadcasted_packages o)
  echoes_faithful r o v =
      echoes_of-Entries
        (λ original echoes.
          Entries (λ sender p. get identifier_discrete original r.round1_packages ≡ some p) echoes)
        o r.round1_broadcasted_packages tt v.faithful

  pub with_echo-Inv :
      (r : Round1Broadcast C) (s o : Identifier) (p : Round1Package)
      → Round1BroadcastInv C r
      → get identifier_discrete o r.round1_packages ≡ some p
      → Round1BroadcastInv C (with_echo r s o p)
  with_echo-Inv r s o p v original = record {
    packages = v.packages;
    all_packages = v.all_packages;
    participants = v.participants;
    originals = insert-Distinct identifier_discrete o _ r.round1_broadcasted_packages v.originals;
    senders =
        Entries-insert identifier_discrete _ o _ r.round1_broadcasted_packages
          (insert-Distinct identifier_discrete s p (echoes_of C r.round1_broadcasted_packages o) (
            echoes_of-Entries (λ _ m. Distinct identifier_discrete m) o
              r.round1_broadcasted_packages tt v.senders))
          v.senders;
    faithful =
        Entries-insert identifier_discrete _ o _ r.round1_broadcasted_packages
          (Entries-insert identifier_discrete _ s p (echoes_of C r.round1_broadcasted_packages o)
            original (echoes_faithful r o v))
          v.faithful;
  }

  pub echoes_of-some :
      (b : Map Identifier (Map Identifier Round1Package)) (s o : Identifier) (w : Round1Package)
      → get identifier_discrete s (echoes_of C b o) ≡ some w
      → get identifier_discrete o b ≡ some (echoes_of C b o)
  unfolding get
  echoes_of-some b s o w h = ground arith

  -- An echo that came before is the same package, so to store it again changes nothing.
  with_echo_again :
      (r : Round1Broadcast C) (s o : Identifier) (p : Round1Package)
      → Round1BroadcastInv C r
      → get identifier_discrete o r.round1_packages ≡ some p
      → contains_key identifier_discrete s (echoes_of C r.round1_broadcasted_packages o) ≡ true
      → with_echo r s o p ≡ r
  with_echo_again r s o p v original old =
      let echoes = echoes_of C r.round1_broadcasted_packages o in
      elim (Option-cases (get identifier_discrete s echoes)) [
        | inl missing ↦ absurd (ground arith)
        | inr (w, again) ↦
            let same : insert identifier_discrete s p echoes ≡ echoes =
              insert_same identifier_discrete s p echoes (
                again
                ∙ sym (Entries-get identifier_discrete _ s w echoes (echoes_faithful r o v) again)
                ∙ original) in
            ap (λ b. record r { round1_broadcasted_packages = b })
              (ap (λ m. insert identifier_discrete o m r.round1_broadcasted_packages) same
                ∙ insert_same identifier_discrete o echoes r.round1_broadcasted_packages
                    (echoes_of-some r.round1_broadcasted_packages s o w again))
      ]

  advance_broadcast-IsValid :
      (r : Round1Broadcast C) → Round1BroadcastInv C r → IsValid C (advance_broadcast C r)
  unfolding advance_broadcast
  advance_broadcast-IsValid r v =
      elim (Bool-cases (is_complete C r.round1_packages r.round1_broadcasted_packages)) [
        | inl complete ↦
            rw (complete, advance_broadcast)
              (record {
                packages = v.packages;
                all_packages = v.all_packages;
                distinct = tt;
                within = unfold keys_within in refl;
              })
        | inr more ↦ rw (more, advance_broadcast) v
      ]

  -- An echo that passes the checks is about a known participant other than this one and the sender,
  -- and is equal to the package of that participant.
  pub check_broadcast_passed :
      (r : Round1Broadcast C) (self s o : Identifier) (p : Round1Package)
      → check_broadcast C r self s o p ≡ none
      → (has_value identifier_discrete o r.pubkeys ≡ true)
        × (o ≢ self)
        × (o ≢ s)
        × (get identifier_discrete o r.round1_packages ≡ some p)
  unfolding check_broadcast
  check_broadcast_passed r self s o p h = (ground arith, ground arith, ground arith, ground arith)

  pub store_broadcast-Settles :
      (r : Round1Broadcast C) (s o : Identifier) (p : Round1Package)
      → Round1BroadcastInv C r
      → get identifier_discrete o r.round1_packages ≡ some p
      → Settles (IsValid C) (waiting_for_round1_packages_broadcast r) (store_broadcast C r s o p)
  unfolding store_broadcast
  store_broadcast-Settles r s o p v original =
      elim (Bool-cases
        (contains_key identifier_discrete s (echoes_of C r.round1_broadcasted_packages o))) [
          | inl old ↦
              rw (old, store_broadcast)
                (ap waiting_for_round1_packages_broadcast (with_echo_again r s o p v original old))
          | inr fresh ↦
              rw (fresh, store_broadcast)
                (advance_broadcast-IsValid (with_echo r s o p) (with_echo-Inv r s o p v original))
        ]
