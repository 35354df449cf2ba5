-- ===== src/Session/Dkg/Valid.antt =====
-- What every state of a DKG participant satisfies, and the transitions of rounds 1 and 2.
use mina_multi_sig.Base.{
  ◌-◌, suc, ◌<◌, ◌≡◌, refl, true, some, length, ◌==◌, inl, inr, arith, Bool-cases, ltb,
}
use mina_multi_sig.Map.{Map, get, insert, contains_key, keys_within, same_keys, Distinct, has_value}
use mina_multi_sig.Map.Laws.{insert-Distinct}
use mina_multi_sig.Map.Count.{length-insert-le, same_keys-length}
use mina_multi_sig.Map.Entries.{Entries, Entries-insert, keys_within-insert, has_value-get}
use mina_multi_sig.Session.Types.{PublicKey, PublicKey-discrete, Ciphersuite}
use mina_multi_sig.Session.Dkg.{
  DkgSessionState, waiting_for_round1_packages, waiting_for_round1_packages_broadcast,
  waiting_for_round2_packages, round2_packages_ready, Round1, Round1Broadcast, Round2, Round2Ready,
  after_round1, store_round1_package, store_round2_package,
}
use mina_multi_sig.Session.Coordinator.Invariant.{Settles}

module _ (C : Ciphersuite) where
  open C use {
    Identifier, Round1Package, Round2Package, identifier_discrete, round1_package_discrete,
  }

  -- The public keys of all participants, this one included, with the packages of some of them.
  pub record PackagesInv (pubkeys : Map PublicKey Identifier)
      (packages : Map Identifier Round1Package) : Type 0 where
    pub distinct : Distinct identifier_discrete packages
    pub known : Entries (λ k _. has_value identifier_discrete k pubkeys ≡ true) packages

  -- Each echo is equal to the package of its original sender.
  abbrev pub Faithful :
      Map Identifier Round1Package → Map Identifier (Map Identifier Round1Package) → Type 0
  Faithful packages = Entries (λ original echoes.
      Entries (λ sender p. get identifier_discrete original packages ≡ some p) echoes)

  pub record Round1Inv (r : Round1 C) : Type 0 where
    pub packages : PackagesInv r.pubkeys r.round1_packages
    pub open_places : suc (length r.round1_packages) < length r.pubkeys

  pub record Round1BroadcastInv (r : Round1Broadcast C) : Type 0 where
    pub packages : PackagesInv r.pubkeys r.round1_packages
    pub all_packages : suc (length r.round1_packages) ≡ length r.pubkeys
    pub participants : 2 < length r.pubkeys
    pub originals : Distinct identifier_discrete r.round1_broadcasted_packages
    pub senders :
        Entries (λ _ echoes. Distinct identifier_discrete echoes) r.round1_broadcasted_packages
    pub faithful : Faithful r.round1_packages r.round1_broadcasted_packages

  pub record Round2Inv (r : Round2 C) : Type 0 where
    pub packages : PackagesInv r.pubkeys r.round1_packages
    pub all_packages : suc (length r.round1_packages) ≡ length r.pubkeys
    pub distinct : Distinct identifier_discrete r.round2_packages
    pub within : keys_within identifier_discrete r.round2_packages r.round1_packages ≡ true

  pub record Round2ReadyInv (r : Round2Ready C) : Type 0 where
    pub distinct : Distinct identifier_discrete r.round2_packages
    pub all_packages : suc (length r.round2_packages) ≡ length r.pubkeys

  abbrev pub IsValid : DkgSessionState C → Type 0
  IsValid (waiting_for_round1_packages r) = Round1Inv r
  IsValid (waiting_for_round1_packages_broadcast r) = Round1BroadcastInv r
  IsValid (waiting_for_round2_packages r) = Round2Inv r
  IsValid (round2_packages_ready r) = Round2ReadyInv r

  pub after_round1-IsValid :
      (pubkeys : Map PublicKey Identifier) (packages : Map Identifier Round1Package)
      → PackagesInv pubkeys packages
      → suc (length packages) ≡ length pubkeys
      → IsValid (after_round1 C pubkeys packages)
  unfolding after_round1
  after_round1-IsValid pubkeys packages v full = elim (Bool-cases (ltb 2 (length pubkeys))) [
    | inl many ↦ rw many (record {
      packages = v;
      all_packages = full;
      participants = ground arith;
      originals = tt;
      senders = tt;
      faithful = tt;
    })
    | inr two ↦ rw two (record {
      packages = v;
      all_packages = full;
      distinct = tt;
      within = unfold keys_within in refl;
    })
  ]

  pub store_round1_package-Settles :
      (r : Round1 C) (pubkey : PublicKey) (i : Identifier) (p : Round1Package)
      → Round1Inv r
      → get PublicKey-discrete pubkey r.pubkeys ≡ some i
      → Settles IsValid (waiting_for_round1_packages r) (store_round1_package C r i p)
  unfolding store_round1_package
  store_round1_package-Settles r pubkey i p v known =
      let others : length r.pubkeys ≡ suc (length r.pubkeys - 1) = omega arith in
      elim (Bool-cases
        (length (insert identifier_discrete i p r.round1_packages) == length r.pubkeys - 1)) [
          | inl full ↦
              rw (others, store_round1_package, full)
                (after_round1-IsValid r.pubkeys (insert identifier_discrete i p r.round1_packages)
                  packages (ground (arith, others)))
          | inr more ↦
              rw (others, store_round1_package, more)
                (record {
                  packages = packages;
                  open_places =
                      ground (arith, length-insert-le identifier_discrete i p r.round1_packages);
                })
        ]
    where
      packages : PackagesInv r.pubkeys (insert identifier_discrete i p r.round1_packages)
      packages = record {
        distinct = insert-Distinct identifier_discrete i p r.round1_packages v.packages.distinct;
        known =
            Entries-insert identifier_discrete _ i p r.round1_packages
              (has_value-get PublicKey-discrete identifier_discrete pubkey i r.pubkeys known)
              v.packages.known;
      }

  pub store_round2_package-IsValid :
      (r : Round2 C) (i : Identifier) (p : Round2Package)
      → Round2Inv r
      → contains_key identifier_discrete i r.round1_packages ≡ true
      → IsValid (store_round2_package C r i p)
  unfolding store_round2_package
  store_round2_package-IsValid r i p v inside =
      elim (Bool-cases (
        same_keys identifier_discrete (insert identifier_discrete i p r.round2_packages)
          r.round1_packages)) [
            | inl full ↦ rw full (record {
              distinct = distinct;
              all_packages = omega (
                arith,
                v.all_packages,
                same_keys-length identifier_discrete
                    (insert identifier_discrete i p r.round2_packages) r.round1_packages distinct
                    v.packages.distinct full,
              );
            })
            | inr more ↦ rw more (record {
              packages = v.packages;
              all_packages = v.all_packages;
              distinct = distinct;
              within =
                  keys_within-insert identifier_discrete i p r.round2_packages r.round1_packages
                    inside v.within;
            })
          ]
    where
      distinct : Distinct identifier_discrete (insert identifier_discrete i p r.round2_packages)
      distinct = insert-Distinct identifier_discrete i p r.round2_packages v.distinct
