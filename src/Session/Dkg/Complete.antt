-- ===== src/Session/Dkg/Complete.antt =====
-- What a complete echo broadcast holds.
use mina_multi_sig.Base.{
  ◌≡◌, ◌≢◌, ◌∙◌, refl, ap, true, Option, none, some, arith, &&-eq-true, is_some,
}
use mina_multi_sig.Map.{Map, get, insert, contains_key, keys_within, same_keys, key_set, all_values}
use mina_multi_sig.Map.Laws.{get-insert}
use mina_multi_sig.Map.Count.{keys_within-get}
use mina_multi_sig.Map.Entries.{all_entries-get, all_values-get, contains-key_set}
use mina_multi_sig.Session.Types.{Ciphersuite}
use mina_multi_sig.Session.Dkg.{is_original, is_validated, is_complete, echoes_of}

some_of : {A : Type 0} (o : Option A) → is_some o ≡ true → (a : A) × (o ≡ some a)
some_of none h = absurd (ground arith)
some_of (some a) h = (a, refl)

module _ (C : Ciphersuite) where
  open C use {
    Identifier, Round1Package, identifier_discrete, round1_package_discrete, read_round1_broadcast,
  }

  is_original-get :
      (packages : Map Identifier Round1Package) (o : Identifier) (p q : Round1Package)
      → is_original C packages o q ≡ true
      → get identifier_discrete o packages ≡ some p
      → q ≡ p
  unfolding is_original
  is_original-get packages o p q h e = ground arith

  is_validated-get :
      (packages echoes : Map Identifier Round1Package) (o s : Identifier) (p q : Round1Package)
      → is_validated C packages o echoes ≡ true
      → o ≢ s
      → get identifier_discrete o packages ≡ some p
      → get identifier_discrete s packages ≡ some q
      → get identifier_discrete s echoes ≡ some p
  unfolding is_validated same_keys
  is_validated-get packages echoes o s p q h ne fo fs =
      let all_senders = insert identifier_discrete o tt (key_set echoes) in
      let parts =
        &&-eq-true (same_keys identifier_discrete all_senders packages)
          (all_values (is_original C packages o) echoes) h in
      let values = parts.1 in
      let within : keys_within identifier_discrete packages all_senders ≡ true =
        (&&-eq-true (keys_within identifier_discrete all_senders packages) _ parts.0).1 in
      let inside : contains_key identifier_discrete s echoes ≡ true = ground (
        arith,
        keys_within-get identifier_discrete packages all_senders s q within fs,
        get-insert identifier_discrete o s tt (key_set echoes),
        contains-key_set identifier_discrete s echoes,
      ) in
      let (w, found) = some_of (get identifier_discrete s echoes) inside in
      found
      ∙ ap some (
          is_original-get packages o p w
            (all_values-get identifier_discrete (is_original C packages o) s w echoes values found)
            fo)

  -- When the broadcast is complete, each other participant has echoed the package of each other.
  pub is_complete-get :
      (packages : Map Identifier Round1Package) (b : Map Identifier (Map Identifier Round1Package))
      (o s : Identifier) (p q : Round1Package)
      → is_complete C packages b ≡ true
      → o ≢ s
      → get identifier_discrete o packages ≡ some p
      → get identifier_discrete s packages ≡ some q
      → get identifier_discrete s (echoes_of C b o) ≡ some p
  unfolding is_complete same_keys
  is_complete-get packages b o s p q h ne fo fs =
      let (keys, entries) = &&-eq-true _ _ h in
      let (echoes, found) =
        some_of (get identifier_discrete o b)
          (keys_within-get identifier_discrete packages b o p (&&-eq-true _ _ keys).1 fo) in
      let valid =
        all_entries-get identifier_discrete (is_validated C packages) o echoes b entries found in
      rw (found, echoes_of) (is_validated-get packages echoes o s p q valid ne fo fs)
