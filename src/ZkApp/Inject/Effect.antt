-- ===== src/ZkApp/Inject/Effect.antt =====
-- Which account updates the injection changes, and how.
use mina_multi_sig.Base.{
  ℕ, zero, suc, ◌≡◌, ◌≢◌, ◌⊎◌, ◌∙◌, refl, Bool, true, false, ◌&&◌, List, [], ◌∷◌, some, Bool-cases,
  &&-eq-true, subst, if◌then◌else◌, inl, inr, arith, get_elem?, ite,
}
use mathlib.Core.Option.{some-injective}
use mina_multi_sig.Text.{Bytes}
use mina_multi_sig.ZkApp.Types.{Mina, AccountUpdate, ZkAppCommand}
use mina_multi_sig.ZkApp.Inject.{
  inject_signature, inject_account_update_signatures, inject_fee_payer_signature,
  should_inject_signature, same_key, with_signature,
}

holds_of_ite : {P : Type 0} (d : Dec P) → ite d true false ≡ true → P
holds_of_ite (yes p) h = p
holds_of_ite (no n) h = absurd (ground arith)

ite_of_holds : {P : Type 0} (d : Dec P) → P → ite d true false ≡ true
ite_of_holds (yes p) h = refl
ite_of_holds (no n) h = absurd (n h)

true_not_false : (b : Bool) → b ≡ true → b ≡ false → ⊥
true_not_false b h g = ground (arith, h, g)

module _ (M : Mina) where
  -- A signed account update of the group's key that uses the full commitment.
  pub record Qualifies (u : AccountUpdate M) (key : M.CompressedPubKey) : Type 0 where
    pub signed : u.body.authorization_kind.is_signed ≡ true
    pub ours : u.body.public_key ≡ key
    pub full : u.body.use_full_commitment ≡ true

  -- What becomes of an account update.
  pub record Injected (u : AccountUpdate M) (key : M.CompressedPubKey) (sig : Bytes)
      (v : AccountUpdate M) : Type 0 where
    pub same_body : v.body ≡ u.body
    pub same_proof : v.authorization.proof ≡ u.authorization.proof
    pub signature_put :
        (Qualifies u key × (v.authorization.signature ≡ some sig)) ⊎ ((¬ Qualifies u key) × (v ≡ u))

  should_inject-Qualifies :
      (u : AccountUpdate M) (key : M.CompressedPubKey)
      → Qualifies u key
      → should_inject_signature M u key ≡ true
  unfolding should_inject_signature
  should_inject-Qualifies u key q =
      rw q.signed (ite_of_holds (M.pub_key_discrete u.body.public_key key) q.ours)

  should_inject_signature-Qualifies :
      (u : AccountUpdate M) (key : M.CompressedPubKey)
      → should_inject_signature M u key ≡ true
      → u.body.use_full_commitment ≡ true
      → Qualifies u key
  unfolding should_inject_signature
  should_inject_signature-Qualifies u key h full =
      let (signed, same) =
        &&-eq-true u.body.authorization_kind.is_signed (same_key M u.body.public_key key) h in
      record {
        signed = signed;
        ours = holds_of_ite (M.pub_key_discrete u.body.public_key key) same;
        full = full;
      }

  kept :
      (u : AccountUpdate M) (key : M.CompressedPubKey) (sig : Bytes)
      → ¬ Qualifies u key
      → Injected u key sig u
  kept u key sig n = record { same_body = refl; same_proof = refl; signature_put = inr (n, refl) }

  put :
      (u : AccountUpdate M) (key : M.CompressedPubKey) (sig : Bytes)
      → Qualifies u key
      → Injected u key sig (with_signature M u sig)
  put u key sig q = record { same_body = refl; same_proof = refl; signature_put = inl (q, refl) }

  -- The account update after the loop, by its two tests.
  abbrev placed : Bool → Bool → AccountUpdate M → Bytes → AccountUpdate M
  placed true true u sig = with_signature M u sig
  placed true false u sig = u
  placed false full u sig = u

  placed-Injected :
      (a b : Bool) (u : AccountUpdate M) (key : M.CompressedPubKey) (sig : Bytes)
      → should_inject_signature M u key ≡ a
      → u.body.use_full_commitment ≡ b
      → Injected u key sig (placed a b u sig)
  placed-Injected true true u key sig ours full =
      put u key sig (should_inject_signature-Qualifies u key ours full)
  placed-Injected true false u key sig ours partial =
      kept u key sig (λ q. true_not_false _ q.full partial)
  placed-Injected false b u key sig other full =
      kept u key sig (λ q. true_not_false _ (should_inject-Qualifies u key q) other)

  inject-placed :
      (index : ℕ) (u : AccountUpdate M) (us : List (AccountUpdate M)) (key : M.CompressedPubKey)
      (sig : Bytes)
      → (inject_account_update_signatures M index (u ∷ us) key sig).0
        ≡ placed (should_inject_signature M u key) u.body.use_full_commitment u sig
          ∷ (inject_account_update_signatures M (suc index) us key sig).0
  unfolding inject_account_update_signatures
  inject-placed index u us key sig = ground arith

  get_elem?-Injected :
      (us : List (AccountUpdate M)) (index i : ℕ) (key : M.CompressedPubKey) (sig : Bytes)
      (u : AccountUpdate M)
      → get_elem? us i ≡ some u
      → (v : AccountUpdate M) × (get_elem? (inject_account_update_signatures M index us key sig).0 i
          ≡ some v)
        × Injected u key sig v
  get_elem?-Injected [] index i key sig u h = absurd (ground arith)
  get_elem?-Injected (w ∷ us) index (suc i) key sig u h =
      rw (inject-placed index w us key sig) (get_elem?-Injected us (suc index) i key sig u h)
  get_elem?-Injected (w ∷ us) index zero key sig u h = rw (inject-placed index w us key sig) (
    placed (should_inject_signature M w key) w.body.use_full_commitment w sig,
    refl,
    subst
        (λ t.
          Injected t key sig
            (placed (should_inject_signature M w key) w.body.use_full_commitment w sig))
        (some-injective w u h) (placed-Injected _ _ w key sig refl refl),
  )

  -- Each account update keeps its place, its body and its proof. It gets the signature if it is
  -- signed, of the group's key, and uses the full commitment, and else it is left as it was.
  pub inject_signature-Injected :
      (tx : ZkAppCommand M) (key : M.CompressedPubKey) (sig : Bytes) (i : ℕ) (u : AccountUpdate M)
      → get_elem? tx.account_updates i ≡ some u
      → (v : AccountUpdate M) × (get_elem? (inject_signature M tx key sig).0.account_updates i
          ≡ some v)
        × Injected u key sig v
  unfolding inject_signature
  inject_signature-Injected tx key sig i u h = get_elem?-Injected tx.account_updates 0 i key sig u h

  -- The count of the updates that qualify.
  abbrev pub qualifying : List (AccountUpdate M) → M.CompressedPubKey → ℕ
  qualifying [] key = 0
  qualifying (u ∷ us) key =
      if u.body.use_full_commitment && should_inject_signature M u key
      then suc (qualifying us key)
      else qualifying us key

  inject_count :
      (us : List (AccountUpdate M)) (index : ℕ) (key : M.CompressedPubKey) (sig : Bytes)
      → (inject_account_update_signatures M index us key sig).1 ≡ qualifying us key
  unfolding inject_account_update_signatures
  inject_count [] index key sig = refl
  inject_count (u ∷ us) index key sig = ground (arith, inject_count us (suc index) key sig)

  -- The fee payer gets the signature if its key is the group's, and else it is left as it was.
  abbrev pub FeePayerSettled :
      ZkAppCommand M → M.CompressedPubKey → Bytes → ZkAppCommand M → Bool → Type 0
  FeePayerSettled tx key sig after injected =
      ((injected ≡ true)
        × (tx.fee_payer.body.public_key ≡ key)
        × (after.fee_payer.body ≡ tx.fee_payer.body)
        × (after.fee_payer.authorization ≡ sig))
      ⊎ ((injected ≡ false)
          × (tx.fee_payer.body.public_key ≢ key)
          × (after.fee_payer ≡ tx.fee_payer))

  -- The result counts the account updates that are signed, of the group's key, and use the full
  -- commitment, and says whether the fee payer was signed: it gets the signature if its key is the
  -- group's, and else it is left as it was.
  pub inject_signature-result :
      (tx : ZkAppCommand M) (key : M.CompressedPubKey) (sig : Bytes)
      → ((inject_signature M tx key sig).1.account_updates_injected
          ≡ qualifying tx.account_updates key)
        × FeePayerSettled tx key sig
            (inject_signature M tx key sig).0
            (inject_signature M tx key sig).1.fee_payer_injected
  unfolding inject_signature inject_fee_payer_signature
  inject_signature-result tx key sig = (
    inject_count tx.account_updates 0 key sig,
    elim (Bool-cases (same_key M tx.fee_payer.body.public_key key)) [
      | inl ours ↦
          rw (ours, inject_fee_payer_signature)
            (inl (
              refl,
              holds_of_ite (M.pub_key_discrete tx.fee_payer.body.public_key key) ours,
              refl,
              refl,
            ))
      | inr other ↦
          rw (other, inject_fee_payer_signature)
            (inr (
              refl,
              λ e.
                  true_not_false _
                    (ite_of_holds (M.pub_key_discrete tx.fee_payer.body.public_key key) e) other,
              refl,
            ))
    ],
  )

  placed_again :
      (a b : Bool) (u : AccountUpdate M) (key : M.CompressedPubKey) (sig : Bytes)
      → placed a b (placed a b u sig) sig ≡ placed a b u sig
  placed_again true true u key sig = refl
  placed_again true false u key sig = refl
  placed_again false b u key sig = refl

  placed-tests :
      (a b : Bool) (u : AccountUpdate M) (key : M.CompressedPubKey) (sig : Bytes)
      → (should_inject_signature M (placed a b u sig) key ≡ should_inject_signature M u key)
        × ((placed a b u sig).body.use_full_commitment ≡ u.body.use_full_commitment)
  unfolding should_inject_signature
  placed-tests true true u key sig = (refl, refl)
  placed-tests true false u key sig = (refl, refl)
  placed-tests false b u key sig = (refl, refl)

  inject_again :
      (us : List (AccountUpdate M)) (index : ℕ) (key : M.CompressedPubKey) (sig : Bytes)
      → (inject_account_update_signatures M index
          (inject_account_update_signatures M index us key sig).0
          key
          sig).0
        ≡ (inject_account_update_signatures M index us key sig).0
  unfolding inject_account_update_signatures
  inject_again [] index key sig = refl
  inject_again (u ∷ us) index key sig =
      let a = should_inject_signature M u key in
      let b = u.body.use_full_commitment in
      let (t, f) = placed-tests a b u key sig in
      rw (inject-placed index u us key sig) (
        inject-placed index (placed a b u sig) _ key sig
        ∙ cc (t, f, placed_again a b u key sig, inject_again us (suc index) key sig))

  -- Putting the same signature in twice is putting it in once.
  pub inject_signature_twice :
      (tx : ZkAppCommand M) (key : M.CompressedPubKey) (sig : Bytes)
      → (inject_signature M (inject_signature M tx key sig).0 key sig).0
        ≡ (inject_signature M tx key sig).0
  unfolding inject_signature inject_fee_payer_signature
  inject_signature_twice tx key sig =
      elim (Bool-cases (same_key M tx.fee_payer.body.public_key key)) [
        | inl ours ↦ cc (ours, inject_again tx.account_updates 0 key sig)
        | inr other ↦ cc (other, inject_again tx.account_updates 0 key sig)
      ]
