-- ===== src/BluePallas/Laws.antt =====
-- What frost-bluepallas relies on of the curve and of frost-core.
use mina_multi_sig.Base.{[], ◌∷◌, true, false, ok, Option, none, some, ◌≡◌}
use mina_multi_sig.Map.{Map}
use mina_multi_sig.BluePallas.{FrostCrates, SigningCommitments, SigningPackage}

-- The group that the elements form, with the negation of the crates: an odd y-coordinate becomes even.
pub record GroupLaws (F : FrostCrates) : Type 0 where
  pub zero : F.Element
  pub generator : F.Element
  pub add : F.Element → F.Element → F.Element
  pub mul : F.Scalar → F.Element → F.Element
  pub neg_zero : F.neg_element zero ≡ zero
  pub neg_add :
      (a b : F.Element) → F.neg_element (add a b) ≡ add (F.neg_element a) (F.neg_element b)
  pub neg_mul : (k : F.Scalar) (a : F.Element) → F.neg_element (mul k a) ≡ mul k (F.neg_element a)
  pub mul_neg : (k : F.Scalar) (a : F.Element) → mul (F.neg_scalar k) a ≡ F.neg_element (mul k a)
  pub neg_is_zero : (a : F.Element) → F.is_zero (F.neg_element a) ≡ F.is_zero a
  pub neg_odd : (a : F.Element) → F.is_y_even a ≡ false → F.is_y_even (F.neg_element a) ≡ true

module _ (F : FrostCrates) (G : GroupLaws F) where
  -- The share of one signer in the group commitment: `D + rho E`.
  abbrev pub term : Option F.Scalar → SigningCommitments F.Element → F.Element
  term none c = G.zero
  term (some rho) c = G.add c.hiding (G.mul rho c.binding)

  abbrev pub total :
      (F.Identifier → Option F.Scalar) → Map F.Identifier (SigningCommitments F.Element) → F.Element
  total factor [] = G.zero
  total factor ((id, c) ∷ m) = G.add (term (factor id) c) (total factor m)

  -- Every signer has a binding factor, and no commitment is the identity.
  abbrev pub Usable :
      (F.Identifier → Option F.Scalar) → Map F.Identifier (SigningCommitments F.Element) → Type 0
  Usable factor [] = Unit
  Usable factor ((id, c) ∷ m) =
      ((rho : F.Scalar) × (factor id ≡ some rho))
      × (F.is_zero c.hiding ≡ false)
      × (F.is_zero c.binding ≡ false)
      × Usable factor m

  -- `compute_group_commitment` of frost-core: the sum over the signers, unless a commitment is the
  -- identity or a binding factor is missing.
  pub record CommitmentLaws : Type 0 where
    pub factor : F.BindingFactorList → F.Identifier → Option F.Scalar
    pub usable :
        (p : SigningPackage F.Identifier F.Element) (l : F.BindingFactorList)
        → Usable (factor l) p.signing_commitments
        → F.compute_group_commitment p l ≡ ok (total (factor l) p.signing_commitments)
    pub computed :
        (p : SigningPackage F.Identifier F.Element) (l : F.BindingFactorList) (e : F.Element)
        → F.compute_group_commitment p l ≡ ok e
        → Usable (factor l) p.signing_commitments
