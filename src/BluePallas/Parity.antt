-- ===== src/BluePallas/Parity.antt =====
-- Signers and coordinator end with the same signing package, whose group commitment has an even
-- y-coordinate, and each signer's nonces still open its commitments.
use mina_multi_sig.Base.{
  [], ◌∷◌, ◌≡◌, refl, sym, ap, ◌∙◌, true, Result, ok, err, Result-cases, Bool-cases, inl, inr,
  Option, none, some, ok-inj, arith, subst,
}
use mina_multi_sig.Map.{Map, get}
use mina_multi_sig.BluePallas.{
  FrostCrates, SigningNonces, SigningCommitments, SigningPackage, negate_nonces, negate_commitments,
  negate_entries, negate_package, pre_commitment_aggregate, pre_commitment_sign,
}
use mina_multi_sig.BluePallas.Laws.{GroupLaws, CommitmentLaws, Usable, total, term}

-- What a signer keeps and what the coordinator keeps of a result.
abbrev pub package_of : {E A B : Type 0} → Result E (A × B) → Result E A
package_of (ok r) = ok r.0
package_of (err e) = err e

module _ (F : FrostCrates) where
  -- The signer and the coordinator come to the same signing package, or to the same error.
  pub pre_commitment_agree :
      (p : SigningPackage F.Identifier F.Element) (n : SigningNonces F.Scalar)
      (l : F.BindingFactorList)
      → package_of (pre_commitment_sign F p n l) ≡ pre_commitment_aggregate F p l
  unfolding pre_commitment_sign pre_commitment_aggregate
  pre_commitment_agree p n l = elim (Result-cases (F.compute_group_commitment p l)) [
    | inr (e, failed) ↦ rw (failed, pre_commitment_sign, pre_commitment_aggregate) refl
    | inl (c, computed) ↦ elim (Bool-cases (F.is_y_even c)) [
      | inl even ↦ rw (computed, even, pre_commitment_sign, pre_commitment_aggregate) refl
      | inr odd ↦ rw (computed, odd, pre_commitment_sign, pre_commitment_aggregate) refl
    ]
  ]

  get-negate_entries :
      (id : F.Identifier) (c : SigningCommitments F.Element)
      (m : Map F.Identifier (SigningCommitments F.Element))
      → get F.identifier_discrete id m ≡ some c
      → get F.identifier_discrete id (negate_entries F m) ≡ some (negate_commitments F c)
  unfolding get
  get-negate_entries id c [] h = ground arith
  get-negate_entries id c ((j, d) ∷ m) h = ground (arith, get-negate_entries id c m)

  module _ (G : GroupLaws F) where
    -- The nonces are the discrete logarithms of the commitments.
    pub record Opens (n : SigningNonces F.Scalar) (c : SigningCommitments F.Element) : Type 0 where
      pub hiding : c.hiding ≡ G.mul n.hiding G.generator
      pub binding : c.binding ≡ G.mul n.binding G.generator

    negate-Opens :
        (n : SigningNonces F.Scalar) (c : SigningCommitments F.Element)
        → Opens n c
        → Opens (negate_nonces F n) (negate_commitments F c)
    negate-Opens n c o = record {
      hiding = ap F.neg_element o.hiding ∙ sym (G.mul_neg n.hiding G.generator);
      binding = ap F.neg_element o.binding ∙ sym (G.mul_neg n.binding G.generator);
    }

    term-negate :
        (rho : Option F.Scalar) (c : SigningCommitments F.Element)
        → term F G rho (negate_commitments F c) ≡ F.neg_element (term F G rho c)
    term-negate none c = sym G.neg_zero
    term-negate (some rho) c =
        ap (G.add (F.neg_element c.hiding)) (sym (G.neg_mul rho c.binding))
        ∙ sym (G.neg_add c.hiding (G.mul rho c.binding))

    total-negate :
        (factor : F.Identifier → Option F.Scalar)
        (m : Map F.Identifier (SigningCommitments F.Element))
        → total F G factor (negate_entries F m) ≡ F.neg_element (total F G factor m)
    total-negate factor [] = sym G.neg_zero
    total-negate factor ((id, c) ∷ m) =
        ap (λ t. G.add t (total F G factor (negate_entries F m))) (term-negate (factor id) c)
        ∙ ap (G.add (F.neg_element (term F G (factor id) c))) (total-negate factor m)
        ∙ sym (G.neg_add (term F G (factor id) c) (total F G factor m))

    negate-Usable :
        (factor : F.Identifier → Option F.Scalar)
        (m : Map F.Identifier (SigningCommitments F.Element))
        → Usable F G factor m
        → Usable F G factor (negate_entries F m)
    negate-Usable factor [] u = tt
    negate-Usable factor ((id, c) ∷ m) (known, h, b, rest) = (
      known,
      G.neg_is_zero c.hiding ∙ h,
      G.neg_is_zero c.binding ∙ b,
      negate-Usable factor m rest,
    )

    module _ (K : CommitmentLaws F G) where
      -- What a signer signs with: the coordinator has the same package, its group commitment has an
      -- even y-coordinate, the message is the one that was given, and the nonces open the commitments
      -- that the package has of the signer.
      pub record Agreed (p : SigningPackage F.Identifier F.Element) (l : F.BindingFactorList)
          (id : F.Identifier) (q : SigningPackage F.Identifier F.Element)
          (n : SigningNonces F.Scalar) : Type 0 where
        pub coordinator : pre_commitment_aggregate F p l ≡ ok q
        pub commitment : F.Element
        pub computed : F.compute_group_commitment q l ≡ ok commitment
        pub even : F.is_y_even commitment ≡ true
        pub message : q.message ≡ p.message
        pub own : SigningCommitments F.Element
        pub at_own : get F.identifier_discrete id q.signing_commitments ≡ some own
        pub opens : Opens n own

      -- If the group commitment can be computed and a signer's nonces open its commitments, then
      -- the signer does not fail, and what it signs with is agreed: the coordinator has the same
      -- package for the same message, its group commitment has an even y-coordinate, and the
      -- nonces open the commitments that the package has of the signer.
      pub pre_commitment_sign-Agreed :
          (p : SigningPackage F.Identifier F.Element) (n : SigningNonces F.Scalar)
          (l : F.BindingFactorList) (id : F.Identifier) (c : SigningCommitments F.Element)
          (e : F.Element)
          → F.compute_group_commitment p l ≡ ok e
          → get F.identifier_discrete id p.signing_commitments ≡ some c
          → Opens n c
          → (q : SigningPackage F.Identifier F.Element) × (m : SigningNonces F.Scalar)
            × (pre_commitment_sign F p n l ≡ ok (q, m))
            × Agreed p l id q m
      unfolding pre_commitment_sign pre_commitment_aggregate
      pre_commitment_sign-Agreed p n l id c e h at o = elim (Bool-cases (F.is_y_even e)) [
        | inl even ↦ (
          p,
          n,
          rw (h, even, pre_commitment_sign) refl,
          record {
            coordinator = rw (h, even, pre_commitment_aggregate) refl;
            commitment = e;
            computed = h;
            even = even;
            message = refl;
            own = c;
            at_own = at;
            opens = o;
          },
        )
        | inr odd ↦
            let u = K.computed p l e h in
            let m = p.signing_commitments in
            let is_total : e ≡ total F G (K.factor l) m = ok-inj (sym h ∙ K.usable p l u) in
            (
              negate_package F p,
              negate_nonces F n,
              rw (h, odd, pre_commitment_sign) refl,
              record {
                coordinator = rw (h, odd, pre_commitment_aggregate) refl;
                commitment = total F G (K.factor l) (negate_entries F m);
                computed = K.usable (negate_package F p) l (negate-Usable (K.factor l) m u);
                even =
                    subst (λ x. F.is_y_even x ≡ true)
                      (ap F.neg_element is_total ∙ sym (total-negate (K.factor l) m))
                      (G.neg_odd e odd);
                message = refl;
                own = negate_commitments F c;
                at_own = get-negate_entries id c m at;
                opens = negate-Opens n c o;
              },
            )
      ]
