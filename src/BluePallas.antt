-- ===== src/BluePallas.antt =====
-- frost-bluepallas/src/lib.rs and negate.rs: the Mina rule that the group commitment has an even
-- y-coordinate, which the signers and the coordinator enforce by negating what they hold, and the
-- bytes of group elements. The curve and frost-core are the interface `FrostCrates`.
pub mod Laws
pub mod Parity
pub mod Elements
pub mod Hasher
mod Tests
use mina_multi_sig.Base.{
  ℕ, List, [], ◌∷◌, Bool, true, false, Result, ok, err, ◌>>=◌, if◌then◌else◌, Option, none, some,
}
use mina_multi_sig.Map.{Map}
use mina_multi_sig.Text.{Bytes}

pub record SigningNonces (Scalar : Type 0) : Type 0 where
  pub hiding : Scalar
  pub binding : Scalar

pub record SigningCommitments (Element : Type 0) : Type 0 where
  pub hiding : Element
  pub binding : Element

pub record SigningPackage (Identifier Element : Type 0) : Type 0 where
  pub signing_commitments : Map Identifier (SigningCommitments Element)
  pub message : Bytes

-- The curve crates and frost-core. `is_y_even` is the test on the affine y-coordinate, and
-- `deserialize_compressed` gives `none` for bytes that are no point.
pub record FrostCrates : Type 1 where
  pub Scalar : Type 0
  pub Element : Type 0
  pub Identifier : Type 0
  pub identifier_discrete : Discrete Identifier
  pub BindingFactorList : Type 0
  pub FrostError : Type 0
  pub neg_scalar : Scalar → Scalar
  pub neg_element : Element → Element
  pub is_zero : Element → Bool
  pub is_y_even : Element → Bool
  pub serialize_compressed : Element → Option Bytes
  pub deserialize_compressed : Bytes → Option Element
  pub compute_group_commitment :
      SigningPackage Identifier Element → BindingFactorList → Result FrostError Element

pub data GroupError : Type 0 where
  invalid_identity_element : GroupError
  malformed_element : GroupError

module _ (F : FrostCrates) where
  open F use {Scalar, Element, Identifier, BindingFactorList, FrostError}

  -- `NegateY`
  abbrev pub negate_nonces : SigningNonces Scalar → SigningNonces Scalar
  negate_nonces n = record { hiding = F.neg_scalar n.hiding; binding = F.neg_scalar n.binding }

  abbrev pub negate_commitments : SigningCommitments Element → SigningCommitments Element
  negate_commitments c = record {
    hiding = F.neg_element c.hiding;
    binding = F.neg_element c.binding;
  }

  abbrev pub negate_entries :
      Map Identifier (SigningCommitments Element) → Map Identifier (SigningCommitments Element)
  negate_entries [] = []
  negate_entries ((id, commitment) ∷ m) = (id, negate_commitments commitment) ∷ negate_entries m

  abbrev pub negate_package : SigningPackage Identifier Element → SigningPackage Identifier Element
  negate_package p = record {
    signing_commitments = negate_entries p.signing_commitments;
    message = p.message;
  }

  unfoldable pub pre_commitment_aggregate :
      SigningPackage Identifier Element
      → BindingFactorList
      → Result FrostError (SigningPackage Identifier Element)
  pre_commitment_aggregate signing_package binding_factor_list =
      F.compute_group_commitment signing_package binding_factor_list >>= λ commit.
      if F.is_y_even commit then ok signing_package else ok (negate_package signing_package)

  unfoldable pub pre_commitment_sign :
      SigningPackage Identifier Element
      → SigningNonces Scalar
      → BindingFactorList
      → Result FrostError (SigningPackage Identifier Element × SigningNonces Scalar)
  pre_commitment_sign signing_package signing_nonces binding_factor_list =
      F.compute_group_commitment signing_package binding_factor_list >>= λ commit.
      if F.is_y_even commit
      then ok (signing_package, signing_nonces)
      else ok (negate_package signing_package, negate_nonces signing_nonces)

  -- `PallasGroup::serialize`
  unfoldable pub serialize_element : Element → Result GroupError Bytes
  serialize_element element =
      if F.is_zero element
      then err invalid_identity_element
      else elim (F.serialize_compressed element) [
        | none ↦ err malformed_element
        | some buf ↦ ok buf
      ]

  -- `PallasGroup::deserialize`
  unfoldable pub deserialize_element : Bytes → Result GroupError Element
  deserialize_element buf = elim (F.deserialize_compressed buf) [
    | none ↦ err malformed_element
    | some p ↦ if F.is_zero p then err invalid_identity_element else ok p
  ]
