-- ===== src/BluePallas/Tests.antt =====
-- The group of three elements with the scalars 1 and -1, run on concrete packages.
use mina_multi_sig.Base.{
  Bool-cases, inr, err-ne-ok, inl, ◌≢◌, Option-cases, ℕ, ◌≡◌, refl, sym, ap, true, false, not, Bool,
  Result, ok, err, Option, none, some, [], ◌∷◌, ◌++◌, ℕ_discrete, arith,
}
use mina_multi_sig.Map.{Map, get}
use mina_multi_sig.Text.{Bytes, ascii}
use mina_multi_sig.BluePallas.{
  FrostCrates, SigningNonces, SigningCommitments, SigningPackage, pre_commitment_sign,
}
use mina_multi_sig.BluePallas.Laws.{GroupLaws, CommitmentLaws, Usable, total}
use mina_multi_sig.BluePallas.Parity.{Agreed, Opens, pre_commitment_sign-Agreed}
use mina_multi_sig.BluePallas.Hasher.{HashCrates, h1, to_roinput}
use mina_multi_sig.BluePallas.Hasher.Injective.{to_roinput-injective, HashLaws, segments-injective}

data Three : Type 0 where
  z : Three
  p : Three
  q : Three

abbrev plus : Three → Three → Three
plus z b = b
plus p z = p
plus p p = q
plus p q = z
plus q z = q
plus q p = z
plus q q = p

abbrev minus : Three → Three
minus z = z
minus p = q
minus q = p

abbrev signed : Bool → Three → Three
signed true a = a
signed false a = minus a

abbrev is_z : Three → Bool
is_z z = true
is_z p = false
is_z q = false

abbrev even_three : Three → Bool
even_three z = true
even_three p = false
even_three q = true

abbrev sum_of : Map ℕ (SigningCommitments Three) → Option Three
sum_of [] = some z
sum_of ((id, c) ∷ m) = elim (sum_of m) [
  | none ↦ none
  | some t ↦ elim (is_z c.hiding) [
    | true ↦ none
    | false ↦ elim (is_z c.binding) [
      | true ↦ none
      | false ↦ some (plus (plus c.hiding c.binding) t)
    ]
  ]
]

abbrev or_err : Option Three → Result Unit Three
or_err none = err tt
or_err (some t) = ok t

abbrev threes : FrostCrates
threes = record {
  Scalar = Bool;
  Element = Three;
  Identifier = ℕ;
  identifier_discrete = ℕ_discrete;
  BindingFactorList = Unit;
  FrostError = Unit;
  neg_scalar = not;
  neg_element = minus;
  is_zero = is_z;
  is_y_even = even_three;
  serialize_compressed = λ t. none;
  deserialize_compressed = λ b. none;
  compute_group_commitment = λ m l. or_err (sum_of m.signing_commitments);
}

minus-plus : (a b : Three) → minus (plus a b) ≡ plus (minus a) (minus b)
minus-plus z b = refl
minus-plus p z = refl
minus-plus p p = refl
minus-plus p q = refl
minus-plus q z = refl
minus-plus q p = refl
minus-plus q q = refl

minus-minus : (a : Three) → minus (minus a) ≡ a
minus-minus z = refl
minus-minus p = refl
minus-minus q = refl

minus-signed : (k : Bool) (a : Three) → minus (signed k a) ≡ signed k (minus a)
minus-signed true a = refl
minus-signed false a = refl

signed-not : (k : Bool) (a : Three) → signed (not k) a ≡ minus (signed k a)
signed-not true a = refl
signed-not false a = sym (minus-minus a)

is_z-minus : (a : Three) → is_z (minus a) ≡ is_z a
is_z-minus z = refl
is_z-minus p = refl
is_z-minus q = refl

odd_minus : (a : Three) → even_three a ≡ false → even_three (minus a) ≡ true
odd_minus z h = refl
odd_minus p h = refl
odd_minus q h = absurd (cc)

abbrev threes-GroupLaws : GroupLaws threes
threes-GroupLaws = record {
  zero = z;
  generator = p;
  add = plus;
  mul = signed;
  neg_zero = refl;
  neg_add = minus-plus;
  neg_mul = minus-signed;
  mul_neg = signed-not;
  neg_is_zero = is_z-minus;
  neg_odd = odd_minus;
}

abbrev all_ones : ℕ → Option Bool
all_ones id = some true

sum_of-Usable :
    (m : Map ℕ (SigningCommitments Three))
    → Usable threes threes-GroupLaws all_ones m
    → sum_of m ≡ some (total threes threes-GroupLaws all_ones m)
sum_of-Usable [] u = refl
sum_of-Usable ((id, c) ∷ m) u = rw (sum_of-Usable m u.3, u.1, u.2) refl

sum_of-some :
    (m : Map ℕ (SigningCommitments Three)) (t : Three)
    → or_err (sum_of m) ≡ ok t
    → Usable threes threes-GroupLaws all_ones m
sum_of-some [] t e = tt
sum_of-some ((id, c) ∷ m) t e = elim (Option-cases (sum_of m)) [
  | inl failed ↦ absurd (err-ne-ok (rw failed at e))
  | inr (s, fine) ↦ elim (Bool-cases (is_z c.hiding)) [
    | inl identity ↦ absurd (err-ne-ok (rw (fine, identity) at e))
    | inr h ↦ elim (Bool-cases (is_z c.binding)) [
      | inl identity ↦ absurd (err-ne-ok (rw (fine, h, identity) at e))
      | inr b ↦ ((true, refl), h, b, sum_of-some m s (rw fine refl))
    ]
  ]
]

threes-CommitmentLaws : CommitmentLaws threes threes-GroupLaws
threes-CommitmentLaws = record {
  factor = λ l. all_ones;
  usable = λ p l u. ap or_err (sum_of-Usable p.signing_commitments u);
  computed = λ p l e c. sum_of-some p.signing_commitments e c;
}

-- The group commitment of the two signers is odd.
abbrev two_signers : SigningPackage ℕ Three
two_signers = record {
  signing_commitments =
      (1, record { hiding = p; binding = p }) ∷ (2, record { hiding = p; binding = p }) ∷ [];
  message = ascii "msg";
}

abbrev of_signer_2 : SigningNonces Bool
of_signer_2 = record { hiding = true; binding = true }

signer_2-Opens : Opens threes threes-GroupLaws of_signer_2 (record { hiding = p; binding = p })
signer_2-Opens = record { hiding = refl; binding = refl }

pre_commitment_sign-Agreed_example :
    (q : SigningPackage ℕ Three) × (m : SigningNonces Bool) × (pre_commitment_sign threes
        two_signers of_signer_2 tt
      ≡ ok (q, m))
    × Agreed threes threes-GroupLaws threes-CommitmentLaws two_signers tt 2 q m
unfolding get ℕ_discrete
pre_commitment_sign-Agreed_example =
    pre_commitment_sign-Agreed threes threes-GroupLaws threes-CommitmentLaws two_signers of_signer_2
      tt 2 (record { hiding = p; binding = p }) p refl refl signer_2-Opens

-- The signer negates its nonces.
negated :
    pre_commitment_sign threes two_signers of_signer_2 tt
    ≡ ok (
      record {
        signing_commitments =
            (1, record { hiding = q; binding = q }) ∷ (2, record { hiding = q; binding = q }) ∷ [];
        message = ascii "msg";
      },
      record { hiding = false; binding = false },
    )
unfolding pre_commitment_sign
negated = refl

abbrev plain : HashCrates
plain = record {
  RoInput = Bytes;
  Scalar = Bytes;
  new_roinput = [];
  append_bytes = λ r b. r ++ b;
  hash_to_fq = λ r. r;
  serialize_scalar = λ s. s;
}

plain-HashLaws : HashLaws plain
plain-HashLaws = record { appended = λ r. r; appended_new = refl; appended_append = λ r b. refl }

same_segments : (ascii "ab" ∷ ascii "c" ∷ []) ≡ (ascii "ab" ∷ ascii "c" ∷ [])
same_segments =
    to_roinput-injective plain plain-HashLaws (ascii "ab" ∷ ascii "c" ∷ [])
      (ascii "ab" ∷ ascii "c" ∷ []) (omega arith) (omega arith) (omega arith, (omega arith, tt))
      (omega arith, (omega arith, tt)) refl

segments-injective_example : (h1 ≡ h1) × (ascii "ab" ≡ ascii "ab")
segments-injective_example =
    segments-injective plain plain-HashLaws h1 h1 (ascii "ab") (ascii "ab") (omega arith)
      (omega arith) refl

-- Another division of the bytes is another input.
divisions :
    to_roinput plain (ascii "ab" ∷ ascii "c" ∷ []) ≢ to_roinput plain (ascii "a" ∷ ascii "bc" ∷ [])
unfolding to_roinput
divisions = cc
