-- ===== src/Session/Samples.antt =====
-- A ciphersuite of plain numbers and three participants, for the tests of the sessions.
use mina_multi_sig.Base.{ℕ, List, [], ◌∷◌, Option, none, some, ℕ_discrete}
use mina_multi_sig.Map.{Map}
use mina_multi_sig.Session.Types.{PublicKey, Msg, Ciphersuite}

abbrev pub read_one : List ℕ → Option ℕ
read_one [] = none
read_one (x ∷ xs) = some x

abbrev pub read_two : List ℕ → Option (ℕ × ℕ)
read_two (x ∷ y ∷ []) = some (x, y)
read_two _ = none

-- Numbers for identifiers and for what the messages hold, one number to a byte.
abbrev pub numbers : Ciphersuite
numbers = record {
  Identifier = ℕ;
  SigningCommitments = ℕ;
  SignatureShare = ℕ;
  Round1Package = ℕ;
  Round2Package = ℕ;
  identifier_discrete = ℕ_discrete;
  round1_package_discrete = ℕ_discrete;
  read_commitments = λ b. some b;
  read_signature_shares = λ b. some b;
  read_round1_package = read_one;
  read_round1_broadcast = read_two;
  read_round2_package = read_one;
}

abbrev pub from : ℕ → List ℕ → Msg
from k b = record { sender = k ∷ []; msg = b }

-- The keys 11, 12 and 13 of the participants 1, 2 and 3.
abbrev pub three : Map PublicKey ℕ
three = (11 ∷ [], 1) ∷ (12 ∷ [], 2) ∷ (13 ∷ [], 3) ∷ []
