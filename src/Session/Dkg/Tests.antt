-- ===== src/Session/Dkg/Tests.antt =====
-- The session of a DKG participant with two others, run on concrete messages.
use mina_multi_sig.Base.{ℕ, ◌≡◌, refl, [], ◌∷◌, ℕ_discrete, arith, done, fail}
use mina_multi_sig.Map.{Map, get, insert, keys_within, same_keys, has_value}
use mina_multi_sig.Session.Types.{PublicKey-discrete, Msg, broadcast_mismatch, duplicated_broadcast}
use mina_multi_sig.Session.Samples.{numbers, from, three}
use mina_multi_sig.Session.Coordinator.Invariant.{Settles}
use mina_multi_sig.Session.Dkg.{
  Round1Broadcast, Round2, recv, waiting_for_round1_packages, waiting_for_round1_packages_broadcast,
  waiting_for_round2_packages, handle_round1_package_broadcast, store_broadcast, check_broadcast,
}
use mina_multi_sig.Session.Dkg.Valid.{IsValid}
use mina_multi_sig.Session.Dkg.Invariant.{participant_recv-Settles}
use mina_multi_sig.Session.Dkg.Run.{exchange, EndsValid, exchange-start-EndsValid}
use mina_multi_sig.Session.Dkg.Agreement.{Echoed, echo_agreement}

abbrev packages : Map ℕ ℕ
packages = (3, 53) ∷ (2, 52) ∷ []

abbrev no_echoes : Round1Broadcast numbers
no_echoes = record { pubkeys = three; round1_packages = packages; round1_broadcasted_packages = [] }

abbrev one_echo : Round1Broadcast numbers
one_echo = record no_echoes { round1_broadcasted_packages = (3, (2, 53) ∷ []) ∷ [] }

abbrev echo_of_3 : Msg
echo_of_3 = from 12 (3 ∷ 53 ∷ [])

abbrev echo_of_2 : Msg
echo_of_2 = from 13 (2 ∷ 52 ∷ [])

one_echo-IsValid : IsValid numbers (waiting_for_round1_packages_broadcast one_echo)
unfolding get has_value ℕ_discrete
one_echo-IsValid = record {
  packages = record { distinct = (refl, (refl, tt)); known = (refl, (refl, tt)) };
  all_packages = refl;
  participants = omega arith;
  originals = (refl, tt);
  senders = ((refl, tt), tt);
  faithful = ((refl, tt), tt);
}

-- The same echo again is an error, and changes nothing.
echo_twice :
    recv numbers (waiting_for_round1_packages_broadcast one_echo) echo_of_3 1
    ≡ fail (waiting_for_round1_packages_broadcast one_echo) duplicated_broadcast
unfolding recv handle_round1_package_broadcast check_broadcast store_broadcast get insert has_value
    ℕ_discrete PublicKey-discrete
echo_twice = refl

-- An echo of another package than the one received is refused.
echo_of_another :
    recv numbers (waiting_for_round1_packages_broadcast no_echoes) (from 12 (3 ∷ 54 ∷ [])) 1
    ≡ fail (waiting_for_round1_packages_broadcast no_echoes) broadcast_mismatch
unfolding recv handle_round1_package_broadcast check_broadcast store_broadcast get insert has_value
    ℕ_discrete PublicKey-discrete
echo_of_another = refl

participant_recv-Settles_example :
    Settles
      (IsValid numbers)
      (waiting_for_round1_packages_broadcast one_echo)
      (recv numbers (waiting_for_round1_packages_broadcast one_echo) echo_of_3 1)
participant_recv-Settles_example =
    participant_recv-Settles numbers (waiting_for_round1_packages_broadcast one_echo) echo_of_3 1
      one_echo-IsValid

abbrev agreed : Round2 numbers
agreed = record { pubkeys = three; round1_packages = packages; round2_packages = [] }

both_echoes :
    exchange numbers
      (waiting_for_round1_packages_broadcast no_echoes)
      (echo_of_3 ∷ echo_of_2 ∷ [])
      1
    ≡ done (waiting_for_round2_packages agreed)
unfolding exchange recv handle_round1_package_broadcast check_broadcast store_broadcast get insert
    same_keys keys_within has_value ℕ_discrete PublicKey-discrete
both_echoes = refl

echo_agreement_example : Echoed numbers three 3 2 52 (echo_of_3 ∷ echo_of_2 ∷ [])
unfolding get ℕ_discrete
echo_agreement_example =
    echo_agreement numbers three packages (echo_of_3 ∷ echo_of_2 ∷ []) 1
      (waiting_for_round2_packages agreed) 3 2 52 53 both_echoes refl (omega arith) refl refl

strangers_end_valid : EndsValid numbers (
    exchange numbers
      (waiting_for_round1_packages (record { pubkeys = three; round1_packages = [] }))
      (from 12 (52 ∷ []) ∷ from 14 (54 ∷ []) ∷ [])
      1)
strangers_end_valid =
    exchange-start-EndsValid numbers three (from 12 (52 ∷ []) ∷ from 14 (54 ∷ []) ∷ []) 1
      (omega arith)
