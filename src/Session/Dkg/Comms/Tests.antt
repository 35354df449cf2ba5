-- ===== src/Session/Dkg/Comms/Tests.antt =====
-- Runs of the loops of mina-frost-client/src/dkg/comms/http.rs.
use mina_multi_sig.Base.{ℕ, ◌≡◌, refl, [], ◌∷◌, some, refused, arith, ℕ_discrete}
use mina_multi_sig.Text.{Bytes}
use mina_multi_sig.Map.{Map, get, insert}
use mina_multi_sig.Noise.{Snow}
use mina_multi_sig.Cipher.{encrypt, encrypt_to, zeros, unknown_recipient}
use mina_multi_sig.Cipher.Samples.{numbered, numbered-SnowLaws, heard_one, heard_one-IsValid}
use mina_multi_sig.Session.Types.{PublicKey-discrete}
use mina_multi_sig.Session.Samples.{numbers, from, three}
use mina_multi_sig.Session.Dkg.{
  waiting_for_round1_packages, has_round1_packages, has_round1_broadcast_packages,
  has_round2_packages,
}
use mina_multi_sig.Session.Dkg.Comms.{Link, receive_round1, receive_broadcasts, receive_round2}
use mina_multi_sig.Session.Dkg.Comms.Ends.{IsReady, EndsWell, rounds_end_well}
use mina_multi_sig.Session.Dkg.Comms.Sends.{
  Sent, round1_sends, echoes_to, broadcast_sends, send_all, broadcast_sends-Sent,
}

abbrev started : Link numbers numbered
started = record {
  cipher = heard_one;
  state = waiting_for_round1_packages (record { pubkeys = three; round1_packages = [] });
}

started-IsReady : IsReady numbers numbered started
started-IsReady = record {
  cipher = heard_one-IsValid;
  state = record { packages = record { distinct = tt; known = tt }; open_places = omega arith };
}

three_loops :
    EndsWell numbers numbered
      (has_round1_packages numbers)
      started.state
      1
      (receive_round1 numbers numbered started 2 (([] ∷ ((from 11 (1 ∷ 52 ∷ [])) ∷ []) ∷ [])))
    × EndsWell numbers numbered
        (has_round1_broadcast_packages numbers)
        started.state
        1
        (receive_broadcasts numbers numbered started 2 (([] ∷ ((from 11 (1 ∷ 52 ∷ [])) ∷ []) ∷ [])))
    × EndsWell numbers numbered
        (has_round2_packages numbers)
        started.state
        1
        (receive_round2 numbers numbered started 2 (([] ∷ ((from 11 (1 ∷ 52 ∷ [])) ∷ []) ∷ [])))
unfolding receive_round1 receive_broadcasts receive_round2
    mina_multi_sig.Session.Dkg.Comms.receive_until mina_multi_sig.Session.Dkg.Comms.receive_batch
    mina_multi_sig.Session.Dkg.Comms.receive_msg mina_multi_sig.Cipher.decrypt
    mina_multi_sig.Map.get mina_multi_sig.Session.Types.PublicKey-discrete
    mina_multi_sig.Base.ℕ_discrete mina_multi_sig.Noise.read_message mina_multi_sig.Session.Dkg.recv
    mina_multi_sig.Session.Dkg.handle_round1_package mina_multi_sig.Session.Dkg.store_round1_package
    mina_multi_sig.Map.insert
three_loops =
    rounds_end_well numbers numbered numbered-SnowLaws started 2
      ([] ∷ (from 11 (1 ∷ 52 ∷ []) ∷ []) ∷ []) started-IsReady

abbrev write_pair : ℕ → ℕ → Bytes
write_pair sender pkg = sender ∷ pkg ∷ []

abbrev two_packages : Map ℕ ℕ
two_packages = (1, 51) ∷ (3, 53) ∷ []

broadcast_sends-Sent_example :
    Sent numbers write_pair
      (13 ∷ [])
      (1 ∷ 51 ∷ [])
      (broadcast_sends numbers write_pair (some (12 ∷ [])) two_packages three)
unfolding get ℕ_discrete PublicKey-discrete
broadcast_sends-Sent_example =
    broadcast_sends-Sent numbers write_pair (some (12 ∷ [])) two_packages three (13 ∷ []) 3 1 51
      refl refl refl (λ e. absurd (ground (arith, e)))

to_13_and_11 :
    broadcast_sends numbers write_pair (some (12 ∷ [])) two_packages three
    ≡ (11 ∷ [], 3 ∷ 53 ∷ []) ∷ (13 ∷ [], 1 ∷ 51 ∷ []) ∷ []
unfolding broadcast_sends echoes_to ℕ_discrete PublicKey-discrete
to_13_and_11 = refl

round1_to_13_and_11 :
    round1_sends numbers (some (12 ∷ [])) (52 ∷ []) three
    ≡ (11 ∷ [], 52 ∷ []) ∷ (13 ∷ [], 52 ∷ []) ∷ []
unfolding round1_sends ℕ_discrete PublicKey-discrete
round1_to_13_and_11 = refl

second_unknown :
    (send_all numbered heard_one ((11 ∷ [], 52 ∷ []) ∷ (14 ∷ [], 52 ∷ []) ∷ [])).1
    ≡ refused unknown_recipient
unfolding send_all encrypt encrypt_to zeros get insert PublicKey-discrete ℕ_discrete
    mina_multi_sig.Noise.write_message mina_multi_sig.Noise.after_handshake
second_unknown = refl
