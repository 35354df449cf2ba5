-- ===== src/Session/Coordinator/Tests.antt =====
-- The session of the coordinator with two signers, run on concrete messages.
use mina_multi_sig.Cipher.{decrypt, unknown_sender, snow_error}
use mina_multi_sig.Session.Coordinator.Receive.Refused.{IsShut, receive_messages_shut}
use mina_multi_sig.Cipher.Samples.{
  bad_number, numbered, numbered-SnowLaws, heard_one, heard_one-IsValid,
}
use mina_multi_sig.Session.Coordinator.Refinement.{Steps, collecting, nothing, view}
use mina_multi_sig.Session.Coordinator.Refinement.Simulation.{serve-new_refines}
use mina_multi_sig.Base.{
  true, ◌+◌, ℕ, ◌≡◌, refl, List, [], ◌∷◌, ◌++◌, some, ℕ_discrete, arith, length, get_elem?,
}
use mina_multi_sig.Map.{contains_key, Map, get, keys_within, has_value}
use mina_multi_sig.Session.Types.{PublicKey-discrete, Msg}
use mina_multi_sig.Session.Samples.{numbers, from, three}
use mina_multi_sig.Session.Coordinator.{
  CommitmentRound, waiting_for_commitments, CoordinatorSessionState, CoordinatorSessionStateArgs,
  ShareRound, SharesReady, new, recv, commitments, signature_shares, waiting_for_signature_shares,
  signature_shares_ready,
}
use mina_multi_sig.Session.Coordinator.Invariant.{IsValid, Settles, coordinator_recv-Settles}
use mina_multi_sig.Session.Coordinator.Run.{serve, serve-new-IsValid}
use mina_multi_sig.Session.Coordinator.Getters.{
  commitments_transpose, signature_shares_transpose, and_then,
}
use mina_multi_sig.Session.Coordinator.Receive.{Receiver, receive_messages}
use mina_multi_sig.Session.Coordinator.Receive.FirstKept.{first_commitments_kept, Keeps}
use mina_multi_sig.Session.Coordinator.Progress.{Sent, messages, serve_complete}

abbrev two_signers : CoordinatorSessionStateArgs
two_signers = record { num_messages = 1; num_signers = 2 }

abbrev sent : ℕ → ℕ → Sent numbers ℕ
sent k v = record { message = from (10 + k) (v ∷ []); identifier = k; content = v ∷ [] }

abbrev all_commitments : ShareRound numbers
all_commitments = record {
  args = two_signers;
  pubkeys = three;
  commitments = (1, 71 ∷ []) ∷ (3, 73 ∷ []) ∷ [];
  signature_shares = [];
}

abbrev all_shares : SharesReady numbers
all_shares = record { args = two_signers; signature_shares = (3, 93 ∷ []) ∷ (1, 91 ∷ []) ∷ [] }

all_commitments-IsValid : IsValid numbers (waiting_for_signature_shares all_commitments)
unfolding get keys_within has_value ℕ_discrete
all_commitments-IsValid = record {
  distinct = (refl, (refl, tt));
  rows = (refl, (refl, tt));
  known = (refl, (refl, tt));
  complete = refl;
  shares_distinct = tt;
  shares_rows = tt;
  shares_within = refl;
}

all_shares-IsValid : IsValid numbers (signature_shares_ready all_shares)
unfolding get ℕ_discrete
all_shares-IsValid = record {
  shares_distinct = (refl, (refl, tt));
  shares_rows = (refl, (refl, tt));
  shares_complete = refl;
}

abbrev late_commitment : Msg
late_commitment = from 12 (72 ∷ [])

coordinator_recv-Settles_example :
    Settles
      (IsValid numbers)
      (waiting_for_signature_shares all_commitments)
      (recv numbers (waiting_for_signature_shares all_commitments) late_commitment)
coordinator_recv-Settles_example =
    coordinator_recv-Settles numbers (waiting_for_signature_shares all_commitments) late_commitment
      all_commitments-IsValid

late_served :
    (t : CoordinatorSessionState numbers) × (serve numbers
        (new numbers 1 2 three)
        (late_commitment ∷ late_commitment ∷ [])
      ≡ some t)
    × IsValid numbers t
late_served =
    serve-new-IsValid numbers 1 2 three (late_commitment ∷ late_commitment ∷ []) (omega arith)

commitments_transpose_example :
    (cs : List (Map ℕ ℕ)) × (c : Map ℕ ℕ) × (commitments numbers
        (waiting_for_signature_shares all_commitments)
      ≡ some (cs, three))
    × (length cs ≡ 1)
    × (get_elem? cs 0 ≡ some c)
    × (get ℕ_discrete 3 c
        ≡ and_then (get ℕ_discrete 3 all_commitments.commitments) (λ v. get_elem? v 0))
commitments_transpose_example =
    commitments_transpose numbers all_commitments 0 3 all_commitments-IsValid (omega arith)

signature_shares_transpose_example :
    (cs : List (Map ℕ ℕ)) × (c : Map ℕ ℕ) × (signature_shares numbers
        (signature_shares_ready all_shares)
      ≡ some cs)
    × (length cs ≡ 1)
    × (get_elem? cs 0 ≡ some c)
    × (get ℕ_discrete 1 c
        ≡ and_then (get ℕ_discrete 1 all_shares.signature_shares) (λ v. get_elem? v 0))
signature_shares_transpose_example =
    signature_shares_transpose numbers all_shares 0 1 all_shares-IsValid (omega arith)

serve_complete_example :
    serve numbers (new numbers 1 2 three) (
      messages numbers (sent 1 71 ∷ sent 3 73 ∷ [])
      ++ messages numbers (sent 3 93 ∷ sent 1 91 ∷ []))
    ≡ some (signature_shares_ready all_shares)
unfolding get keys_within ℕ_discrete PublicKey-discrete
serve_complete_example =
    serve_complete numbers two_signers three (sent 1 71) (sent 3 73 ∷ []) (sent 3 93)
      (sent 1 91 ∷ [])
      (
        record { reads = refl; counts = refl; registered = refl },
        (record { reads = refl; counts = refl; registered = refl }, tt),
      )
      (
        record { reads = refl; counts = refl; registered = refl },
        (record { reads = refl; counts = refl; registered = refl }, tt),
      )
      refl refl (refl, (refl, tt)) (refl, (refl, tt)) refl

-- A cipher that leaves messages as they are.
abbrev heard_first : CommitmentRound numbers
heard_first = record { args = two_signers; pubkeys = three; commitments = (1, 71 ∷ []) ∷ [] }

abbrev heard : Receiver numbers numbered
heard = record {
  seen_senders = (11 ∷ [], tt) ∷ [];
  cipher = heard_one;
  state = waiting_for_commitments heard_first;
}

only_11 : (other : List ℕ) → get PublicKey-discrete other three ≡ some 1 → other ≡ 11 ∷ []
unfolding get
only_11 other h = ground arith

heard_11 : contains_key PublicKey-discrete (11 ∷ []) heard.seen_senders ≡ true
unfolding get PublicKey-discrete ℕ_discrete
heard_11 = refl

has_71 : get ℕ_discrete 1 heard_first.commitments ≡ some (71 ∷ [])
unfolding get ℕ_discrete
has_71 = refl

first_commitments_kept_example :
    (t : Receiver numbers numbered) × (receive_messages numbers numbered heard
        (from 11 (1 ∷ 79 ∷ []) ∷ from 13 (0 ∷ 73 ∷ []) ∷ [])
      ≡ some t)
    × Keeps numbers numbered three 1 (71 ∷ []) t.state
first_commitments_kept_example =
    first_commitments_kept numbers numbered numbered-SnowLaws heard heard_first (11 ∷ []) 1
      (71 ∷ []) (from 11 (1 ∷ 79 ∷ []) ∷ from 13 (0 ∷ 73 ∷ []) ∷ []) refl only_11 heard_11
      heard_one-IsValid has_71

-- The peer 13 has sent no first message, and 12 is no peer.
abbrev forged : List Msg
forged = from 13 (5 ∷ 79 ∷ []) ∷ from 12 (0 ∷ 79 ∷ []) ∷ []

unknown_12 : IsShut numbered heard_one (from 12 (0 ∷ 79 ∷ []))
unfolding decrypt get PublicKey-discrete ℕ_discrete
unknown_12 = record { error = unknown_sender; result = refl }

late_13 : IsShut numbered heard_one (from 13 (5 ∷ 79 ∷ []))
unfolding decrypt get PublicKey-discrete ℕ_discrete mina_multi_sig.Noise.read_message
    mina_multi_sig.Noise.after_handshake
late_13 = record { error = snow_error bad_number; result = refl }

receive_messages_shut_example :
    receive_messages numbers numbered heard (forged ++ from 13 (0 ∷ 73 ∷ []) ∷ [])
    ≡ receive_messages numbers numbered heard (from 13 (0 ∷ 73 ∷ []) ∷ [])
receive_messages_shut_example =
    receive_messages_shut numbers numbered numbered-SnowLaws heard forged
      (from 13 (0 ∷ 73 ∷ []) ∷ []) heard_one-IsValid (late_13, (unknown_12, tt))

serve-new_refines_example :
    (t : CoordinatorSessionState numbers) × (serve numbers
        (new numbers 1 2 three)
        (from 11 (71 ∷ []) ∷ late_commitment ∷ [])
      ≡ some t)
    × Steps numbers two_signers three
        (collecting (nothing numbers))
        (from 11 (71 ∷ []) ∷ late_commitment ∷ [])
        (view numbers t)
serve-new_refines_example =
    serve-new_refines numbers 1 2 three (from 11 (71 ∷ []) ∷ late_commitment ∷ [])
