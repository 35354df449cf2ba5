-- ===== src/PallasMessage/Tests.antt =====
-- Runs of `mina-tx/src/pallas_message.rs`, with an input that is its own bytes.
use mina_multi_sig.Base.{◌≡◌, refl, true, [], ◌∷◌, some, ok, returned, panicked, refused, arith}
use mina_multi_sig.Text.{Bytes, ascii, is_utf8}
use mina_multi_sig.NetworkId.{custom}
use mina_multi_sig.PallasMessage.{RoInputCodec, PallasMessage, serialize, deserialize}
use mina_multi_sig.PallasMessage.{too_short}
use mina_multi_sig.PallasMessage.RoundTrip.{pallas_deserialize-serialize}
use mina_multi_sig.PallasMessage.Faults.{Truncated-panics, deserialize-panics, Truncated}

abbrev plain : RoInputCodec
plain = record { ROInput = Bytes; write = λ i. i; read = λ b. some b }

abbrev message : PallasMessage plain
message = record { input = 7 ∷ 8 ∷ 9 ∷ []; network_id = custom (ascii "lab"); is_legacy = true }

abbrev message_bytes : Bytes
message_bytes = 1 ∷ 2 ∷ 3 ∷ 108 ∷ 97 ∷ 98 ∷ 1 ∷ 3 ∷ 0 ∷ 0 ∷ 0 ∷ 7 ∷ 8 ∷ 9 ∷ []

message-serialize : serialize plain message ≡ ok message_bytes
unfolding serialize mina_multi_sig.PallasMessage.network_bytes
message-serialize = refl

lab_is_utf8 : is_utf8 (ascii "lab") ≡ true
unfolding is_utf8
lab_is_utf8 = refl

cut_short : deserialize plain (1 ∷ 0 ∷ 0 ∷ 5 ∷ []) ≡ refused too_short
unfolding deserialize mina_multi_sig.PallasMessage.read_network
    mina_multi_sig.PallasMessage.read_flag mina_multi_sig.PallasMessage.read_body
cut_short = refl

pallas_deserialize-serialize_example : deserialize plain message_bytes ≡ returned message
pallas_deserialize-serialize_example =
    pallas_deserialize-serialize plain message message_bytes lab_is_utf8 refl (omega arith)
      message-serialize

Truncated-panics_example : deserialize plain (1 ∷ 2 ∷ 3 ∷ 108 ∷ 97 ∷ 98 ∷ []) ≡ panicked
Truncated-panics_example =
    Truncated-panics plain (1 ∷ 2 ∷ 3 ∷ 108 ∷ 97 ∷ 98 ∷ [])
      (refl, refl, refl, omega arith, lab_is_utf8)

empty_name : deserialize plain (1 ∷ 2 ∷ 0 ∷ []) ≡ panicked
unfolding deserialize is_utf8 mina_multi_sig.PallasMessage.read_network
    mina_multi_sig.PallasMessage.read_custom mina_multi_sig.PallasMessage.read_flag
empty_name = refl

deserialize-panics_example : Truncated (1 ∷ 2 ∷ 0 ∷ [])
deserialize-panics_example = deserialize-panics plain (1 ∷ 2 ∷ 0 ∷ []) empty_name
