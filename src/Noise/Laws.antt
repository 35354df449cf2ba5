-- ===== src/Noise/Laws.antt =====
-- What cipher.rs relies on of the snow crate.
use mina_multi_sig.Base.{List, ℕ, ◌≡◌, true, false, Result, ok, err, ◌+◌, ◌≤◌, length, take}
use mina_multi_sig.Noise.{Call, Snow}

-- What a call writes to an output buffer.
abbrev pub written : {A E : Type 0} → Call A (Result E ℕ) → List ℕ
written c = elim c.result [ ok n ↦ take n c.buffer | err e ↦ c.buffer ]

-- A finished handshake turns into a transport state, a handshake does not start finished, and a call
-- that fails leaves the state object as it was.
pub record SnowLaws (S : Snow) : Type 0 where
  pub into_transport_mode_finished :
      (h : S.HandshakeState)
      → S.is_handshake_finished h ≡ true
      → (t : S.TransportState) × (S.into_transport_mode h ≡ ok t)
  pub build_initiator_unfinished :
      (sk pk : List ℕ) (h : S.HandshakeState)
      → S.build_initiator sk pk ≡ ok h
      → S.is_handshake_finished h ≡ false
  pub build_responder_unfinished :
      (sk pk : List ℕ) (h : S.HandshakeState)
      → S.build_responder sk pk ≡ ok h
      → S.is_handshake_finished h ≡ false
  pub read_first_fails :
      (h : S.HandshakeState) (p b : List ℕ) (e : S.SnowError)
      → (S.read_first h p b).result ≡ err e
      → (S.read_first h p b).state ≡ h
  pub read_next_fails :
      (t : S.TransportState) (p b : List ℕ) (e : S.SnowError)
      → (S.read_next t p b).result ≡ err e
      → (S.read_next t p b).state ≡ t

-- The bytes that the one-way pattern K adds to its first message: an ephemeral key and a tag.
abbrev pub overhead : ℕ
overhead = 48

-- The call took the message in, and the first bytes of its buffer are the payload.
pub record Opened (S : Snow) {A : Type 0} (p : List ℕ) (call : Call A (Result S.SnowError ℕ))
    : Type 0 where
  pub count : ℕ
  pub result : call.result ≡ ok count
  pub content : take count call.buffer ≡ p

-- The longest message that snow writes or reads.
abbrev pub max_message_length : ℕ
max_message_length = 65535

-- The message with this payload fits the buffer, and is not too long for snow.
abbrev pub Writable : List ℕ → List ℕ → Type 0
Writable p b = (length p + overhead ≤ length b) × (length p + overhead ≤ max_message_length)

-- The one-way pattern K between two key pairs: a payload that fits the buffers arrives as it was
-- sent, the first one ends the handshake at both ends, and the two transport states stay in step.
pub record SnowChannel (S : Snow) : Type 1 where
  pub KeyPair : List ℕ → List ℕ → Type 0
  pub Matching : S.HandshakeState → S.HandshakeState → Type 0
  pub InStep : S.TransportState → S.TransportState → Type 0
  pub build_Matching :
      (ska pka skb pkb : List ℕ) (h g : S.HandshakeState)
      → KeyPair ska pka
      → KeyPair skb pkb
      → S.build_initiator ska pkb ≡ ok h
      → S.build_responder skb pka ≡ ok g
      → Matching h g
  pub first :
      (h g : S.HandshakeState) (p b : List ℕ)
      → Matching h g
      → Writable p b
      → (n : ℕ) × ((S.write_first h p b).result ≡ ok n)
        × (S.is_handshake_finished (S.write_first h p b).state ≡ true)
  pub first_read :
      (h g : S.HandshakeState) (p b o : List ℕ)
      → Matching h g
      → Writable p b
      → length p ≤ length o
      → Opened S p (S.read_first g (written (S.write_first h p b)) o)
        × (S.is_handshake_finished (S.read_first g (written (S.write_first h p b)) o).state ≡ true)
  pub first_InStep :
      (h g : S.HandshakeState) (p b o : List ℕ) (t u : S.TransportState)
      → Matching h g
      → Writable p b
      → S.into_transport_mode (S.write_first h p b).state ≡ ok t
      → S.into_transport_mode (S.read_first g (written (S.write_first h p b)) o).state ≡ ok u
      → InStep t u
  pub next :
      (t u : S.TransportState) (p b : List ℕ)
      → InStep t u
      → Writable p b
      → (n : ℕ) × ((S.write_next t p b).result ≡ ok n)
  pub next_read :
      (t u : S.TransportState) (p b o : List ℕ)
      → InStep t u
      → Writable p b
      → length p ≤ length o
      → Opened S p (S.read_next u (written (S.write_next t p b)) o)
  pub next_InStep :
      (t u : S.TransportState) (p b o : List ℕ)
      → InStep t u
      → Writable p b
      → length p ≤ length o
      → InStep (S.write_next t p b).state (S.read_next u (written (S.write_next t p b)) o).state
