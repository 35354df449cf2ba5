-- ===== src/Noise.antt =====
-- `Noise` of mina-frost-client/src/cipher.rs, which wraps the two state objects of the snow crate
-- (participant/comms/http.rs and dkg/comms/http.rs keep copies of it that nothing calls). The crate
-- is the parameter `Snow`: a call gives the state object after it, the output buffer after it, and
-- the number of bytes that were written to the buffer.
pub mod Laws
pub mod Valid
pub mod Channel
use mina_multi_sig.Base.{
  List, Option, none, some, ℕ, Bool, if◌then◌else◌, Result, ok, err, Attempt, refused, panicked,
  lift,
}

-- What a call leaves: the object, its output buffer and its result.
pub record Call (A R : Type 0) : Type 0 where
  pub state : A
  pub buffer : List ℕ
  pub result : R

pub record Snow : Type 1 where
  pub HandshakeState : Type 0
  pub TransportState : Type 0
  pub SnowError : Type 0
  pub build_initiator : List ℕ → List ℕ → Result SnowError HandshakeState
  pub build_responder : List ℕ → List ℕ → Result SnowError HandshakeState
  pub write_first : HandshakeState → List ℕ → List ℕ → Call HandshakeState (Result SnowError ℕ)
  pub read_first : HandshakeState → List ℕ → List ℕ → Call HandshakeState (Result SnowError ℕ)
  pub is_handshake_finished : HandshakeState → Bool
  pub into_transport_mode : HandshakeState → Result SnowError TransportState
  pub write_next : TransportState → List ℕ → List ℕ → Call TransportState (Result SnowError ℕ)
  pub read_next : TransportState → List ℕ → List ℕ → Call TransportState (Result SnowError ℕ)

pub record Noise (S : Snow) : Type 0 where
  pub handshake_state : Option S.HandshakeState
  pub transport_state : Option S.TransportState

module _ (S : Snow) where
  open S use {HandshakeState, TransportState, SnowError}

  -- `Noise::new`
  abbrev pub new : HandshakeState → Noise S
  new h = record { handshake_state = some h; transport_state = none }

  -- The state after `take`, and after `into_transport_mode()?` if that gave a transport state.
  abbrev pub switch :
      Noise S
      → List ℕ
      → Result SnowError ℕ
      → Result SnowError TransportState
      → Call (Noise S) (Attempt SnowError ℕ)
  switch n buffer r (ok t) = record {
    state = record { handshake_state = none; transport_state = some t };
    buffer = buffer;
    result = lift r;
  }
  switch n buffer r (err e) = record {
    state = record n { handshake_state = none };
    buffer = buffer;
    result = refused e;
  }

  -- What both methods do after the call of the handshake state.
  unfoldable pub after_handshake :
      Noise S → Call HandshakeState (Result SnowError ℕ) → Call (Noise S) (Attempt SnowError ℕ)
  after_handshake n c =
      if S.is_handshake_finished c.state
      then switch n c.buffer c.result (S.into_transport_mode c.state)
      else record {
        state = record n { handshake_state = some c.state };
        buffer = c.buffer;
        result = lift c.result;
      }

  abbrev pub after_transport :
      Noise S → Call TransportState (Result SnowError ℕ) → Call (Noise S) (Attempt SnowError ℕ)
  after_transport n c = record {
    state = record n { transport_state = some c.state };
    buffer = c.buffer;
    result = lift c.result;
  }

  unfoldable pub write_message : Noise S → List ℕ → List ℕ → Call (Noise S) (Attempt SnowError ℕ)
  write_message n payload message = elim n.handshake_state [
    | some h ↦ after_handshake n (S.write_first h payload message)
    | none ↦ elim n.transport_state [
      | some t ↦ after_transport n (S.write_next t payload message)
      | none ↦ record { state = n; buffer = message; result = panicked }
    ]
  ]

  unfoldable pub read_message : Noise S → List ℕ → List ℕ → Call (Noise S) (Attempt SnowError ℕ)
  read_message n payload message = elim n.handshake_state [
    | some h ↦ after_handshake n (S.read_first h payload message)
    | none ↦ elim n.transport_state [
      | some t ↦ after_transport n (S.read_next t payload message)
      | none ↦ record { state = n; buffer = message; result = panicked }
    ]
  ]
