-- ===== src/Session.antt =====
-- mina-frost-client/src/session.rs: the session states of the coordinator and of a DKG participant.
pub mod Types
pub mod Payload
pub mod Coordinator
pub mod Participant
pub mod Dkg
pub mod Samples
