-- ===== src/Lib.antt =====
-- Threshold signing for Mina: the sessions of distributed key generation and of signing, and the
-- transactions, network names and message bytes that they sign.
--
-- The program has three crates. mina-frost-client runs the sessions: a coordinator collects the
-- commitments and the signature shares of the signers, and participants of a key generation
-- exchange packages with an echo broadcast; both talk through a server, in messages that carry the
-- public key of their sender. frost-bluepallas is the ciphersuite. mina-tx holds what is signed:
-- transactions, their hashing input and the bytes of the message that the signers hash.
--
--   * Session.Coordinator is `CoordinatorSessionState` and Session.Dkg is `DKGSessionState` of
--     mina-frost-client/src/session.rs. A method that takes `&mut self` returns the state after the
--     call, with the error if it returned one, or the outcome `panic`. Session.Dkg.Run holds the
--     messages of a receiving loop of mina-frost-client/src/dkg/comms/http.rs, Session.Dkg.Comms
--     the loops themselves, over batches of messages and with the cipher, and what is sent in round
--     1, and Session.Coordinator.Receive that of mina-frost-client/src/coordinator/comms/http.rs.
--     Session.Dkg.Comms.Join and Session.Dkg.Comms.Rounds are the methods of `HTTPComms` in the
--     former file, and Session.Dkg.Keygen is `keygen` of mina-frost-client/src/dkg/keygen.rs. The
--     answers of the server and frost-core's parts of the key generation are arguments; the login
--     and the requests that fail are left out. In the same way Session.Coordinator.Comms is
--     `HTTPComms` of the coordinator, Session.Coordinator.Signing is
--     mina-frost-client/src/coordinator/coordinate_signing.rs, and Session.Participant is
--     mina-frost-client/src/participant/sign.rs with the communication of a signer. Session.Payload
--     holds the bytes that both sign. Session.Types holds the interface `Ciphersuite`: the types of
--     frost-core and the readers of serde_json, as parameters.
--   * Map models `HashMap` and `BTreeMap` as association lists without repeated keys.
--   * Text models `String` as a list of bytes, with the UTF-8 test of the standard library.
--   * NetworkId is mina-tx/src/transactions/network_id.rs.
--   * PallasMessage is mina-tx/src/pallas_message.rs: `serialize` and `deserialize`. The bytes of
--     `mina_hasher::ROInput` are the parameter `RoInputCodec`.
--   * Session.Coordinator.Refinement is the abstract view of the coordinator: its phases, with what each
--     signer has sent in them, and the step that each message is.
--   * ZkApp.Types holds the structs of mina-tx/src/transactions/zkapp_tx.rs and the interface `Mina`
--     of the crates ark_ff, mina_hasher, mina_signer and mina_poseidon; ZkApp.FeePayer is the account
--     update of a fee payer. ZkApp.Hash, ZkApp.Forest and ZkApp.Commit are zkapp_tx/commit.rs,
--     ZkApp.Packing is zkapp_tx/packing.rs, ZkApp.Inject is zkapp_tx/signature_injection.rs, and the
--     constants are those of zkapp_tx/constants.rs. ZkApp.Json is zkapp_tx/zkapp_serde.rs with the
--     other serde forms of zkapp_tx.rs that are written by hand: keys, fields, memos, token ids, token
--     symbols, numbers, signs, and what of a fee payer and of a balance change stands in JSON.
--   * LegacyTx is mina-tx/src/transactions/legacy_tx.rs: payments, delegations, memos and,
--     in LegacyTx.Json, the fields that serde_json writes and reads. Text.Decimal is the decimal form of
--     the unsigned integers of the standard library.
--   * Base58 is mina-tx/src/base58.rs, over the interface `Base58Crates` of sha2 and bs58.
--   * Noise and Cipher are mina-frost-client/src/cipher.rs, over the interface `Snow` of the crate snow;
--     Noise.Laws says what is relied on of it. The receiving loop of the coordinator calls `decrypt`.
--   * BluePallas is frost-bluepallas/src/lib.rs and negate.rs, over the interface `FrostCrates` of the
--     curve crates and frost-core, with what is relied on of them in BluePallas.Laws;
--     BluePallas.Hasher is hasher.rs.
--   * Signatures is mina-tx/src/signatures.rs, and Envelope is mina-tx/src/transactions.rs with the signed
--     form of signatures.rs and the message of bluepallas_compat.rs; the readers of serde_json are the
--     interface `Readers`.
--
-- The loops are structural recursion over messages, entries and bytes. Two definitions are on fuel.
-- The step that builds the call forest takes one account update at each level, and the length of the
-- queue is enough. `to_string` prints at most 20 digits, which hold a number of 64 bits.
--
-- Not modelled: HTTP, files, the command line and the terminal, which carry data in and out; the
-- trusted dealer, which only calls frost-core; the derived JSON form of the other structs of a
-- zkApp command and the GraphQL forms. The arithmetic of the curve and the calls of frost-core,
-- snow, mina_hasher, mina_signer, mina_poseidon, sha2, bs58 and serde_json are parameters, since
-- that code is not in the repository.
pub mod Base
pub mod Map
pub mod Session
pub mod Text
pub mod NetworkId
pub mod PallasMessage
pub mod ZkApp
pub mod Base58
pub mod LegacyTx
pub mod Noise
pub mod Cipher
pub mod BluePallas
pub mod Signatures
pub mod Envelope
