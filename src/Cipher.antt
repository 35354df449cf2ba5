-- ===== src/Cipher.antt =====
-- `Cipher` of mina-frost-client/src/cipher.rs: two Noise states for each peer, one to send and one to
-- receive.
pub mod Valid
pub mod Single
pub mod Isolation
pub mod Peers
pub mod Run
pub mod Conversation
pub mod Samples
mod Tests
use mina_multi_sig.Base.{
  ℕ, List, [], ◌∷◌, Option, none, some, Result, ok, err, Attempt, returned, refused, panicked, take,
  replicate, ◌>>=◌,
}
use mina_multi_sig.Map.{Map, get, insert}
use mina_multi_sig.Session.Types.{PublicKey, PublicKey-discrete, Msg}
use mina_multi_sig.Noise
use mina_multi_sig.Noise.{Call, Snow, Noise, write_message, read_message}

pub data Error (S : Snow) : Type 0 where
  snow_error : S.SnowError → Error S
  unknown_recipient : Error S
  unknown_sender : Error S
  invalid_private_key : Error S

-- `api::MAX_MSG_SIZE`
abbrev pub max_msg_size : ℕ
max_msg_size = 65535

-- `vec![0; api::MAX_MSG_SIZE]`
unfoldable pub zeros : List ℕ
zeros = replicate max_msg_size 0

pub record Cipher (S : Snow) : Type 0 where
  pub send_noise_map : Map PublicKey (Noise S)
  pub recv_noise_map : Map PublicKey (Noise S)

module _ (S : Snow) where
  -- `?` on a `snow::Error`.
  abbrev from_snow : {A : Type 0} → Result S.SnowError A → Result (Error S) A
  from_snow (ok a) = ok a
  from_snow (err e) = err (snow_error e)

  abbrev no_peers : Cipher S
  no_peers = record { send_noise_map = []; recv_noise_map = [] }

  -- One round of the loop of `Cipher::new`.
  unfoldable pub add_peer : List ℕ → PublicKey → Cipher S → Result (Error S) (Cipher S)
  add_peer private_key pubkey c = from_snow (S.build_initiator private_key pubkey) >>= λ h.
      from_snow (S.build_responder private_key pubkey) >>= λ g. ok (record {
        send_noise_map = insert PublicKey-discrete pubkey (Noise.new S h) c.send_noise_map;
        recv_noise_map = insert PublicKey-discrete pubkey (Noise.new S g) c.recv_noise_map;
      })

  unfoldable pub add_peers : List ℕ → List PublicKey → Cipher S → Result (Error S) (Cipher S)
  add_peers private_key [] c = ok c
  add_peers private_key (pubkey ∷ pubkeys) c =
      add_peer private_key pubkey c >>= λ d. add_peers private_key pubkeys d

  -- `Cipher::new`
  unfoldable pub new : List ℕ → List PublicKey → Result (Error S) (Cipher S)
  new private_key peers_public_keys = add_peers private_key peers_public_keys no_peers

  -- `truncate`, after `?`.
  abbrev truncated : List ℕ → Attempt S.SnowError ℕ → Attempt (Error S) (List ℕ)
  truncated buffer (returned len) = returned (take len buffer)
  truncated buffer (refused e) = refused (snow_error e)
  truncated buffer panicked = panicked

  -- `none` is the panic: no recipient was given and there is more or less than one.
  abbrev pub get_recipient : Option PublicKey → Map PublicKey (Noise S) → Option PublicKey
  get_recipient (some recipient) m = some recipient
  get_recipient none [] = none
  get_recipient none ((k, n) ∷ []) = some k
  get_recipient none (x ∷ y ∷ m) = none

  -- `encrypt` from the look-up of the recipient on.
  unfoldable pub encrypt_to : Cipher S → PublicKey → List ℕ → Cipher S × Attempt (Error S) (List ℕ)
  encrypt_to c recipient msg = elim (get PublicKey-discrete recipient c.send_noise_map) [
    | none ↦ (c, refused unknown_recipient)
    | some noise ↦
        let written = write_message S noise msg zeros in
        (
          record c {
            send_noise_map = insert PublicKey-discrete recipient written.state c.send_noise_map;
          },
          truncated written.buffer written.result,
        )
  ]

  unfoldable pub encrypt :
      Cipher S → Option PublicKey → List ℕ → Cipher S × Attempt (Error S) (List ℕ)
  encrypt c recipient msg = elim (get_recipient recipient c.send_noise_map) [
    | none ↦ (c, panicked)
    | some key ↦ encrypt_to c key msg
  ]

  abbrev from_sender : PublicKey → Attempt (Error S) (List ℕ) → Attempt (Error S) Msg
  from_sender sender (returned content) = returned (record { sender = sender; msg = content })
  from_sender sender (refused e) = refused e
  from_sender sender panicked = panicked

  unfoldable pub decrypt : Cipher S → Msg → Cipher S × Attempt (Error S) Msg
  decrypt c msg = elim (get PublicKey-discrete msg.sender c.recv_noise_map) [
    | none ↦ (c, refused unknown_sender)
    | some noise ↦
        let opened = read_message S noise msg.msg zeros in
        (
          record c {
            recv_noise_map = insert PublicKey-discrete msg.sender opened.state c.recv_noise_map;
          },
          from_sender msg.sender (truncated opened.buffer opened.result),
        )
  ]
