-- ===== src/Session/Dkg/Comms/Inversion.antt =====
-- What a method did that returned.
use mina_multi_sig.Base.{◌≡◌, refl, List, Option, none, some, Attempt, returned, refused, panicked}
use mina_multi_sig.Text.{Bytes}
use mina_multi_sig.Noise.{Snow}
use mina_multi_sig.Cipher.{Cipher}
use mina_multi_sig.Session.Types.{PublicKey, Ciphersuite}
use mina_multi_sig.Session.Dkg.Comms.{Link, Waited, left, waiting, stopped, crashed, CommsError}
use mina_multi_sig.Session.Dkg.Comms.Rounds.{Method, returns, sending, receiving, got}

module _ {C : Ciphersuite} {S : Snow} {A : Type 0} where
  pub sending_inv :
      (r : Cipher S × Attempt (CommsError S) (List (PublicKey × Bytes)))
      (next : Cipher S → List (PublicKey × Bytes) → Method C S A) (l : Link C S)
      (sent : List (PublicKey × Bytes)) (a : A)
      → sending r next ≡ returns l sent a
      → (msgs : List (PublicKey × Bytes)) × (next r.0 msgs ≡ returns l sent a)
  sending_inv (c, returned msgs) next l sent a h = (msgs, h)
  sending_inv (c, refused e) next l sent a h = absurd (cc)
  sending_inv (c, panicked) next l sent a h = absurd (cc)

  pub receiving_inv :
      (w : Waited C S) (next : Link C S → Method C S A) (l : Link C S)
      (sent : List (PublicKey × Bytes)) (a : A)
      → receiving w next ≡ returns l sent a
      → (t : Link C S) × (w ≡ left t) × (next t ≡ returns l sent a)
  receiving_inv (left t) next l sent a h = (t, refl, h)
  receiving_inv (waiting t) next l sent a h = absurd (cc)
  receiving_inv (stopped t e) next l sent a h = absurd (cc)
  receiving_inv crashed next l sent a h = absurd (cc)

  pub got_inv :
      (o : Option A) (t l : Link C S) (msgs sent : List (PublicKey × Bytes)) (a : A)
      → got o t msgs ≡ returns l sent a
      → (o ≡ some a) × (t ≡ l)
  got_inv none t l msgs sent a h = absurd (cc)
  got_inv (some b) t l msgs sent a h = (cc, cc)
