-- ===== src/Cipher/Run.antt =====
-- Calls of a cipher, one after the other.
use mina_multi_sig.Base.{
  List, [], ◌∷◌, ℕ, ◌≡◌, some, none, Option, ok, refl, All, is_some, true, Attempt, returned,
  refused, panicked,
}
use mina_multi_sig.Session.Types.{PublicKey, Msg}
use mina_multi_sig.Noise.{Snow}
use mina_multi_sig.Noise.Laws.{SnowLaws}
use mina_multi_sig.Cipher.{Cipher, Error, new, encrypt, decrypt}
use mina_multi_sig.Cipher.Valid.{IsValid, Returns, encrypt_to-Returns, decrypt-Returns, new-IsValid}

pub data Action : Type 0 where
  encrypts : Option PublicKey → List ℕ → Action
  decrypts : Msg → Action

module _ (S : Snow) where
  -- The cipher after a call, unless that panicked.
  abbrev survivor : {A : Type 0} → Cipher S → Attempt (Error S) A → Option (Cipher S)
  survivor c (returned a) = some c
  survivor c (refused e) = some c
  survivor c panicked = none

  abbrev act : Cipher S → Action → Option (Cipher S)
  act c (encrypts recipient p) = survivor (encrypt S c recipient p).0 (encrypt S c recipient p).1
  act c (decrypts m) = survivor (decrypt S c m).0 (decrypt S c m).1

  unfoldable pub run : Cipher S → List Action → Option (Cipher S)
  run c [] = some c
  run c (a ∷ actions) = elim (act c a) [ none ↦ none | some d ↦ run d actions ]

  -- The call names its recipient.
  abbrev pub IsAddressed : Action → Type 0
  IsAddressed (encrypts recipient p) = is_some recipient ≡ true
  IsAddressed (decrypts m) = Unit

  survives :
      {A : Type 0} (call : Cipher S × Attempt (Error S) A)
      → Returns S call
      → (d : Cipher S) × (survivor call.0 call.1 ≡ some d) × IsValid S d
  survives (c, returned a) r = (c, refl, r.valid)
  survives (c, refused e) r = (c, refl, r.valid)
  survives (c, panicked) r = absurd (r.result refl)

  module _ (L : SnowLaws S) where
    act-IsValid :
        (c : Cipher S) (a : Action)
        → IsAddressed a
        → IsValid S c
        → (d : Cipher S) × (act c a ≡ some d) × IsValid S d
    unfolding encrypt
    act-IsValid c (encrypts (some pk) p) h v = survives _ (encrypt_to-Returns S L c pk p v)
    act-IsValid c (encrypts none p) h v = absurd (cc)
    act-IsValid c (decrypts m) h v = survives _ (decrypt-Returns S L c m v)

    pub run-IsValid :
        (c : Cipher S) (actions : List Action)
        → All IsAddressed actions
        → IsValid S c
        → (d : Cipher S) × (run c actions ≡ some d) × IsValid S d
    unfolding run
    run-IsValid c [] h v = (c, refl, v)
    run-IsValid c (a ∷ actions) h v =
        let (next, e, w) = act-IsValid c a h.0 v in
        let (d, f, x) = run-IsValid next actions h.1 w in (d, rw (e, run) f, x)

    -- No sequence of calls on a new cipher panics, if each call of `encrypt` names a recipient.
    pub run-new :
        (sk : List ℕ) (pks : List PublicKey) (c : Cipher S) (actions : List Action)
        → new S sk pks ≡ ok c
        → All IsAddressed actions
        → (d : Cipher S) × (run c actions ≡ some d) × IsValid S d
    run-new sk pks c actions e h = run-IsValid c actions h (new-IsValid S L sk pks c e)
