-- ===== src/Cipher/Samples.antt =====
-- A concrete instance of `Snow`: a message is its number in the channel and its payload.
use mina_multi_sig.Cipher.{Cipher}
use mina_multi_sig.Cipher.Valid.{IsValid}
use mina_multi_sig.Noise.{Noise}
use mina_multi_sig.Base.{
  some, none, ok-inj, arith, List, [], ◌∷◌, ℕ, zero, suc, ◌≡◌, sym, subst, ap, refl, Bool, true,
  false, ok, err, Result, length, ◌++◌, drop, take-append, ◌∙◌, ◌==◌,
}
use mina_multi_sig.Noise.{Call, Snow}
use mina_multi_sig.Noise.Laws.{SnowLaws, SnowChannel, Opened, written}

abbrev Keys : Type 0
Keys = List ℕ

pub data NumberError : Type 0 where
  bad_number : NumberError

abbrev put : {A : Type 0} → A → ℕ → List ℕ → List ℕ → Call A (Result NumberError ℕ)
put s n p b = record {
  state = s;
  buffer = n ∷ p ++ drop (suc (length p)) b;
  result = ok (suc (length p));
}

abbrev take_out : {A : Type 0} → A → List ℕ → List ℕ → Call A (Result NumberError ℕ)
take_out s p o = record { state = s; buffer = p ++ drop (length p) o; result = ok (length p) }

abbrev bad : {A : Type 0} → A → List ℕ → Call A (Result NumberError ℕ)
bad s o = record { state = s; buffer = o; result = err bad_number }

abbrev read_handshake : Keys × Bool → List ℕ → List ℕ → Call (Keys × Bool) (Result NumberError ℕ)
read_handshake h [] o = bad h o
read_handshake h (suc n ∷ p) o = bad h o
read_handshake h (zero ∷ p) o = take_out (h.0, true) p o

abbrev accept : Bool → Keys × ℕ → List ℕ → List ℕ → Call (Keys × ℕ) (Result NumberError ℕ)
accept true t p o = take_out (t.0, suc t.1) p o
accept false t p o = bad t o

abbrev read_transport : Keys × ℕ → List ℕ → List ℕ → Call (Keys × ℕ) (Result NumberError ℕ)
read_transport t [] o = bad t o
read_transport t (n ∷ p) o = accept (n == t.1) t p o

abbrev enter_transport : Keys × Bool → Result NumberError (Keys × ℕ)
enter_transport (k, true) = ok (k, 1)
enter_transport (k, false) = err bad_number

abbrev pub numbered : Snow
numbered = record {
  HandshakeState = Keys × Bool;
  TransportState = Keys × ℕ;
  SnowError = NumberError;
  build_initiator = λ sk pk. ok (sk ++ pk, false);
  build_responder = λ sk pk. ok (pk ++ sk, false);
  write_first = λ h p b. put (h.0, true) 0 p b;
  read_first = read_handshake;
  is_handshake_finished = λ h. h.1;
  into_transport_mode = enter_transport;
  write_next = λ t p b. put (t.0, suc t.1) t.1 p b;
  read_next = read_transport;
}

enters : (h : Keys × Bool) → h.1 ≡ true → (t : Keys × ℕ) × (enter_transport h ≡ ok t)
enters (k, true) e = ((k, 1), refl)
enters (k, false) e = absurd (cc)

read_handshake_fails :
    (h : Keys × Bool) (m o : List ℕ) (e : NumberError)
    → (read_handshake h m o).result ≡ err e
    → (read_handshake h m o).state ≡ h
read_handshake_fails h [] o e f = refl
read_handshake_fails h (suc n ∷ p) o e f = refl
read_handshake_fails h (zero ∷ p) o e f = absurd (cc)

accept_fails :
    (b : Bool) (t : Keys × ℕ) (p o : List ℕ) (e : NumberError)
    → (accept b t p o).result ≡ err e
    → (accept b t p o).state ≡ t
accept_fails true t p o e f = absurd (cc)
accept_fails false t p o e f = refl

read_transport_fails :
    (t : Keys × ℕ) (m o : List ℕ) (e : NumberError)
    → (read_transport t m o).result ≡ err e
    → (read_transport t m o).state ≡ t
read_transport_fails t [] o e f = refl
read_transport_fails t (n ∷ p) o e f = accept_fails (n == t.1) t p o e f

pub numbered-SnowLaws : SnowLaws numbered
numbered-SnowLaws = record {
  into_transport_mode_finished = enters;
  build_initiator_unfinished = λ sk pk h e. ap (λ x. x.1) (sym (ok-inj e));
  build_responder_unfinished = λ sk pk h e. ap (λ x. x.1) (sym (ok-inj e));
  read_first_fails = read_handshake_fails;
  read_next_fails = read_transport_fails;
}

-- What is put comes back as its number and the payload.
written-put : {A : Type 0} (s : A) (n : ℕ) (p b : List ℕ) → written (put s n p b) ≡ n ∷ p
written-put s n p b = ap (◌∷◌ n) (take-append p (drop (suc (length p)) b))

take_out-Opened : {A : Type 0} (s : A) (p o : List ℕ) → Opened numbered p (take_out s p o)
take_out-Opened s p o = record {
  count = length p;
  result = refl;
  content = take-append p (drop (length p) o);
}

accept-Opened :
    (b : Bool) (t : Keys × ℕ) (p o : List ℕ) → b ≡ true → Opened numbered p (accept b t p o)
accept-Opened true t p o e = take_out-Opened (t.0, suc t.1) p o
accept-Opened false t p o e = absurd (cc)

accept_next :
    (b : Bool) (t : Keys × ℕ) (p o : List ℕ) → b ≡ true → (accept b t p o).state ≡ (t.0, suc t.1)
accept_next true t p o e = refl
accept_next false t p o e = absurd (cc)

==-self : (n : ℕ) → (n == n) ≡ true
==-self n = ground arith

same_number : (t u : Keys × ℕ) → t ≡ u → (t.1 == u.1) ≡ true
same_number t u m = subst (λ v. (t.1 == v.1) ≡ true) m (==-self t.1)

pub numbered-SnowChannel : SnowChannel numbered
numbered-SnowChannel = record {
  KeyPair = λ sk pk. sk ≡ pk;
  Matching = λ h g. h.0 ≡ g.0;
  InStep = λ t u. t ≡ u;
  build_Matching = λ ska pka skb pkb h g ka kb eh eg.
      sym (ap (λ x. x.0) (ok-inj eh))
      ∙ ap (λ x. x ++ pkb) ka
      ∙ ap (λ x. pka ++ x) (sym kb)
      ∙ ap (λ x. x.0) (ok-inj eg);
  first = λ h g p b m fits. (suc (length p), refl, refl);
  first_read = λ h g p b o m fits room.
      subst
        (λ x. Opened numbered p (read_handshake g x o) × ((read_handshake g x o).state.1 ≡ true))
        (sym (written-put {A = Keys × Bool} (h.0, true) 0 p b))
        (take_out-Opened (g.0, true) p o, refl);
  first_InStep = λ h g p b o t u m fits et eu. sym (ok-inj et) ∙ ap (λ k. (k, 1)) m ∙ ok-inj eu;
  next = λ t u p b m fits. (suc (length p), refl);
  next_read = λ t u p b o m fits room.
      subst (λ x. Opened numbered p (read_transport u x o))
        (sym (written-put {A = Keys × ℕ} (t.0, suc t.1) t.1 p b))
        (accept-Opened (t.1 == u.1) u p o (same_number t u m));
  next_InStep = λ t u p b o m fits room.
      subst (λ x. (t.0, suc t.1) ≡ (read_transport u x o).state)
        (sym (written-put {A = Keys × ℕ} (t.0, suc t.1) t.1 p b))
        (ap (λ v. (v.0, suc v.1)) m ∙ sym (accept_next (t.1 == u.1) u p o (same_number t u m)));
}

abbrev pub waiting : List ℕ → Noise numbered
waiting keys = record { handshake_state = some (keys, false); transport_state = none }

-- The coordinator with the key 9, once the peer with the key 11 has sent a message, and before the
-- one with the key 13 has.
abbrev pub heard_one : Cipher numbered
heard_one = record {
  send_noise_map = (11 ∷ [], waiting (9 ∷ 11 ∷ [])) ∷ (13 ∷ [], waiting (9 ∷ 13 ∷ [])) ∷ [];
  recv_noise_map =
      (11 ∷ [], record { handshake_state = none; transport_state = some (11 ∷ 9 ∷ [], 1) })
      ∷ (13 ∷ [], waiting (13 ∷ 9 ∷ []))
      ∷ [];
}

pub heard_one-IsValid : IsValid numbered heard_one
heard_one-IsValid = record { sends = (refl, (refl, tt)); receives = (tt, (refl, tt)) }

pub own_key : (k : List ℕ) → numbered-SnowChannel.KeyPair k k
unfolding numbered-SnowChannel
own_key k = refl
