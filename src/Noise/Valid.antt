-- ===== src/Noise/Valid.antt =====
-- A Noise state has exactly one of its two states, so no call of it panics, and a message that is
-- refused leaves it as it was.
use mina_multi_sig.Base.{
  List, ℕ, ◌≡◌, refl, ◌≢◌, Option, none, some, false, Bool-cases, inl, inr, Result, ok, err,
  Attempt, panicked, returned, refused, Result-cases, sym, ap, ◌∙◌, ok, lift,
}
use mina_multi_sig.Noise.{Call, Snow, Noise, new, write_message, read_message, after_handshake}
use mina_multi_sig.Noise.Laws.{SnowLaws}

module _ (S : Snow) where
  -- A handshake that is not finished, or a transport state.
  abbrev pub OneState : Option S.HandshakeState → Option S.TransportState → Type 0
  OneState (some h) none = S.is_handshake_finished h ≡ false
  OneState none (some t) = Unit
  OneState (some h) (some t) = ⊥
  OneState none none = ⊥

  abbrev pub IsValid : Noise S → Type 0
  IsValid n = OneState n.handshake_state n.transport_state

  -- The call leaves a valid state and does not panic.
  pub record Answers (call : Call (Noise S) (Attempt S.SnowError ℕ)) : Type 0 where
    pub valid : IsValid call.state
    pub result : call.result ≢ panicked

  lift-ne-panicked : {A : Type 0} (r : Result S.SnowError A) → lift r ≢ panicked
  lift-ne-panicked (ok a) = cc
  lift-ne-panicked (err e) = cc

  returned-ne-refused : (n : ℕ) (e : S.SnowError) → returned n ≢ refused e
  returned-ne-refused n e = cc

  module _ (L : SnowLaws S) where
    after_handshake-Answers :
        (c : Call S.HandshakeState (Result S.SnowError ℕ)) (old : S.HandshakeState)
        → Answers (after_handshake S (new S old) c)
    unfolding after_handshake
    after_handshake-Answers c old = elim (Bool-cases (S.is_handshake_finished c.state)) [
      | inl f ↦
          let (t, e) = L.into_transport_mode_finished c.state f in
          rw (f, e, after_handshake) (record { valid = tt; result = lift-ne-panicked c.result })
      | inr f ↦ rw (f, after_handshake) (record { valid = f; result = lift-ne-panicked c.result })
    ]

    write_parts-Answers :
        (h : Option S.HandshakeState) (t : Option S.TransportState) (p b : List ℕ)
        → OneState h t
        → Answers (write_message S (record { handshake_state = h; transport_state = t }) p b)
    unfolding write_message
    write_parts-Answers (some h) none p b v = after_handshake-Answers (S.write_first h p b) h
    write_parts-Answers none (some t) p b v = record {
      valid = tt;
      result = lift-ne-panicked (S.write_next t p b).result;
    }
    write_parts-Answers (some h) (some t) p b v = absurd v
    write_parts-Answers none none p b v = absurd v

    pub write_message-Answers :
        (n : Noise S) (p b : List ℕ) → IsValid n → Answers (write_message S n p b)
    write_message-Answers n p b v = write_parts-Answers n.handshake_state n.transport_state p b v

    read_parts-Answers :
        (h : Option S.HandshakeState) (t : Option S.TransportState) (p b : List ℕ)
        → OneState h t
        → Answers (read_message S (record { handshake_state = h; transport_state = t }) p b)
    unfolding read_message
    read_parts-Answers (some h) none p b v = after_handshake-Answers (S.read_first h p b) h
    read_parts-Answers none (some t) p b v = record {
      valid = tt;
      result = lift-ne-panicked (S.read_next t p b).result;
    }
    read_parts-Answers (some h) (some t) p b v = absurd v
    read_parts-Answers none none p b v = absurd v

    pub read_message-Answers :
        (n : Noise S) (p b : List ℕ) → IsValid n → Answers (read_message S n p b)
    read_message-Answers n p b v = read_parts-Answers n.handshake_state n.transport_state p b v

    -- Only a call that fails is refused, since a finished handshake has a transport state.
    after_handshake_refused :
        (c : Call S.HandshakeState (Result S.SnowError ℕ)) (old : S.HandshakeState)
        (e : S.SnowError)
        → S.is_handshake_finished old ≡ false
        → ((d : S.SnowError) → c.result ≡ err d → c.state ≡ old)
        → (after_handshake S (new S old) c).result ≡ refused e
        → (after_handshake S (new S old) c).state ≡ new S old
    unfolding after_handshake
    after_handshake_refused c old e v fails f = elim (Result-cases c.result) [
      | inr (d, r) ↦ rw (fails d r, v, after_handshake) refl
      | inl (n, r) ↦ absurd (elim (Bool-cases (S.is_handshake_finished c.state)) [
        | inl end ↦
            let (t, g) = L.into_transport_mode_finished c.state end in
            returned-ne-refused n e (rw (end, g, r, after_handshake) at f)
        | inr more ↦ returned-ne-refused n e (rw (more, r, after_handshake) at f)
      ])
    ]

    -- A message that is refused leaves the state as it was.
    read_parts_refused :
        (h : Option S.HandshakeState) (t : Option S.TransportState) (p b : List ℕ) (e : S.SnowError)
        → OneState h t
        → (read_message S (record { handshake_state = h; transport_state = t }) p b).result
          ≡ refused e
        → (read_message S (record { handshake_state = h; transport_state = t }) p b).state
          ≡ record { handshake_state = h; transport_state = t }
    unfolding read_message
    read_parts_refused (some h) none p b e v f =
        after_handshake_refused (S.read_first h p b) h e v (L.read_first_fails h p b) f
    read_parts_refused none (some t) p b e v f = elim (Result-cases (S.read_next t p b).result) [
      | inl (n, r) ↦ absurd (returned-ne-refused n e (sym (ap lift r) ∙ f))
      | inr (d, r) ↦
          ap (λ u. record { handshake_state = none; transport_state = some u })
            (L.read_next_fails t p b d r)
    ]
    read_parts_refused (some h) (some t) p b e v f = absurd v
    read_parts_refused none none p b e v f = absurd v

    pub read_message_refused :
        (n : Noise S) (p b : List ℕ) (e : S.SnowError)
        → IsValid n
        → (read_message S n p b).result ≡ refused e
        → (read_message S n p b).state ≡ n
    read_message_refused n p b e v f =
        read_parts_refused n.handshake_state n.transport_state p b e v f
