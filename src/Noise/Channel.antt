-- ===== src/Noise/Channel.antt =====
-- The two ends of a channel: a payload written at one end is read at the other.
use mina_multi_sig.Base.{
  List, ℕ, ◌≡◌, refl, sym, ap, Option, none, some, true, Result, ok, Attempt, returned, lift,
  length, take, ◌≤◌, subst,
}
use mina_multi_sig.Noise.{Call, Snow, Noise, new, write_message, read_message, after_handshake}
use mina_multi_sig.Noise.Laws.{SnowLaws, SnowChannel, Opened, Writable, written}

module _ (S : Snow) (L : SnowLaws S) (K : SnowChannel S) where
  abbrev pub Ends :
      Option S.HandshakeState
      → Option S.TransportState
      → Option S.HandshakeState
      → Option S.TransportState
      → Type 0
  Ends (some h) none (some g) none = K.Matching h g
  Ends none (some t) none (some u) = K.InStep t u
  Ends _ _ _ _ = ⊥

  -- The first state writes to the second.
  abbrev pub Joined : Noise S → Noise S → Type 0
  Joined n m = Ends n.handshake_state n.transport_state m.handshake_state m.transport_state

  -- The first call wrote a message, the second one reads the payload from it, and the ends stay
  -- joined.
  pub record Delivered (p : List ℕ) (w : Call (Noise S) (Attempt S.SnowError ℕ))
      (reader : List ℕ → Call (Noise S) (Attempt S.SnowError ℕ)) : Type 0 where
    pub sent : ℕ
    pub writes : w.result ≡ returned sent
    pub got : ℕ
    pub reads : (reader (take sent w.buffer)).result ≡ returned got
    pub content : take got (reader (take sent w.buffer)).buffer ≡ p
    pub joined : Joined w.state (reader (take sent w.buffer)).state

  after_handshake-finished :
      (c : Call S.HandshakeState (Result S.SnowError ℕ)) (old : S.HandshakeState)
      (t : S.TransportState)
      → S.is_handshake_finished c.state ≡ true
      → S.into_transport_mode c.state ≡ ok t
      → after_handshake S (new S old) c ≡ record {
        state = record { handshake_state = none; transport_state = some t };
        buffer = c.buffer;
        result = lift c.result;
      }
  unfolding after_handshake
  after_handshake-finished c old t f e = rw (f, e, after_handshake) refl

  Ends-Delivered :
      (h : Option S.HandshakeState) (t : Option S.TransportState) (g : Option S.HandshakeState)
      (u : Option S.TransportState) (p b o : List ℕ)
      → Ends h t g u
      → Writable p b
      → length p ≤ length o
      → Delivered p
          (write_message S (record { handshake_state = h; transport_state = t }) p b)
          (λ m. read_message S (record { handshake_state = g; transport_state = u }) m o)
  unfolding write_message read_message
  Ends-Delivered none (some t) none (some u) p b o e fits room =
      let (n, w) = K.next t u p b e fits in
      let same : written (S.write_next t p b) ≡ take n (S.write_next t p b).buffer = rw w refl in
      let opened : Opened S p (S.read_next u (take n (S.write_next t p b).buffer) o) =
        subst (λ m. Opened S p (S.read_next u m o)) same (K.next_read t u p b o e fits room) in
      record {
        sent = n;
        writes = ap lift w;
        got = opened.count;
        reads = ap lift opened.result;
        content = opened.content;
        joined =
            subst (λ m. K.InStep (S.write_next t p b).state (S.read_next u m o).state) same
              (K.next_InStep t u p b o e fits room);
      }
  Ends-Delivered (some h) none (some g) none p b o e fits room =
      let (n, w, end) = K.first h g p b e fits in
      let same : written (S.write_first h p b) ≡ take n (S.write_first h p b).buffer = rw w refl in
      let (opened, there) = K.first_read h g p b o e fits room in
      let (t, into) = L.into_transport_mode_finished (S.write_first h p b).state end in
      let (u, onto) =
        L.into_transport_mode_finished (S.read_first g (written (S.write_first h p b)) o).state
          there in
      subst (λ c. Delivered p c (λ m. read_message S (new S g) m o))
        (sym (after_handshake-finished (S.write_first h p b) h t end into))
        (record {
          sent = n;
          writes = ap lift w;
          got = opened.count;
          reads =
              subst (λ m. (read_message S (new S g) m o).result ≡ returned opened.count) same
                (rw
                  (after_handshake-finished (S.read_first g (written (S.write_first h p b)) o) g u
                    there onto)
                  (ap lift opened.result));
          content =
              subst (λ m. take opened.count (read_message S (new S g) m o).buffer ≡ p) same
                (rw
                  (after_handshake-finished (S.read_first g (written (S.write_first h p b)) o) g u
                    there onto)
                  opened.content);
          joined =
              subst
                (λ m.
                  Joined (record { handshake_state = none; transport_state = some t })
                    (read_message S (new S g) m o).state)
                same
                (rw
                  (after_handshake-finished (S.read_first g (written (S.write_first h p b)) o) g u
                    there onto)
                  (K.first_InStep h g p b o t u e fits into onto));
        })
  Ends-Delivered none none g u p b o e fits room = absurd e
  Ends-Delivered none (some t) none none p b o e fits room = absurd e
  Ends-Delivered none (some t) (some g) u p b o e fits room = absurd e
  Ends-Delivered (some h) none none u p b o e fits room = absurd e
  Ends-Delivered (some h) none (some g) (some u) p b o e fits room = absurd e
  Ends-Delivered (some h) (some t) g u p b o e fits room = absurd e

  -- What is written at one end is read at the other.
  pub Joined-Delivered :
      (n m : Noise S) (p b o : List ℕ)
      → Joined n m
      → Writable p b
      → length p ≤ length o
      → Delivered p (write_message S n p b) (λ c. read_message S m c o)
  Joined-Delivered n m =
      Ends-Delivered n.handshake_state n.transport_state m.handshake_state m.transport_state
