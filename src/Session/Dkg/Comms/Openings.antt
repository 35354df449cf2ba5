-- ===== src/Session/Dkg/Comms/Openings.antt =====
-- What the receiving loops hand to the session: the decryptions of what the server handed out.
use mina_multi_sig.Base.{
  ◌≡◌, refl, subst, ap, ◌∙◌, append-nil, List, [], ◌∷◌, ◌++◌, Bool, true, Bool-cases, inl, inr,
  returned, refused, panicked, Attempt-cases, Outcome, done, fail, panic, arith,
}
use mina_multi_sig.Noise.{Snow}
use mina_multi_sig.Cipher.{Cipher, decrypt}
use mina_multi_sig.Session.Types.{Msg, Ciphersuite, SessionError}
use mina_multi_sig.Session.Dkg.{DkgSessionState, recv}
use mina_multi_sig.Session.Dkg.Run.{exchange, exchange-append}
use mina_multi_sig.Session.Dkg.Comms.{
  CommsError, Link, left, delivered, receive_msg, receive_batch, receive_until,
}

-- The messages of the batches, in their order.
abbrev pub all_msgs : List (List Msg) → List Msg
all_msgs [] = []
all_msgs (batch ∷ batches) = batch ++ all_msgs batches

module _ (S : Snow) where
  -- The decryptions of the messages, up to the first that does not decrypt.
  unfoldable pub openings : Cipher S → List Msg → List Msg
  openings c [] = []
  openings c (m ∷ ms) = elim (decrypt S c m).1 [
    | returned x ↦ x ∷ openings (decrypt S c m).0 ms
    | refused e ↦ []
    | panicked ↦ []
  ]

  openings_cons :
      (c : Cipher S) (m : Msg) (ms : List Msg) (x : Msg)
      → (decrypt S c m).1 ≡ returned x
      → openings c (m ∷ ms) ≡ x ∷ openings (decrypt S c m).0 ms
  unfolding openings
  openings_cons c m ms x e = rw (e, openings) refl

module _ (C : Ciphersuite) (S : Snow) where
  open C use {Identifier}

  record Taken (l : Link C S) (self : Identifier) (m : Msg) (n : Link C S) : Type 0 where
    opened : Msg
    decrypted : (decrypt S l.cipher m).1 ≡ returned opened
    cipher : (decrypt S l.cipher m).0 ≡ n.cipher
    accepted : recv C l.state opened self ≡ done n.state

  delivered-done :
      (c : Cipher S) (o : Outcome SessionError (DkgSessionState C)) (n : Link C S)
      → delivered C S c o ≡ done n
      → (c ≡ n.cipher) × (o ≡ done n.state)
  delivered-done c (done st) n h = (ground arith, ground arith)
  delivered-done c (fail st e) n h = absurd (ground arith)
  delivered-done c panic n h = absurd (ground arith)

  receive_msg-Taken :
      (l : Link C S) (self : Identifier) (m : Msg) (n : Link C S)
      → receive_msg C S l self m ≡ done n
      → Taken l self m n
  unfolding receive_msg
  receive_msg-Taken l self m n h = elim (Attempt-cases (decrypt S l.cipher m).1) [
    | inl e ↦ absurd (ground (arith, e))
    | inr (inl (x, e)) ↦ absurd (ground (arith, e))
    | inr (inr (x, e)) ↦
        let (same, taken) =
          delivered-done (decrypt S l.cipher m).0 (recv C l.state x self) n (ground (arith, e)) in
        record { opened = x; decrypted = e; cipher = same; accepted = taken }
  ]

  -- A batch that was taken.
  record Batch (l : Link C S) (self : Identifier) (ms : List Msg) (t : Link C S) : Type 0 where
    run : exchange C l.state (openings S l.cipher ms) self ≡ done t.state
    rest :
        (more : List Msg)
        → openings S l.cipher (ms ++ more) ≡ openings S l.cipher ms ++ openings S t.cipher more

  receive_batch-Batch :
      (l : Link C S) (self : Identifier) (ms : List Msg) (t : Link C S)
      → receive_batch C S l self ms ≡ done t
      → Batch l self ms t
  unfolding receive_batch openings exchange
  receive_batch-Batch l self [] t h =
      let same : l ≡ t = ground arith in
      subst (Batch l self []) same (record { run = refl; rest = λ more. refl })
  receive_batch-Batch l self (m ∷ ms) t h =
      go (receive_msg C S l self m) refl (λ n. receive_batch-Batch n self ms t)
    where
      step : (n : Link C S) → Taken l self m n → Batch n self ms t → Batch l self (m ∷ ms) t
      step n a b = record {
        run =
            rw (openings_cons S l.cipher m ms a.opened a.decrypted, a.accepted, a.cipher, exchange)
              b.run;
        rest = λ more.
            rw
              (
                openings_cons S l.cipher m ms a.opened a.decrypted,
                openings_cons S l.cipher m (ms ++ more) a.opened a.decrypted,
                a.cipher,
              )
              (ap (◌∷◌ a.opened) (b.rest more));
      }

      go :
          (o : Outcome (CommsError S) (Link C S))
          → receive_msg C S l self m ≡ o
          → ((n : Link C S) → receive_batch C S n self ms ≡ done t → Batch n self ms t)
          → Batch l self (m ∷ ms) t
      go (done n) e ih = step n (receive_msg-Taken l self m n e) (ih n (ground (arith, e)))
      go (fail n x) e ih = absurd (ground (arith, e))
      go panic e ih = absurd (ground (arith, e))

  -- A loop that was left: what it read, and what it made of it.
  pub record Read (over : DkgSessionState C → Bool) (l : Link C S) (self : Identifier)
      (batches : List (List Msg)) (t : Link C S) : Type 0 where
    pub used : List (List Msg)
    pub unused : List (List Msg)
    pub split : batches ≡ used ++ unused
    pub run : exchange C l.state (openings S l.cipher (all_msgs used)) self ≡ done t.state
    pub met : over t.state ≡ true

  pub receive_until-Read :
      (over : DkgSessionState C → Bool) (l : Link C S) (self : Identifier)
      (batches : List (List Msg)) (t : Link C S)
      → receive_until C S over l self batches ≡ left t
      → Read over l self batches t
  unfolding receive_until
  receive_until-Read over l self [] t h = absurd (ground arith)
  receive_until-Read over l self (batch ∷ batches) t h =
      go (receive_batch C S l self batch) refl (λ n. receive_until-Read over n self batches t)
    where
      more :
          (n : Link C S)
          → Batch l self batch n
          → Read over n self batches t
          → Read over l self (batch ∷ batches) t
      more n b r = record {
        used = batch ∷ r.used;
        unused = r.unused;
        split = ap (◌∷◌ batch) r.split;
        run = rw (b.rest (all_msgs r.used)) (
            exchange-append C l.state (openings S l.cipher batch)
              (openings S n.cipher (all_msgs r.used)) self n.state b.run
            ∙ r.run);
        met = r.met;
      }

      last :
          (n : Link C S)
          → Batch l self batch n
          → over n.state ≡ true
          → n ≡ t
          → Read over l self (batch ∷ batches) t
      last n b met same = record {
        used = batch ∷ [];
        unused = batches;
        split = refl;
        run = rw (append-nil batch) (b.run ∙ ap (λ (x : Link C S). done x.state) same);
        met = subst (λ (x : Link C S). over x.state ≡ true) same met;
      }

      go :
          (o : Outcome (CommsError S) (Link C S))
          → receive_batch C S l self batch ≡ o
          → ((n : Link C S)
              → receive_until C S over n self batches ≡ left t
              → Read over n self batches t)
          → Read over l self (batch ∷ batches) t
      go (done n) e ih = elim (Bool-cases (over n.state)) [
        | inl met ↦ last n (receive_batch-Batch l self batch n e) met (ground (arith, e, met))
        | inr unmet ↦
            more n (receive_batch-Batch l self batch n e) (ih n (ground (arith, e, unmet)))
      ]
      go (fail n x) e ih = absurd (ground (arith, e))
      go panic e ih = absurd (ground (arith, e))
