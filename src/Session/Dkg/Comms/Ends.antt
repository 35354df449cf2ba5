-- ===== src/Session/Dkg/Comms/Ends.antt =====
-- How the receiving loops end.
use mina_multi_sig.Base.{
  ◌≡◌, ◌∙◌, refl, sym, subst, List, [], ◌∷◌, ◌++◌, Bool, true, Bool-cases, inl, inr, Attempt-cases,
  Outcome, done, fail, panic,
}
use mina_multi_sig.Noise.{Snow}
use mina_multi_sig.Noise.Laws.{SnowLaws}
use mina_multi_sig.Cipher.{Cipher, decrypt}
use mina_multi_sig.Cipher.Valid as CipherValid
use mina_multi_sig.Cipher.Valid.{Returns, decrypt-Returns}
use mina_multi_sig.Session.Types.{Msg, Ciphersuite, SessionError}
use mina_multi_sig.Session.Coordinator.Invariant.{Settles}
use mina_multi_sig.Session.Dkg.{
  DkgSessionState, recv, has_round1_packages, has_round1_broadcast_packages, has_round2_packages,
}
use mina_multi_sig.Session.Dkg.Valid as DkgValid
use mina_multi_sig.Session.Dkg.Invariant.{participant_recv-Settles}
use mina_multi_sig.Session.Dkg.Run.{exchange, exchange-append}
use mina_multi_sig.Session.Dkg.Comms.{
  CommsError, Link, Waited, left, waiting, stopped, crashed, delivered, receive_msg, receive_batch,
  receive_until, receive_round1, receive_broadcasts, receive_round2,
}

module _ (C : Ciphersuite) (S : Snow) where
  open C use {Identifier}

  pub record IsReady (l : Link C S) : Type 0 where
    pub cipher : CipherValid.IsValid S l.cipher
    pub state : DkgValid.IsValid C l.state

  -- The session took messages that lead it from one state to the other.
  pub record Leads (st : DkgSessionState C) (self : Identifier) (t : DkgSessionState C)
      : Type 0 where
    pub msgs : List Msg
    pub run : exchange C st msgs self ≡ done t

  -- A call that succeeds is ready and leads to its state, one that fails leaves all ready.
  abbrev Follows : DkgSessionState C → Identifier → Outcome (CommsError S) (Link C S) → Type 0
  Follows st self (done l) = IsReady l × Leads st self l.state
  Follows st self (fail l e) = IsReady l
  Follows st self panic = ⊥

  -- A loop that is left has its test met by a state that the session was led to.
  abbrev pub EndsWell :
      (DkgSessionState C → Bool) → DkgSessionState C → Identifier → Waited C S → Type 0
  EndsWell over st self (left l) = IsReady l × Leads st self l.state × (over l.state ≡ true)
  EndsWell over st self (waiting l) = IsReady l
  EndsWell over st self (stopped l e) = IsReady l
  EndsWell over st self crashed = ⊥

  Leads-append :
      (st mid t : DkgSessionState C) (self : Identifier)
      → Leads st self mid
      → Leads mid self t
      → Leads st self t
  Leads-append st mid t self a b = record {
    msgs = a.msgs ++ b.msgs;
    run = exchange-append C st a.msgs b.msgs self mid a.run ∙ b.run;
  }

  exchange_one :
      (st t : DkgSessionState C) (m : Msg) (self : Identifier)
      → recv C st m self ≡ done t
      → Leads st self t
  unfolding exchange
  exchange_one st t m self e = record { msgs = m ∷ []; run = rw (e, exchange) refl }

  delivered-Follows :
      (c : Cipher S) (st : DkgSessionState C) (m : Msg) (self : Identifier)
      (o : Outcome SessionError (DkgSessionState C))
      → recv C st m self ≡ o
      → CipherValid.IsValid S c
      → DkgValid.IsValid C st
      → Settles (DkgValid.IsValid C) st o
      → Follows st self (delivered C S c o)
  delivered-Follows c st m self (done t) e v w s =
      (record { cipher = v; state = s }, exchange_one st t m self e)
  delivered-Follows c st m self (fail t x) e v w s = record {
    cipher = v;
    state = subst (DkgValid.IsValid C) (sym s) w;
  }
  delivered-Follows c st m self panic e v w s = absurd s

  module _ (L : SnowLaws S) where
    receive_msg-Follows :
        (l : Link C S) (self : Identifier) (msg : Msg)
        → IsReady l
        → Follows l.state self (receive_msg C S l self msg)
    unfolding receive_msg
    receive_msg-Follows l self msg r =
        let opened : Returns S (decrypt S l.cipher msg) =
          decrypt-Returns S L l.cipher msg r.cipher in
        elim (Attempt-cases (decrypt S l.cipher msg).1) [
          | inl e ↦ absurd (opened.result e)
          | inr (inl (x, e)) ↦
              rw (e, receive_msg) (record { cipher = opened.valid; state = r.state })
          | inr (inr (m, e)) ↦
              rw (e, receive_msg)
                (delivered-Follows (decrypt S l.cipher msg).0 l.state m self (recv C l.state m self)
                  refl opened.valid r.state (participant_recv-Settles C l.state m self r.state))
        ]

    Follows-Leads :
        (st mid : DkgSessionState C) (self : Identifier) (o : Outcome (CommsError S) (Link C S))
        → Leads st self mid
        → Follows mid self o
        → Follows st self o
    Follows-Leads st mid self (done l) a f = (f.0, Leads-append st mid l.state self a f.1)
    Follows-Leads st mid self (fail l e) a f = f
    Follows-Leads st mid self panic a f = absurd f

    receive_batch-Follows :
        (l : Link C S) (self : Identifier) (msgs : List Msg)
        → IsReady l
        → Follows l.state self (receive_batch C S l self msgs)
    unfolding receive_batch exchange
    receive_batch-Follows l self [] r = (r, record { msgs = []; run = refl })
    receive_batch-Follows l self (msg ∷ msgs) r =
        go (receive_msg C S l self msg) refl (receive_msg-Follows l self msg r)
          (λ next. receive_batch-Follows next self msgs)
      where
        go :
            (o : Outcome (CommsError S) (Link C S))
            → receive_msg C S l self msg ≡ o
            → Follows l.state self o
            → ((next : Link C S)
                → IsReady next
                → Follows next.state self (receive_batch C S next self msgs))
            → Follows l.state self (receive_batch C S l self (msg ∷ msgs))
        go (done next) e f rest =
            rw (e, receive_batch) (Follows-Leads l.state next.state self _ f.1 (rest next f.0))
        go (fail next x) e f rest = rw (e, receive_batch) f
        go panic e f rest = absurd f

    EndsWell-Leads :
        (over : DkgSessionState C → Bool) (st mid : DkgSessionState C) (self : Identifier)
        (w : Waited C S)
        → Leads st self mid
        → EndsWell over mid self w
        → EndsWell over st self w
    EndsWell-Leads over st mid self (left l) a f =
        (f.0, Leads-append st mid l.state self a f.1, f.2)
    EndsWell-Leads over st mid self (waiting l) a f = f
    EndsWell-Leads over st mid self (stopped l e) a f = f
    EndsWell-Leads over st mid self crashed a f = absurd f

    receive_until-EndsWell :
        (over : DkgSessionState C → Bool) (l : Link C S) (self : Identifier)
        (batches : List (List Msg))
        → IsReady l
        → EndsWell over l.state self (receive_until C S over l self batches)
    unfolding receive_until
    receive_until-EndsWell over l self [] r = r
    receive_until-EndsWell over l self (batch ∷ batches) r =
        go (receive_batch C S l self batch) refl (receive_batch-Follows l self batch r)
          (λ next. receive_until-EndsWell over next self batches)
      where
        go :
            (o : Outcome (CommsError S) (Link C S))
            → receive_batch C S l self batch ≡ o
            → Follows l.state self o
            → ((next : Link C S)
                → IsReady next
                → EndsWell over next.state self (receive_until C S over next self batches))
            → EndsWell over l.state self (receive_until C S over l self (batch ∷ batches))
        go (done next) e f rest = elim (Bool-cases (over next.state)) [
          | inl met ↦ rw (e, receive_until, met) (f.0, f.1, met)
          | inr unmet ↦
              rw (e, receive_until, unmet)
                (EndsWell-Leads over l.state next.state self _ f.1 (rest next f.0))
        ]
        go (fail next x) e f rest = rw (e, receive_until) f
        go panic e f rest = absurd f

    receive_broadcasts-EndsWell :
        (l : Link C S) (self : Identifier) (batches : List (List Msg))
        → IsReady l
        → EndsWell
            (has_round1_broadcast_packages C)
            l.state
            self
            (receive_broadcasts C S l self batches)
    unfolding receive_broadcasts exchange
    receive_broadcasts-EndsWell l self batches r =
        elim (Bool-cases (has_round1_broadcast_packages C l.state)) [
          | inl met ↦ rw (met, receive_broadcasts) (r, record { msgs = []; run = refl }, met)
          | inr unmet ↦
              rw (unmet, receive_broadcasts)
                (receive_until-EndsWell (has_round1_broadcast_packages C) l self batches r)
        ]

    -- Whatever the server hands out, each of the three receiving loops of a key generation that
    -- starts with a valid cipher and a valid session does not panic and keeps both valid; and it is
    -- left only in a state that meets its test and to which the session got by messages that `recv`
    -- accepted.
    pub rounds_end_well :
        (l : Link C S) (self : Identifier) (batches : List (List Msg))
        → IsReady l
        → EndsWell (has_round1_packages C) l.state self (receive_round1 C S l self batches)
          × EndsWell
              (has_round1_broadcast_packages C)
              l.state
              self
              (receive_broadcasts C S l self batches)
          × EndsWell (has_round2_packages C) l.state self (receive_round2 C S l self batches)
    unfolding receive_round1 receive_round2
    rounds_end_well l self batches r = (
      receive_until-EndsWell (has_round1_packages C) l self batches r,
      receive_broadcasts-EndsWell l self batches r,
      receive_until-EndsWell (has_round2_packages C) l self batches r,
    )
