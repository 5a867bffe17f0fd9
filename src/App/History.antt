-- ===== src/App/History.antt =====
-- The cards that the loop publishes over time.
use pareader.Base.{
  ℕ, zero, suc, ◌+◌, ◌≡◌, ◌≢◌, refl, sym, ap, ◌∙◌, ◌⊎◌, inl, inr, List, [], ◌∷◌, ◌++◌, append_assoc,
  append-nil, arith, ltb, Bool-cases, if◌then◌else◌, Option, none, some, Result, ok, err,
}
use pareader.Card.{Card}
use pareader.Usb.{UsbDevice}
use pareader.Usb.Messages.{MessageType, hid, cdc, UsbMessage, Queue}
use pareader.Pn532.{Pn532Ops, Pn532Laws}
use pareader.Reader.State.{Machine}
use pareader.Reader.ReadCard.{reader_read_card}
use pareader.App.Scan.{Scans, failed, held, changed, scan_card-Scans, same_card_iff, same_card-ne}
use pareader.App.Log.{
  Sent, reports, all_reports, LogLaws, receive_message-log, reader_read_card-log, publish-log,
}
use pareader.App.{
  App, same_card, card_scan_interval_us, handle, handle_received, receive_message, now, clocked,
  round, run,
}

-- Each card differs from the one before it, the first from `current`.
abbrev pub Alternates : Card → List Card → Type 0
Alternates current [] = Unit {0}
Alternates current (c ∷ cs) = (c ≢ current) × Alternates c cs

abbrev pub last : Card → List Card → Card
last current [] = current
last current (c ∷ cs) = last c cs

abbrev pub cons_event : Option Card → List Card → List Card
cons_event none cs = cs
cons_event (some c) cs = c ∷ cs

-- What a read makes of the stored card: a card to publish, or nothing.
abbrev pub news : Card → Result Card → Option Card
news current (ok c) = if same_card current c then none else some c
news current (err e) = none

module _ {W : Type 0} (pn532 : Pn532Ops W) (usb : UsbDevice W) (queue : Queue W)
    (get_time : W → ℕ × W) where
  abbrev received : App W → App W
  received = receive_message pn532 usb queue

  abbrev next : App W → App W
  next = round pn532 usb queue get_time

  -- The card that a round publishes, if any: in a round whose time has come.
  abbrev pub event : App W → Option Card
  event a =
      let b = received a in
      if ltb (now get_time b) b.next_scan
      then none
      else news b.current (reader_read_card pn532 (clocked get_time b).machine).0

  handle-keeps :
      (t : MessageType) (m : UsbMessage) (a : App W)
      → ((handle pn532 usb t m a).current ≡ a.current)
        × ((handle pn532 usb t m a).next_scan ≡ a.next_scan)
  unfolding handle
  handle-keeps hid m a = (ground arith, ground arith)
  handle-keeps cdc m a = (refl, refl)

  handle_received-keeps :
      (o : Option UsbMessage) (a : App W)
      → ((handle_received pn532 usb o a).current ≡ a.current)
        × ((handle_received pn532 usb o a).next_scan ≡ a.next_scan)
  handle_received-keeps none a = (refl, refl)
  handle_received-keeps (some m) a = handle-keeps m.type m a

  pub receive_message-keeps :
      (a : App W) → ((received a).current ≡ a.current) × ((received a).next_scan ≡ a.next_scan)
  unfolding receive_message
  receive_message-keeps a = handle_received-keeps (queue.receive 50 a.machine.world).0 _

  module _ (log : W → List Sent) where
    -- The reports that are sent in a round are those of its event's card, which differs from the
    -- stored one and is stored; without an event none is sent, and the stored card is kept.
    pub record Rounds (a : App W) (e : Option Card) (a' : App W) : Type 0 where
      pub fresh : (e ≡ none) ⊎ ((c : Card) × (e ≡ some c) × (c ≢ a.current))
      pub stored : last a.current (cons_event e []) ≡ a'.current
      pub sent : log a'.machine.world ≡ log a.machine.world ++ all_reports (cons_event e [])

    module _ (laws : Pn532Laws pn532) (logs : LogLaws pn532 usb queue get_time log) where
      quiet :
          (a b a' : App W) (m : Machine W)
          → b.current ≡ a.current
          → log m.world ≡ log a.machine.world
          → a' ≡ record b { machine = m }
          → Rounds a none a'
      quiet a b a' m e same k = record {
        fresh = inl refl;
        stored = sym (ap (λ (x : App W). x.current) k ∙ e);
        sent = ap (λ (x : App W). log x.machine.world) k ∙ same ∙ sym (append-nil _);
      }

      Scans-Rounds :
          (a b : App W) (r : Result Card × Machine W) (a' : App W)
          → b.current ≡ a.current
          → log r.1.world ≡ log a.machine.world
          → Scans pn532 usb b r a'
          → Rounds a (news b.current r.0) a'
      Scans-Rounds a b r a' e same (failed x h k) = rw h (quiet a b a' r.1 e same k)
      Scans-Rounds a b r a' e same (held h k) =
          rw (h, (same_card_iff b.current b.current).1 refl) (quiet a b a' r.1 e same k)
      Scans-Rounds a b r a' e same (changed c h d k) =
          rw (h, same_card-ne b.current c d)
            (record {
              fresh = inr (c, refl, λ x. d (x ∙ sym e));
              stored = sym (ap (λ (x : App W). x.current) k);
              sent =
                  ap (λ (x : App W). log x.machine.world) k
                  ∙ publish-log pn532 usb queue get_time log laws logs c r.1
                  ∙ ap (λ (l : List Sent). l ++ reports c) same
                  ∙ ap (λ (l : List Sent). log a.machine.world ++ l) (sym (append-nil (reports c)));
            })

      -- The time read after the message leaves the log as it was before the round.
      clocked-log :
          (a : App W) → log (clocked get_time (received a)).machine.world ≡ log a.machine.world
      clocked-log a =
          logs.clock (received a).machine.world
          ∙ receive_message-log pn532 usb queue get_time log laws logs a

      -- In a round, the signals and CardIO reports that are sent are the two of its event's card,
      -- PRHP first; the card differs from the stored one, and is stored. A round without an event
      -- sends none, and keeps the stored card. The log records those sends, and nothing else.
      pub round-Rounds : (a : App W) → Rounds a (event a) (next a)
      unfolding round
      round-Rounds a =
          let b = received a in
          let keeps = receive_message-keeps a in
          elim (Bool-cases (ltb (now get_time b) b.next_scan)) [
            | inl early ↦ simp early (
                quiet a b (clocked get_time b) (clocked get_time b).machine keeps.0 (clocked-log a)
                  refl)
            | inr due ↦ simp due (
                let start = record (clocked get_time b) {
                  next_scan = now get_time b + card_scan_interval_us;
                } in
                Scans-Rounds a start _ _ keeps.0
                  (reader_read_card-log pn532 usb queue get_time log laws logs start.machine
                    ∙ clocked-log a)
                  (scan_card-Scans pn532 usb start))
          ]

  -- The cards that `n` rounds publish, in order.
  abbrev pub history : ℕ → App W → List Card
  history zero a = []
  history (suc n) a = cons_event (event a) (history n (next a))

-- One more event in front.
extend :
    (c d : Card) (e : Option Card) (cs : List Card)
    → (e ≡ none) ⊎ ((x : Card) × (e ≡ some x) × (x ≢ c))
    → last c (cons_event e []) ≡ d
    → Alternates d cs
    → Alternates c (cons_event e cs) × (last c (cons_event e cs) ≡ last d cs)
extend c d none cs fresh stored h = (rw stored h, ap (λ (x : Card). last x cs) stored)
extend c d (some x) cs (inl quiet) stored h = cc
extend c d (some x) cs (inr (y, e, differs)) stored h =
    (((λ same. differs (cc (same))), rw stored h), ap (λ (x : Card). last x cs) stored)

all_reports-cons_event :
    (e : Option Card) (cs : List Card)
    → all_reports (cons_event e []) ++ all_reports cs ≡ all_reports (cons_event e cs)
all_reports-cons_event none cs = refl
all_reports-cons_event (some c) cs = refl

module _ {W : Type 0} (pn532 : Pn532Ops W) (usb : UsbDevice W) (queue : Queue W)
    (get_time : W → ℕ × W) (log : W → List Sent) (laws : Pn532Laws pn532)
    (logs : LogLaws pn532 usb queue get_time log) where
  -- Over any number of rounds, the signals and CardIO reports that are sent are those of a list of
  -- cards, a PRHP signal and then a CardIO report for each; each card differs from the one before
  -- it (the first, from the stored card), and the last one is the one that is stored. The log
  -- records those sends, and nothing else.
  pub run-Alternates :
      (n : ℕ) (a : App W)
      → Alternates a.current (history pn532 usb queue get_time n a)
        × (last a.current (history pn532 usb queue get_time n a)
            ≡ (run pn532 usb queue get_time n a).current)
        × (log (run pn532 usb queue get_time n a).machine.world
            ≡ log a.machine.world ++ all_reports (history pn532 usb queue get_time n a))
  unfolding run
  run-Alternates zero a = (tt, refl, sym (append-nil _))
  run-Alternates (suc n) a =
      let b = round pn532 usb queue get_time a in
      let e = event pn532 usb queue get_time a in
      let later = history pn532 usb queue get_time n b in
      let first = round-Rounds pn532 usb queue get_time log laws logs a in
      let (alternate, end, sent) = run-Alternates n b in
      let both = extend a.current b.current e later first.fresh first.stored alternate in
      (
        both.0,
        both.1 ∙ end,
        sent
            ∙ ap (λ (l : List Sent). l ++ all_reports later) first.sent
            ∙ append_assoc (log a.machine.world) (all_reports (cons_event e [])) _
            ∙ ap (λ (l : List Sent). log a.machine.world ++ l) (all_reports-cons_event e later),
      )
