-- ===== src/App/Schedule/Settling.antt =====
-- A card that stays on the reader: the reports sent for it, and the card that is stored.
use pareader.Base.{
  ℕ, zero, suc, ◌≤◌, ◌≡◌, ◌≢◌, ◌⊎◌, inl, inr, refl, sym, ap, ◌∙◌, Bool, true, false, List, [], ◌∷◌,
  ◌++◌, append-nil, ltb, if◌then◌else◌, Bool-cases, Option, none, ok,
}
use pareader.Card.{Card}
use pareader.Usb.{UsbDevice}
use pareader.Usb.Messages.{Queue}
use pareader.Pn532.{Pn532Ops, Pn532Laws}
use pareader.Reader.ReadCard.{reader_read_card}
use pareader.App.{App, same_card, run, now, clocked}
use pareader.App.Log.{Sent, reports, all_reports, LogLaws}
use pareader.App.Scan.{same_card_iff}
use pareader.App.History.{
  cons_event, last, news, event, history, round-Rounds, run-Alternates, receive_message-keeps,
}
use pareader.App.Schedule.{received, next, is_due, scan_times, TimeLaws, waited, IsPunctual, Reads}
use pareader.App.Schedule.Progress.{scan_times-nonempty}

-- The card is published if it is not the stored one.
abbrev pub announced : Card → Card → List Card
announced current card = if same_card current card then [] else card ∷ []

announced_same : (card : Card) → announced card card ≡ []
announced_same card = rw (same_card_iff card card).1 refl

announced-news :
    (current card : Card) → cons_event (news current (ok card)) [] ≡ announced current card
announced-news current card = elim (Bool-cases (same_card current card)) [
  | inl same ↦ rw same refl
  | inr differs ↦ rw differs refl
]

last-announced : (current card : Card) → last current (announced current card) ≡ card
last-announced current card = elim (Bool-cases (same_card current card)) [
  | inl same ↦ rw same ((same_card_iff current card).0 same)
  | inr differs ↦ rw differs refl
]

cons_event-append :
    (o : Option Card) (cs ds : List Card) → cons_event o [] ≡ cs → ds ≡ [] → cons_event o ds ≡ cs
cons_event-append o cs ds h e = rw e h

announced-cases :
    {W : Type 0} (log : W → List Sent) (a : App W) (card : Card) {l : List Sent}
    → l ≡ log a.machine.world ++ all_reports (announced a.current card)
    → ((card ≡ a.current) × (l ≡ log a.machine.world))
      ⊎ ((card ≢ a.current) × (l ≡ log a.machine.world ++ reports card))
announced-cases log a card {l} e = elim (Bool-cases (same_card a.current card)) [
  | inl same ↦
      let nothing : announced a.current card ≡ [] = rw same refl in
      inl (
        sym ((same_card_iff a.current card).0 same),
        e ∙ ap (λ (cs : List Card). log a.machine.world ++ all_reports cs) nothing ∙ append-nil _,
      )
  | inr differs ↦
      let one : announced a.current card ≡ card ∷ [] = rw differs refl in
      inr (
        (λ same. cc (differs, (same_card_iff a.current card).1 (sym same))),
        e
            ∙ ap (λ (cs : List Card). log a.machine.world ++ all_reports cs) one
            ∙ ap (λ (k : List Sent). log a.machine.world ++ k) (append-nil (reports card)),
      )
]

module _ {W : Type 0} (pn532 : Pn532Ops W) (usb : UsbDevice W) (queue : Queue W)
    (get_time : W → ℕ × W) (log : W → List Sent) (laws : Pn532Laws pn532)
    (logs : LogLaws pn532 usb queue get_time log) where
  abbrev step : App W → App W
  step = next pn532 usb queue get_time

  abbrev due : App W → Bool
  due = is_due pn532 usb queue get_time

  abbrev news_in : App W → Option Card
  news_in = event pn532 usb queue get_time

  -- What a round does about a card that its scan, if any, reads.
  round_reads :
      (card : Card) (a : App W)
      → (due a ≡ true
          → (reader_read_card pn532
              (clocked get_time (received pn532 usb queue get_time a)).machine).0
            ≡ ok card)
      → ((due a ≡ true)
          × (cons_event (news_in a) [] ≡ announced a.current card)
          × ((step a).current ≡ card))
        ⊎ ((due a ≡ false) × (news_in a ≡ none) × ((step a).current ≡ a.current))
  round_reads card a reads =
      let b = received pn532 usb queue get_time a in
      let (same, _) = receive_message-keeps pn532 usb queue get_time a in
      let stored = (round-Rounds pn532 usb queue get_time log laws logs a).stored in
      elim (Bool-cases (ltb (now get_time b) b.next_scan)) [
        | inl early ↦
            let quiet : news_in a ≡ none = rw early refl in
            inr (
              rw early refl,
              quiet,
              sym stored ∙ ap (λ (o : Option Card). last a.current (cons_event o [])) quiet,
            )
        | inr late ↦
            let now_due : due a ≡ true = rw late refl in
            let found : news_in a ≡ news a.current (ok card) =
              rw (late, reads now_due, same) refl in
            let announces : cons_event (news_in a) [] ≡ announced a.current card =
              ap (λ (o : Option Card). cons_event o []) found ∙ announced-news a.current card in
            inl (
              now_due,
              announces,
              sym stored
                  ∙ ap (λ (cs : List Card). last a.current cs) announces
                  ∙ last-announced a.current card,
            )
      ]

  -- While the stored card is read, nothing is published.
  steady :
      (card : Card) (n : ℕ) (a : App W)
      → a.current ≡ card
      → Reads pn532 usb queue get_time card n a
      → (history pn532 usb queue get_time n a ≡ [])
        × ((run pn532 usb queue get_time n a).current ≡ card)
  unfolding run
  steady card zero a e h = (refl, e)
  steady card (suc n) a e (reads, rest) = elim (round_reads card a reads) [
    | inl (_, announces, stored) ↦
        let (quiet, kept) = steady card n (step a) stored rest in
        let same : announced a.current card ≡ [] = rw e (announced_same card) in
        (cons_event-append (news_in a) [] _ (announces ∙ same) quiet, kept)
    | inr (_, quiet_now, stored) ↦
        let (quiet, kept) = steady card n (step a) (stored ∙ e) rest in
        (rw (quiet_now, quiet) refl, kept)
  ]

  -- Once one of the rounds scans, the card is stored, and it was published if it was new.
  pub settled :
      (card : Card) (n : ℕ) (a : App W)
      → Reads pn532 usb queue get_time card n a
      → scan_times pn532 usb queue get_time n a ≢ []
      → (history pn532 usb queue get_time n a ≡ announced a.current card)
        × ((run pn532 usb queue get_time n a).current ≡ card)
  unfolding run
  settled card zero a h some_scan = absurd (some_scan refl)
  settled card (suc n) a (reads, rest) some_scan = elim (round_reads card a reads) [
    | inl (_, announces, stored) ↦
        let (quiet, kept) = steady card n (step a) stored rest in
        (cons_event-append (news_in a) _ _ announces quiet, kept)
    | inr (not_due, quiet_now, stored) ↦
        let (published, kept) =
          settled card n (step a) rest (λ none_left. some_scan (rw (not_due, none_left) refl)) in
        (
          ap (λ (o : Option Card). cons_event o (history pn532 usb queue get_time n (step a)))
                quiet_now
              ∙ published
              ∙ ap (λ (c : Card). announced c card) stored,
          kept,
        )
  ]

  module _ (wait : ℕ) (clock : TimeLaws pn532 usb queue get_time wait) where
    -- Rounds that wait for 200 ms in all, and of which every scan reads the same card, end with
    -- that card stored. Over all of them, if it was the stored card then no signal and no CardIO
    -- report is sent, and if not, then its PRHP signal is sent once, then its CardIO report once,
    -- and no other. The next scan is at most 200 ms away when they start, the clock does not go
    -- back, a receive with no message waits for its timeout, and the log records those sends and
    -- nothing else.
    pub run-settles :
        (card : Card) (n : ℕ) (a : App W)
        → IsPunctual pn532 usb queue get_time a
        → Reads pn532 usb queue get_time card n a
        → 200000 ≤ waited pn532 usb queue get_time wait n a
        → ((run pn532 usb queue get_time n a).current ≡ card)
          × (((card ≡ a.current)
                × (log (run pn532 usb queue get_time n a).machine.world ≡ log a.machine.world))
              ⊎ ((card ≢ a.current)
                  × (log (run pn532 usb queue get_time n a).machine.world
                      ≡ log a.machine.world ++ reports card)))
    run-settles card n a punctual reads long =
        let (published, kept) =
          settled card n a reads
            (scan_times-nonempty pn532 usb queue get_time wait laws clock n a punctual long) in
        let (_, _, sent) = run-Alternates pn532 usb queue get_time log laws logs n a in
        let all_sent =
          sent ∙ ap (λ (cs : List Card). log a.machine.world ++ all_reports cs) published in
        (kept, announced-cases log a card all_sent)
