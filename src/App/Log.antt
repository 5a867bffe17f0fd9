-- ===== src/App/Log.antt =====
-- The reports that the main loop sends on the two HID interfaces, but for the responses to PRHP
-- requests: the card-state signals and the CardIO reports, in the order of the sends.
use pareader.Base.{ℕ, ◌≡◌, refl, ap, ◌∙◌, List, [], ◌∷◌, ◌++◌, append_assoc, Bytes, byte_at, arith}
use pareader.Card.{Card}
use pareader.Usb.{UsbDevice}
use pareader.Usb.Messages.{Queue}
use pareader.Pn532.{Pn532Ops, Pn532Laws}
use pareader.Reader.State.{Machine}
use pareader.Reader.ReadCard.{reader_read_card}
use pareader.Reader.World.{Pn532Keeps, reader_read_card-keeps}
use pareader.Prhp.{card_state_signal, begin_signal, prhp_publish_card_state}
use pareader.Cardio.{cardio_report, cardio_publish_card_state}
use pareader.App.{App, publish, receive_message}
use pareader.App.World.{AnswersKeep, handle_received-world}

-- A report on the PRHP interface, or one on the CardIO interface with its report id.
pub data Sent : Type 0 where
  prhp : Bytes → Sent
  cardio : ℕ → Bytes → Sent

-- The reports for a card: the PRHP signal, and then the CardIO report.
abbrev pub reports : Card → List Sent
reports card =
    let report = cardio_report card.type card in
    prhp (card_state_signal card) ∷ cardio report.report_id report.card_id ∷ []

-- The reports for some cards, one after the other.
abbrev pub all_reports : List Card → List Sent
all_reports [] = []
all_reports (c ∷ cs) = reports c ++ all_reports cs

module _ {W : Type 0} (pn532 : Pn532Ops W) (usb : UsbDevice W) (queue : Queue W)
    (get_time : W → ℕ × W) (log : W → List Sent) where
  -- `log` is a record of the sends: a PRHP signal, whose first byte is 3, and a CardIO report are
  -- added at its end, and no other call changes it.
  pub record LogLaws : Type 0 where
    pub signals :
        (report : Bytes) (w : W)
        → byte_at report 0 ≡ 3
        → log (usb.send_prhp report w).1 ≡ log w ++ prhp report ∷ []
    pub cards :
        (report_id : ℕ) (card_id : Bytes) (w : W)
        → log (usb.send_cardio report_id card_id w).1 ≡ log w ++ cardio report_id card_id ∷ []
    pub answers : (l : List Sent) → AnswersKeep usb (λ w. log w ≡ l)
    pub driver : (l : List Sent) → Pn532Keeps pn532 (λ w. log w ≡ l)
    pub receiving : (timeout_ms : ℕ) (w : W) → log (queue.receive timeout_ms w).1 ≡ log w
    pub clock : (w : W) → log (get_time w).1 ≡ log w

  module _ (laws : Pn532Laws pn532) (logs : LogLaws) where
    -- Handling a message sends no signal and no CardIO report.
    pub receive_message-log :
        (a : App W) → log (receive_message pn532 usb queue a).machine.world ≡ log a.machine.world
    unfolding receive_message
    receive_message-log a =
        let l = log a.machine.world in
        handle_received-world pn532 usb laws (λ w. log w ≡ l) (logs.driver l) (logs.answers l)
          (queue.receive 50 a.machine.world).0 _ (logs.receiving 50 a.machine.world)

    -- Nor does a read of the field.
    pub reader_read_card-log :
        (s : Machine W) → log (reader_read_card pn532 s).1.world ≡ log s.world
    reader_read_card-log s =
        reader_read_card-keeps pn532 (λ w. log w ≡ log s.world) (logs.driver (log s.world)) s refl

    signal_type : (card : Card) → byte_at (card_state_signal card) 0 ≡ 3
    unfolding card_state_signal begin_signal
    signal_type card = ground arith

    -- A publication sends the two reports.
    pub publish-log :
        (card : Card) (s : Machine W) → log (publish usb card s).world ≡ log s.world ++ reports card
    unfolding prhp_publish_card_state cardio_publish_card_state
    publish-log card s =
        let report = cardio_report card.type card in
        let signal = card_state_signal card in
        let sent = (usb.send_prhp signal s.world).1 in
        logs.cards report.report_id report.card_id sent
        ∙ ap (λ (l : List Sent). l ++ cardio report.report_id report.card_id ∷ [])
            (logs.signals signal s.world (signal_type card))
        ∙ append_assoc (log s.world) (prhp signal ∷ [])
            (cardio report.report_id report.card_id ∷ [])
