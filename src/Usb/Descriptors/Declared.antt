-- ===== src/Usb/Descriptors/Declared.antt =====
-- The reports that are sent and accepted, against the descriptors.
use pareader.Base.{
  ℕ, zero, suc, ◌+◌, ◌*◌, ◌≡◌, ◌≢◌, ◌↔◌, refl, ◌⊎◌, inl, inr, ◌==◌, false, replicate, [], ◌∷◌,
  Bytes, length, arith,
}
use pareader.Card.{Card, CardType, card_none, card_mifare, card_felica, IsSized}
use pareader.Cardio.{cardio_report}
use pareader.Cardio.View.{cardio_report-Shows}
use pareader.Usb.Messages.{hid, UsbMessage, Queue, tud_hid_set_report_cb}
use pareader.Usb.Messages.Queued.{IsPrhpReport, IsMessage, tud_hid_set_report_cb-Queues}
use pareader.Usb.Descriptors.{
  prhp_report_descriptor, cardio_report_descriptor, tud_hid_descriptor_report_cb,
}
use pareader.Usb.Descriptors.Hid.{
  Direction, input, output, Field, apply_item, item_byte, read_items, fields_of, Declares,
}

abbrev field : Direction → ℕ → ℕ → Field
field direction report_id bits = record {
  direction = direction;
  report_id = report_id;
  bits = bits;
}

prhp_fields : fields_of prhp_report_descriptor ≡ field input 0 512 ∷ field output 0 512 ∷ []
unfolding prhp_report_descriptor read_items item_byte apply_item
prhp_fields = refl

cardio_fields : fields_of cardio_report_descriptor ≡ field input 1 64 ∷ field input 2 64 ∷ []
unfolding cardio_report_descriptor read_items item_byte apply_item
cardio_fields = refl

-- The output reports that the descriptor of an interface declares are exactly the PRHP reports.
output_declared_iff :
    (instance_id report_id : ℕ) (buffer : Bytes)
    → IsPrhpReport instance_id report_id buffer
      ↔ Declares
          (fields_of (tud_hid_descriptor_report_cb instance_id))
          output
          report_id
          (length buffer * 8)
unfolding tud_hid_descriptor_report_cb
output_declared_iff zero report_id buffer =
    rw prhp_fields ((λ h. inr (inl (refl, ground arith, omega (arith, h.2)))), (λ h. ground arith))
output_declared_iff (suc i) report_id buffer =
    let other : (suc i == 0) ≡ false = ground arith in
    rw (other, cardio_fields) ((λ h. absurd (ground arith)), (λ h. ground arith))

module _ {W : Type 0} (queue : Queue W) where
  -- A report from the host, whatever its report type, is queued whole, as a message that the main
  -- loop accepts, exactly when the descriptor that its interface hands out declares an output
  -- report of that id and length; any other is dropped.
  pub tud_hid_set_report_cb-Declares :
      (instance_id report_id report_type : ℕ) (buffer : Bytes) (w : W)
      → let w' =
          tud_hid_set_report_cb queue instance_id report_id report_type buffer (length buffer) w in
        let m : UsbMessage = record { type = hid; size = 64; content = buffer } in
        let declared =
          Declares
            (fields_of (tud_hid_descriptor_report_cb instance_id))
            output
            report_id
            (length buffer * 8) in
        (declared × IsMessage m × (w' ≡ (queue.send m w).1)) ⊎ ((¬ declared) × (w' ≡ w))
  tud_hid_set_report_cb-Declares instance_id report_id report_type buffer w =
      let same = output_declared_iff instance_id report_id buffer in
      elim (tud_hid_set_report_cb-Queues queue instance_id report_id report_type buffer w) [
        | inl (yes_report, message, sent) ↦ inl (same.0 yes_report, message, sent)
        | inr (no_report, kept) ↦ inr ((λ d. no_report (same.1 d)), kept)
      ]

-- The descriptor of the CardIO interface.
abbrev CardioDeclares : ℕ → ℕ → Type 0
CardioDeclares = Declares (fields_of (tud_hid_descriptor_report_cb 1)) input

-- What is declared of the report for a card of one type.
abbrev CardioDeclared : CardType → Card → Type 0
CardioDeclared type card =
    let r = cardio_report type card in
    ((type ≢ card_none)
      × CardioDeclares r.report_id (length r.card_id * 8)
      × (1 + length r.card_id ≡ 9))
    ⊎ ((type ≡ card_none)
        × (r.report_id ≡ 0)
        × (r.card_id ≡ replicate 8 0)
        × ((bits : ℕ) → ¬ CardioDeclares 0 bits))

undeclared_zero : (bits : ℕ) → ¬ CardioDeclares 0 bits
unfolding tud_hid_descriptor_report_cb
undeclared_zero bits = rw cardio_fields (λ h. ground arith)

declared_card :
    (id : ℕ) (card_id : Bytes)
    → (id ≡ 1) ⊎ (id ≡ 2)
    → length card_id ≡ 8
    → CardioDeclares id (length card_id * 8) × (1 + length card_id ≡ 9)
unfolding tud_hid_descriptor_report_cb
declared_card id card_id h size = rw cardio_fields (ground arith, omega arith)

type_declared :
    (type : CardType) (card : Card)
    → length (cardio_report type card).card_id ≡ 8
    → CardioDeclared type card
unfolding cardio_report
type_declared card_none card size = inr (refl, refl, refl, undeclared_zero)
type_declared card_mifare card size =
    let (declared, fits) =
      declared_card 1 (cardio_report card_mifare card).card_id (inl refl) size in
    inl ((λ e. cc), declared, fits)
type_declared card_felica card size =
    let (declared, fits) =
      declared_card 2 (cardio_report card_felica card).card_id (inr refl) size in
    inl ((λ e. cc), declared, fits)

-- The CardIO report of a card is one that the descriptor of its interface declares as input, with
-- the length that is sent, and with its id it fits the endpoint's nine bytes. The report for no
-- card has the id zero and eight zero bytes, and the descriptor declares no report with that id.
pub cardio_report-Declares :
    (card : Card)
    → IsSized card
    → let r = cardio_report card.type card in
      ((card.type ≢ card_none)
        × CardioDeclares r.report_id (length r.card_id * 8)
        × (1 + length r.card_id ≡ 9))
      ⊎ ((card.type ≡ card_none)
          × (r.report_id ≡ 0)
          × (r.card_id ≡ replicate 8 0)
          × ((bits : ℕ) → ¬ CardioDeclares 0 bits))
cardio_report-Declares card sized =
    type_declared card.type card (cardio_report-Shows card.type card sized).0
