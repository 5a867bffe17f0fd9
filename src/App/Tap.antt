-- ===== src/App/Tap.antt =====
-- From a tag on the reader to the reports that the host gets: the scan of the main loop over the
-- commands of pn532.c.
use pareader.Base.{
  ℕ, ◌<◌, ◌≡◌, ◌≢◌, refl, ap, ◌∙◌, Bool, true, false, arith, Bytes, take, drop, length,
  length-append, length-take, length-drop, replicate, take_prefix, drop_prefix, if◌then◌else◌, ok,
  exec,
}
use pareader.Card.{Card, IsSized, reader_key_aime}
use pareader.Usb.{UsbDevice}
use pareader.Pn532.{Pn532Ops}
use pareader.Pn532.Bus.{Bus}
use pareader.Pn532.Bus.Clock.{ClockLaws}
use pareader.Pn532.Commands.{pn532_ops}
use pareader.Reader.Luid.{valid_luid}
use pareader.Reader.State.{Machine, mifare_key}
use pareader.Reader.ReadCard.{reader_read_card}
use pareader.Reader.Chip.Blocks.{tag_card}
use pareader.Reader.Chip.Tag.{TagSession, reader_read_card-tag}
use pareader.Prhp.{prhp_publish_card_state}
use pareader.Prhp.Spec.{CardState, mifare_state}
use pareader.Prhp.CardState.{view, Tells, prhp_publish_card_state-Tells}
use pareader.Cardio.{CardioReport}
use pareader.Cardio.View.{CardioView, mifare_card, Shows, cardio_publish_card_state-Shows}
use pareader.Cardio.View
use pareader.App.{App, machine_usb, publish, observe, scan_card}
use pareader.App.Scan.{same_card-ne}

-- From `w` to `w'` one PRHP report is sent, which tells the host of `state`, and then one CardIO
-- report, which shows it `card`.
pub record Told {W : Type 0} (usb : UsbDevice W) (state : CardState) (card : CardioView) (w w' : W)
    : Type 0 where
  pub report : Bytes
  pub tells : Tells report state
  pub shown : CardioReport
  pub shows : Shows shown card
  pub sent :
      w' ≡ exec (usb.send_cardio shown.report_id shown.card_id) (exec (usb.send_prhp report) w)

publish-Told :
    {W : Type 0} (usb : UsbDevice W) (card : Card) (m : Machine W)
    → IsSized card
    → Told usb (view card) (View.view_of card.type card) m.world (publish usb card m).world
publish-Told {W} usb card m sized =
    let (report, told, tells) = prhp_publish_card_state-Tells (machine_usb usb) card m sized in
    let between = prhp_publish_card_state (machine_usb usb) card m in
    let (shown, showed, shows) =
      cardio_publish_card_state-Shows (machine_usb usb) card between sized in
    record {
      report = report;
      tells = tells;
      shown = shown;
      shows = shows;
      sent =
          ap (λ (s : Machine W). s.world) showed
          ∙ ap (λ (s : Machine W). exec (usb.send_cardio shown.report_id shown.card_id) s.world)
              told;
    }

module _ {W : Type 0} (pn532 : Pn532Ops W) (usb : UsbDevice W) where
  scan_card-new :
      (a : App W) (card : Card) (m : Machine W)
      → reader_read_card pn532 a.machine ≡ (ok card, m)
      → card ≢ a.current
      → scan_card pn532 usb a ≡ record a { current = card; machine = publish usb card m }
  unfolding scan_card observe
  scan_card-new a card m read new = rw (read, same_card-ne a.current card new) refl

  -- A new card is stored and told.
  pub scan_card-Told :
      (a : App W) (card : Card) (m : Machine W) (state : CardState)
      → reader_read_card pn532 a.machine ≡ (ok card, m)
      → card ≢ a.current
      → IsSized card
      → view card ≡ state
      → let after = scan_card pn532 usb a in
        (after.current ≡ card)
        × Told usb state (View.view_of card.type card) m.world after.machine.world
  scan_card-Told a card m state read new sized e =
      rw (scan_card-new a card m read new, ← e) (refl, publish-Told usb card m sized)

luid-size :
    (b : Bool) (xs : Bytes) → length xs ≡ 10 → length (if b then xs else replicate 10 0) ≡ 10
luid-size true xs h = h
luid-size false xs h = refl

tag_card-IsSized :
    (uid block_1 block_2 : Bytes)
    → length uid ≡ 4
    → length block_1 ≡ 16
    → length block_2 ≡ 16
    → IsSized (tag_card uid block_1 block_2)
tag_card-IsSized uid block_1 block_2 four sixteen_1 sixteen_2 =
    let luid = take 10 (drop 6 block_2) in
    record {
      uid_size = four;
      luid_size =
          luid-size (valid_luid luid) luid
            (omega (arith, sixteen_2, length-take 10 (drop 6 block_2), length-drop 6 block_2));
      blocks_size = omega (arith, sixteen_1, sixteen_2, length-append block_1 block_2);
      idm_size = refl;
      pmm_size = refl;
    }

module _ {W : Type 0} (bus : Bus W) (clock : ClockLaws bus) (usb : UsbDevice W) where
  -- A scan of a MIFARE tag with a UID of four bytes and blocks of sixteen, which the chip lists
  -- and reads in time with the Aime key, and which is not the stored card, stores it and sends two
  -- reports: a PRHP report from which the host decodes its LUID, all zero if the tag has no valid
  -- one, and both blocks as they are on the tag, and then a CardIO report that shows its UID. The
  -- radio is on, and the clock runs.
  pub scan_card-tag :
      (a : App W) (w' : W) (target atqa sak : ℕ) (uid block_1 block_2 : Bytes)
      → a.machine.reader.radio_enabled ≡ true
      → atqa < 65536
      → length uid ≡ 4
      → length block_1 ≡ 16
      → length block_2 ≡ 16
      → tag_card uid block_1 block_2 ≢ a.current
      → TagSession bus a.machine.reader.felica_system_code target atqa sak uid
          (mifare_key a.machine.reader reader_key_aime)
          block_1
          block_2
          a.machine.world
          w'
      → let card = tag_card uid block_1 block_2 in
        let after = scan_card (pn532_ops bus) usb a in
        (after.current ≡ card)
        × Told usb (mifare_state card.luid block_1 block_2) (mifare_card uid) w' after.machine.world
  scan_card-tag a w' target atqa sak uid block_1 block_2 on word four sixteen_1 sixteen_2 new x =
      let card = tag_card uid block_1 block_2 in
      let read =
        reader_read_card-tag bus clock a.machine w' target atqa sak uid block_1 block_2 on word four
          sixteen_1 sixteen_2 x in
      scan_card-Told (pn532_ops bus) usb a card _ (mifare_state card.luid block_1 block_2) read new
        (tag_card-IsSized uid block_1 block_2 four sixteen_1 sixteen_2)
        (rw (take_prefix block_1 block_2 16 sixteen_1, drop_prefix block_1 block_2 16 sixteen_1)
          refl)
