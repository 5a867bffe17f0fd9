-- ===== src/Tests/Tap.antt =====
-- A tag on the scripted bus, from the reader to the host.
use pareader.Base.{◌≡◌, ◌+◌, ◌≢◌, refl, ap, arith, ok}
use pareader.Card.{Card, card_none, card_mifare, zero_card}
use pareader.Usb.{UsbDevice}
use pareader.Pn532.Commands.{pn532_ops}
use pareader.Reader.Chip.Blocks.{tag_card}
use pareader.Prhp.Spec.{mifare_state}
use pareader.Cardio.View.{mifare_card}
use pareader.App.{App, scan_card}
use pareader.App.Tap.{Told, scan_card-tag}
use pareader.Tests.Setup.{idle_parser}
use pareader.Tests.Script.{
  Script, script, script-ClockLaws, uid, block_1, block_2, tag_start, tag_end, tag_session,
  machine_at,
}

abbrev silent : UsbDevice Script
silent = record {
  send_prhp = λ report w. (ok tt, record w { time = w.time + 1 });
  send_cardio = λ report_id card_id w. (ok tt, record w { time = w.time + 1 });
  send_cdc = λ bytes w. (ok tt, record w { time = w.time + 1 });
}

abbrev waiting : App Script
waiting = record {
  current = zero_card;
  next_scan = 0;
  parser = idle_parser;
  machine = machine_at tag_start;
}

tag_card-new : tag_card uid block_1 block_2 ≢ zero_card
tag_card-new e = let types : card_mifare ≡ card_none = ap (λ (card : Card). card.type) e in cc

scan_card-tag_example :
    let card = tag_card uid block_1 block_2 in
    let after = scan_card (pn532_ops script) silent waiting in
    (after.current ≡ card)
    × Told silent
        (mifare_state card.luid block_1 block_2)
        (mifare_card uid)
        tag_end
        after.machine.world
scan_card-tag_example =
    scan_card-tag script script-ClockLaws silent waiting tag_end 1 4 8 uid block_1 block_2 refl
      (omega arith) refl refl refl tag_card-new tag_session
