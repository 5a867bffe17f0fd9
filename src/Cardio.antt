-- ===== src/Cardio.antt =====
-- impl/firmware/main/cardio.c: the CardIO reports.
pub mod View
use pareader.Base.{ℕ, ◌∷◌, [], Bytes, byte_at, take, set, replicate, copy, copy_at, exec}
use pareader.Usb.{UsbDevice}
use pareader.Card.{Card, CardType, card_none, card_mifare, card_felica}

abbrev pub cardio_report_mifare : ℕ
cardio_report_mifare = 0x01

abbrev pub cardio_report_felica : ℕ
cardio_report_felica = 0x02

pub record CardioReport : Type 0 where
  pub report_id : ℕ
  pub card_id : Bytes

-- The report id and `card_id` at the end of the function.
unfoldable pub cardio_report : CardType → Card → CardioReport
cardio_report card_felica current = record {
  report_id = cardio_report_felica;
  card_id = copy (replicate 8 0) current.idm 8;
}
cardio_report card_mifare current = record {
  report_id = cardio_report_mifare;
  card_id =
      set
        (set (copy_at (set (set (replicate 8 0) 0 0xE0) 1 0x04) 2 current.mifare_uid 4) 6
          (byte_at current.mifare_uid 0))
        7 (byte_at current.mifare_uid 1);
}
cardio_report card_none current = record { report_id = 0; card_id = replicate 8 0 }

unfoldable pub cardio_publish_card_state : {S : Type 0} → UsbDevice S → Card → S → S
cardio_publish_card_state usb current s =
    let report = cardio_report current.type current in
    exec (usb.send_cardio report.report_id report.card_id) s
