-- ===== src/Tests/Protocols.antt =====
-- Witnesses for the protocols: SEGA, PRHP and CardIO.
use pareader.Base.{
  take, ◌<◌, ◌≤◌, ◌≡◌, ◌≢◌, refl, ◌⊎◌, inl, inr, [], ◌∷◌, ◌++◌, Bytes, length, replicate, arith,
  exec, ok,
}
use pareader.Usb.{UsbDevice}
use pareader.Reader.State.{Machine}
use pareader.Reader.Operations.{reader_felica_transact}
use pareader.App.{machine_usb}
use pareader.Sega.Encode.{send_response, sg_sync, encode_frame, decoded_response}
use pareader.Sega.Encode.Shape.{IsSyncFree, send_response_fits}
use pareader.Sega.Encode.Delivery.{Delivers, send_response-Delivers}
use pareader.Sega.Dispatch.Poll.{poll_status, poll_payload, Readable}
use pareader.Sega.Dispatch.{dispatch_nfc}
use pareader.Sega.Dispatch.Outcome.{dispatch_nfc-drops}
use pareader.Sega.Parser.{Parser, sega_receive}
use pareader.Sega.Parser.Invariant.{IsWellFormed, sega_receive-IsWellFormed}
use pareader.Sega.Parser.RoundTrip.{IsBody, IsIdle, wire, dispatch_all, sega_receive-wire}
use pareader.Sega.Parser.Session.{poll_body, sega_receive-poll}
use pareader.Prhp.{prhp_dispatch, prhp_publish_card_state}
use pareader.Prhp.Spec.{decode, respond}
use pareader.Prhp.Refinement.{
  IsReport, deliver, Responds, prhp_dispatch-respond, prhp_dispatch-Responds,
  prhp_dispatch-signal_opcode,
}
use pareader.Prhp.CardState.{Tells, view, prhp_publish_card_state-Tells}
use pareader.Cardio.{CardioReport, cardio_publish_card_state}
use pareader.Cardio.View.{Shows, view_of, cardio_publish_card_state-Shows}
use pareader.Reader.Luid.{valid_luid}
use pareader.Reader.ReadCard.{
  reader_read_card, scan, after_felica, read_type_a, after_type_a, read_mifare,
  read_mifare_with_key, after_aime,
}
use pareader.Tests.Setup.{
  World, recorder, machine, field_reader, idle_parser, idle_parser-IsWellFormed, poll_request,
  mifare, mifare-IsSized,
}

abbrev usb : UsbDevice (Machine World)
usb = machine_usb recorder

poll_request-IsBody : IsBody poll_request
poll_request-IsBody = ground arith

idle : IsIdle idle_parser
idle = record { array = refl; unescaped = refl }

sega_receive-wire_example :
    (q : Parser) × (sega_receive usb field_reader idle_parser
        (wire (poll_request ∷ poll_request ∷ []))
        machine
      ≡ (q, dispatch_all usb field_reader (poll_request ∷ poll_request ∷ []) machine))
    × IsIdle q
sega_receive-wire_example =
    sega_receive-wire usb field_reader idle_parser (poll_request ∷ poll_request ∷ []) machine idle
      (poll_request-IsBody, (poll_request-IsBody, tt))

sega_receive-IsWellFormed_example :
    IsWellFormed (sega_receive usb field_reader idle_parser (sg_sync ∷ 5 ∷ 0 ∷ []) machine).0
sega_receive-IsWellFormed_example =
    sega_receive-IsWellFormed usb field_reader idle_parser (sg_sync ∷ 5 ∷ 0 ∷ []) machine
      idle_parser-IsWellFormed (ground arith)

send_response_fits_example :
    ((249 < 1) × (send_response usb poll_request 0 (0xE0 ∷ []) 1 machine ≡ machine))
    ⊎ ((1 ≤ 249)
        × (tail : Bytes) × (send_response usb poll_request 0 (0xE0 ∷ []) 1 machine
            ≡ exec (usb.send_cdc (sg_sync ∷ tail)) machine)
        × (length (sg_sync ∷ tail) ≤ 520)
        × IsSyncFree tail
        × (length (decoded_response poll_request 0 (0xE0 ∷ []) 1) ≤ 255))
send_response_fits_example = send_response_fits usb poll_request 0 (0xE0 ∷ []) 1 machine

send_response-Delivers_example :
    Delivers usb poll_request 0
      (take 2 (0xE0 ∷ 0xD0 ∷ 1 ∷ []))
      machine
      (send_response usb poll_request 0 (0xE0 ∷ 0xD0 ∷ 1 ∷ []) 2 machine)
send_response-Delivers_example =
    send_response-Delivers usb poll_request 0 (0xE0 ∷ 0xD0 ∷ 1 ∷ []) 2 machine (omega arith)
      (omega arith) (ground arith) (omega arith) (omega arith, omega arith, omega arith)

-- The tag is read.
tag-Readable : Readable (field_reader.read_card machine).0
unfolding reader_read_card scan after_felica read_type_a after_type_a read_mifare
    read_mifare_with_key after_aime valid_luid
tag-Readable = record {
  sized = record {
    uid_size = refl;
    luid_size = refl;
    blocks_size = refl;
    idm_size = refl;
    pmm_size = refl;
  };
  uid = ground arith;
  idm = ground arith;
  pmm = ground arith;
}

sega_receive-poll_example :
    Delivers usb
      (poll_body 7)
      (poll_status (field_reader.read_card machine).0)
      (poll_payload (field_reader.read_card machine).0)
      (exec field_reader.read_card machine)
      (sega_receive usb field_reader idle_parser (encode_frame (poll_body 7)) machine).1
    × IsIdle (sega_receive usb field_reader idle_parser (encode_frame (poll_body 7)) machine).0
sega_receive-poll_example =
    sega_receive-poll usb field_reader idle_parser 7 machine idle (omega arith) tag-Readable

-- A FeliCa frame of its length byte alone, behind an IDm.
abbrev felica_payload : Bytes
felica_payload = replicate 8 0 ++ 1 ∷ []

abbrev felica_request : Bytes
felica_request = 14 ∷ 0 ∷ 1 ∷ 0x71 ∷ 9 ∷ felica_payload

felica_answer : (field_reader.felica_transact (1 ∷ []) 1 250 machine).0 ≡ ok (replicate 250 0)
unfolding reader_felica_transact
felica_answer = refl

dispatch_nfc-drops_example :
    dispatch_nfc usb field_reader felica_request felica_payload 9 machine
    ≡ exec (field_reader.felica_transact (1 ∷ []) 1 250) machine
dispatch_nfc-drops_example =
    dispatch_nfc-drops usb field_reader felica_request felica_payload 9 machine (replicate 250 0)
      refl (omega arith) refl felica_answer (omega arith)

-- `HELLO` with sequence 7.
abbrev version_request : Bytes
version_request = 1 ∷ 1 ∷ 7 ∷ 0 ∷ 0 ∷ replicate 59 0

version_request-IsReport : IsReport version_request
version_request-IsReport = record { size = refl; octets = ground arith }

prhp_dispatch-respond_example :
    prhp_dispatch usb version_request machine
    ≡ deliver usb (respond (decode version_request)) machine
unfolding decode
prhp_dispatch-respond_example =
    prhp_dispatch-respond usb version_request machine version_request-IsReport (inr refl)

prhp_dispatch-Responds_example :
    (((decode version_request).type ≡ 1)
      × ((decode version_request).sequence ≢ 0)
      × Responds usb version_request machine (prhp_dispatch usb version_request machine))
    ⊎ ((((decode version_request).type ≢ 1) ⊎ ((decode version_request).sequence ≡ 0))
        × (prhp_dispatch usb version_request machine ≡ machine))
prhp_dispatch-Responds_example =
    prhp_dispatch-Responds usb version_request machine version_request-IsReport

-- A request with the opcode of the card-state signal.
abbrev signal_request : Bytes
signal_request = 1 ∷ 2 ∷ 7 ∷ 0 ∷ 0 ∷ replicate 59 0

signal_request-IsReport : IsReport signal_request
signal_request-IsReport = record { size = refl; octets = ground arith }

signal_request-sequence : (decode signal_request).sequence ≢ 0
unfolding decode
signal_request-sequence h = omega arith

signal_request-fields :
    ((decode signal_request).type ≡ 1)
    × ((decode signal_request).status ≡ 0)
    × ((decode signal_request).opcode ≡ 2)
unfolding decode
signal_request-fields = (refl, refl, refl)

prhp_dispatch-signal_opcode_example :
    (report : Bytes) × (prhp_dispatch usb signal_request machine
      ≡ exec (usb.send_prhp report) machine)
    × ((decode report).type ≡ 2)
    × ((decode report).status ≡ 1)
    × ((decode report).opcode ≡ (decode signal_request).opcode)
    × ((decode report).sequence ≡ (decode signal_request).sequence)
prhp_dispatch-signal_opcode_example =
    prhp_dispatch-signal_opcode usb signal_request machine signal_request-IsReport
      signal_request-fields.0 signal_request-sequence signal_request-fields.1
      (inl signal_request-fields.2)

prhp_publish_card_state-Tells_example :
    (report : Bytes) × (prhp_publish_card_state usb mifare machine
      ≡ exec (usb.send_prhp report) machine)
    × Tells report (view mifare)
prhp_publish_card_state-Tells_example =
    prhp_publish_card_state-Tells usb mifare machine mifare-IsSized

cardio_publish_card_state-Shows_example :
    (r : CardioReport) × (cardio_publish_card_state usb mifare machine
      ≡ exec (usb.send_cardio r.report_id r.card_id) machine)
    × Shows r (view_of mifare.type mifare)
cardio_publish_card_state-Shows_example =
    cardio_publish_card_state-Shows usb mifare machine mifare-IsSized
