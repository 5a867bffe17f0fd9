-- ===== src/Tests/Device.antt =====
-- Witnesses for the reader, the PN532, the USB device and the main loop.
use pareader.Base.{
  ℕ, ◌+◌, ◌*◌, ◌/◌, ◌≤◌, ◌≡◌, ◌≢◌, ◌↔◌, refl, true, false, [], ◌∷◌, ◌++◌, Bytes, IsBytes, length,
  replicate, byte_at, take, arith, ◌<◌, ◌⊎◌, invalid_size, ok, err, ◌>>◌,
}
use pareader.Card.{zero_card}
use pareader.Usb.Device.{send_hid}
use pareader.Usb.Device.Attempts.{Ends, send_hid-Ends}
use pareader.Usb.Messages.{cdc_receive_callback}
use pareader.Usb.Messages.Queued.{CdcLaws, Streams, cdc_receive_callback-Streams}
use pareader.Pn532.{Pn532Laws}
use pareader.Pn532.Bus.{wait_loop, wait_ready}
use pareader.Pn532.Bus.Clock.{wait_ready_terminates}
use pareader.Pn532.Frame.{parse_response}
use pareader.Pn532.Frame.Normal.{normal_frame, IsAnswer, parse_response_iff}
use pareader.Pn532.Commands.{write_frame, pn532_ops}
use pareader.Pn532.Commands.Written.{write_frame-normal}
use pareader.Pn532.Commands.Sizes.{pn532_ops-Pn532Laws}
use pareader.Reader.State.{on_world}
use pareader.Reader.Luid.{valid_luid}
use pareader.Reader.Luid.Digits.{IsDigits, IsNonzero, valid_luid_iff}
use pareader.Reader.ReadCard.{reader_read_card}
use pareader.Reader.ReadCard.Valid.{Returns, reader_read_card-Returns}
use pareader.Reader.ReadCard.Polling.{Scanned, reader_read_card-Scanned}
use pareader.Reader.Operations.{reader_mifare_select, reader_mifare_read_block}
use pareader.Reader.Operations.Laws.{
  reader_mifare_select_iff, keyed, reader_mifare_read_block-keyed,
}
use pareader.App.{round, run}
use pareader.App.History.{Alternates, last, event, history, Rounds, round-Rounds, run-Alternates}
use pareader.App.Log.{LogLaws, all_reports}
use pareader.App.Invariant.{IsApp, run-IsApp}
use pareader.Tests.Setup.{
  start, recorder, field, field-Pn532Laws, tag, with_tag, with_tag-IsReader, machine, app,
  app-IsApp, polling_queue-QueueLaws, polling_queue, get_time, sent_log, field-LogKeeps, busy_bus,
  busy_bus-ClockLaws, endpoint,
}

send_hid-Ends_example :
    Ends endpoint 0 100 0 (1 ∷ []) 64 start (send_hid endpoint 0 0 (1 ∷ []) 64 start)
send_hid-Ends_example = send_hid-Ends endpoint 0 0 (1 ∷ []) 64 start

polling_queue-CdcLaws : CdcLaws polling_queue
polling_queue-CdcLaws = record { read_size = λ interface_id n w bytes h. ground arith }

cdc_receive_callback-Streams_example :
    Streams polling_queue
      (polling_queue.cdc_read 0 512 start)
      (cdc_receive_callback polling_queue 0 start)
cdc_receive_callback-Streams_example =
    cdc_receive_callback-Streams polling_queue 0 start polling_queue-CdcLaws

wait_ready_terminates_example :
    wait_ready busy_bus 600 start ≡ wait_loop busy_bus 700000 (0 + 600 * 1000) start
wait_ready_terminates_example =
    wait_ready_terminates busy_bus busy_bus-ClockLaws 600 700000 start (omega arith)

write_frame-normal_example :
    ((252 < 2) × (write_frame busy_bus 0x4A (1 ∷ 0 ∷ []) start ≡ (err invalid_size, start)))
    ⊎ ((2 ≤ 252)
        × (write_frame busy_bus 0x4A (1 ∷ 0 ∷ []) start
            ≡ busy_bus.transmit (normal_frame 0xD4 0x4A (1 ∷ 0 ∷ [])) start)
        × (length (normal_frame 0xD4 0x4A (1 ∷ 0 ∷ [])) ≤ 261))
write_frame-normal_example = write_frame-normal busy_bus 0x4A (1 ∷ 0 ∷ []) start (omega arith)

-- The answer to `InListPassiveTarget` with no target, in a frame of 280 bytes.
abbrev frame : Bytes
frame = 0x00 ∷ 0x00 ∷ 0xFF ∷ 0x03 ∷ 0xFD ∷ 0xD5 ∷ 0x4B ∷ 0x00 ∷ 0xE0 ∷ 0x00 ∷ replicate 270 0

frame-IsBytes : IsBytes frame
frame-IsBytes = ground arith

parse_response_iff_example :
    (parse_response 0x4A 64 frame ≡ ok (0x00 ∷ []))
    ↔ (IsAnswer 0x4A (0x00 ∷ []) frame × (length {A = ℕ} (0x00 ∷ []) ≤ 64))
parse_response_iff_example = parse_response_iff 0x4A 64 frame (0x00 ∷ []) refl frame-IsBytes

pn532_ops-Pn532Laws_example : Pn532Laws (pn532_ops busy_bus)
pn532_ops-Pn532Laws_example = pn532_ops-Pn532Laws busy_bus

valid_luid_iff_example : (valid_luid (0x12 ∷ 0x34 ∷ []) ≡ true) ↔ (
    IsDigits (0x12 ∷ 0x34 ∷ [])
    × IsNonzero (0x12 ∷ 0x34 ∷ [])
    × (byte_at (0x12 ∷ 0x34 ∷ []) 0 / 16 ≢ 3))
valid_luid_iff_example = valid_luid_iff (0x12 ∷ 0x34 ∷ [])

reader_read_card-Returns_example : Returns (reader_read_card field machine)
reader_read_card-Returns_example =
    reader_read_card-Returns field field-Pn532Laws machine with_tag-IsReader

reader_read_card-Scanned_example :
    Scanned field with_tag
      (reader_read_card field machine).1.reader
      (field.poll_felica with_tag.felica_system_code with_tag.active_felica false start).0
reader_read_card-Scanned_example = reader_read_card-Scanned field machine refl

selected : (reader_mifare_select field (1 ∷ 2 ∷ 3 ∷ 4 ∷ []) machine).0 ≡ ok tt
selected = (reader_mifare_select_iff field (1 ∷ 2 ∷ 3 ∷ 4 ∷ []) machine).1 (refl, refl)

abbrev key : Bytes
key = 9 ∷ 8 ∷ 7 ∷ 6 ∷ 5 ∷ 4 ∷ []

reader_mifare_read_block-keyed_example :
    (length (keyed field 1 key [] 0 machine).reader.mifare_keys ≡ 2)
    × (reader_mifare_read_block field (1 ∷ 2 ∷ 3 ∷ 4 ∷ []) 6 (keyed field 1 key [] 0 machine)
        ≡ (do
          on_world (field.mifare_authenticate 1 0x60 6 (take 6 key) tag.uid)
          on_world (field.mifare_read_block 1 6))
            (keyed field 1 key [] 0 machine))
reader_mifare_read_block-keyed_example =
    reader_mifare_read_block-keyed field 1 key [] 0 (1 ∷ 2 ∷ 3 ∷ 4 ∷ []) 6 machine (omega arith)
      refl selected

polling_queue-LogLaws : LogLaws field recorder polling_queue get_time sent_log
polling_queue-LogLaws = record {
  signals = λ report w e. rw e refl;
  cards = λ report_id card_id w. refl;
  answers = λ l. record { prhp = λ report w e h. rw e h; cdc = λ bytes w h. h };
  driver = field-LogKeeps;
  receiving = λ timeout_ms w. refl;
  clock = λ w. refl;
}

round-Rounds_example :
    Rounds field recorder polling_queue get_time sent_log app
      (event field recorder polling_queue get_time app)
      (round field recorder polling_queue get_time app)
round-Rounds_example =
    round-Rounds field recorder polling_queue get_time sent_log field-Pn532Laws
      polling_queue-LogLaws app

run-Alternates_example :
    Alternates zero_card (history field recorder polling_queue get_time 3 app)
    × (last zero_card (history field recorder polling_queue get_time 3 app)
        ≡ (run field recorder polling_queue get_time 3 app).current)
    × (sent_log (run field recorder polling_queue get_time 3 app).machine.world
        ≡ [] ++ all_reports (history field recorder polling_queue get_time 3 app))
run-Alternates_example =
    run-Alternates field recorder polling_queue get_time sent_log field-Pn532Laws
      polling_queue-LogLaws 3 app

run-IsApp_example : IsApp (run field recorder polling_queue get_time 3 app)
run-IsApp_example =
    run-IsApp field recorder field-Pn532Laws polling_queue polling_queue-QueueLaws get_time 3 app
      app-IsApp
