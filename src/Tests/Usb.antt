-- ===== src/Tests/Usb.antt =====
-- Witnesses for the USB descriptors and the start.
use pareader.Base.{ℕ, ◌+◌, ◌*◌, ◌≡◌, ◌≢◌, ◌⊎◌, refl, true, false, Bytes, length, replicate, ok}
use pareader.Card.{card_none}
use pareader.Cardio.{cardio_report}
use pareader.Usb.Messages.{UsbMessage, hid, tud_hid_set_report_cb}
use pareader.Usb.Messages.Queued.{IsMessage}
use pareader.Usb.Descriptors.{TusbMacros, tud_hid_descriptor_report_cb}
use pareader.Usb.Descriptors.Hid.{input, output, fields_of, Declares}
use pareader.Usb.Descriptors.Declared.{tud_hid_set_report_cb-Declares, cardio_report-Declares}
use pareader.Usb.Init.{UsbDriver}
use pareader.App.{app_start}
use pareader.App.Start.{Starts, app_start-Starts}
use pareader.Tests.Setup.{World, start, field, idle_parser, polling_queue, mifare, mifare-IsSized}

-- Macros that expand to zeros, in the lengths of the USB specification.
abbrev macros : TusbMacros
macros = record {
  device_desc_size = 18;
  tusb_desc_device = 1;
  tusb_class_misc = 0xEF;
  misc_subclass_common = 2;
  misc_protocol_iad = 1;
  endpoint0_size = 64;
  remote_wakeup = 0x20;
  hid_itf_protocol_none = 0;
  config_desc_len = 9;
  cdc_desc_len = 66;
  hid_inout_desc_len = 32;
  hid_desc_len = 25;
  config_descriptor = λ n interfaces string_index total attributes power. replicate 9 0;
  cdc_descriptor =
      λ interface_id string_index notification size out_endpoint in_endpoint packet. replicate 66 0;
  hid_inout_descriptor =
      λ interface_id string_index protocol report_size out_endpoint in_endpoint packet poll.
        replicate 32 0;
  hid_descriptor =
      λ interface_id string_index protocol report_size in_endpoint packet poll. replicate 25 0;
}

abbrev driver : UsbDriver World
driver = record {
  high_speed = false;
  queue_create = λ n w. (true, w);
  driver_install = λ config w. (ok tt, w);
  cdcacm_init = λ config w. (ok tt, w);
}

app_start-Starts_example :
    Starts field macros driver polling_queue start
      (app_start field macros driver polling_queue idle_parser start)
app_start-Starts_example = app_start-Starts field macros driver polling_queue idle_parser start refl

tud_hid_set_report_cb-Declares_example :
    let buffer : Bytes = replicate 64 1 in
    let w' = tud_hid_set_report_cb polling_queue 0 0 2 buffer (length buffer) start in
    let m : UsbMessage = record { type = hid; size = 64; content = buffer } in
    let declared =
      Declares (fields_of (tud_hid_descriptor_report_cb 0)) output 0 (length buffer * 8) in
    (declared × IsMessage m × (w' ≡ (polling_queue.send m start).1)) ⊎ ((¬ declared) × (w' ≡ start))
tud_hid_set_report_cb-Declares_example =
    tud_hid_set_report_cb-Declares polling_queue 0 0 2 (replicate 64 1) start

cardio_report-Declares_example :
    let r = cardio_report mifare.type mifare in
    ((mifare.type ≢ card_none)
      × Declares
          (fields_of (tud_hid_descriptor_report_cb 1))
          input
          r.report_id
          (length r.card_id * 8)
      × (1 + length r.card_id ≡ 9))
    ⊎ ((mifare.type ≡ card_none)
        × (r.report_id ≡ 0)
        × (r.card_id ≡ replicate 8 0)
        × ((bits : ℕ) → ¬ Declares (fields_of (tud_hid_descriptor_report_cb 1)) input 0 bits))
cardio_report-Declares_example = cardio_report-Declares mifare mifare-IsSized
