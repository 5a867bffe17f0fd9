-- ===== src/Usb/Device.antt =====
-- The send functions of impl/firmware/main/usb_device.c.
pub mod Attempts
use pareader.Base.{
  ℕ, zero, suc, Bool, true, false, not, Bytes, if◌then◌else◌, invalid_state, timeout, fail, Result,
  ok, err, Act, ◌>>=◌, ◌>>◌, raise,
}
use pareader.Usb.{UsbDevice}

-- What the firmware uses of TinyUSB and of `vTaskDelay(pdMS_TO_TICKS(ms))`.
pub record TinyUsb (W : Type 0) : Type 0 where
  pub mounted : W → Bool × W
  pub hid_ready : ℕ → W → Bool × W
  pub hid_report : ℕ → ℕ → Bytes → ℕ → W → Bool × W
  pub delay_ms : ℕ → W → W
  pub cdc_write_queue : Bytes → Act W (Unit {0})
  pub cdc_write_flush : Act W (Unit {0})

module _ {W : Type 0} (tud : TinyUsb W) where
  abbrev pub report_result : Bool × W → Result (Unit {0}) × W
  report_result (true, w) = (ok tt, w)
  report_result (false, w) = (err fail, w)

  -- The loop of `send_hid`, by the attempts that are left.
  unfoldable pub send_attempts : ℕ → ℕ → ℕ → Bytes → ℕ → Act W (Unit {0})
  send_attempts zero instance_id report_id report size w = raise timeout w
  send_attempts (suc left) instance_id report_id report size w =
      let again = send_attempts left instance_id report_id report size in
      elim (tud.mounted w).0 [
        | false ↦ raise invalid_state (tud.mounted w).1
        | true ↦ elim (tud.hid_ready instance_id (tud.mounted w).1).0 [
          | true ↦ report_result (
              tud.hid_report instance_id report_id report size
                (tud.hid_ready instance_id (tud.mounted w).1).1)
          | false ↦ again (tud.delay_ms 1 (tud.hid_ready instance_id (tud.mounted w).1).1)
        ]
      ]

  unfoldable pub send_hid : ℕ → ℕ → Bytes → ℕ → Act W (Unit {0})
  send_hid = send_attempts 100

  abbrev pub usb_device_send_prhp : Bytes → Act W (Unit {0})
  usb_device_send_prhp report = send_hid 0 0 report 64

  abbrev pub usb_device_send_cardio : ℕ → Bytes → Act W (Unit {0})
  usb_device_send_cardio report_id card_id = send_hid 1 report_id card_id 8

  abbrev pub usb_device_send_cdc : Bytes → Act W (Unit {0})
  usb_device_send_cdc bytes = do tud.cdc_write_queue bytes; tud.cdc_write_flush

  abbrev pub usb_ops : UsbDevice W
  usb_ops = record {
    send_prhp = usb_device_send_prhp;
    send_cardio = usb_device_send_cardio;
    send_cdc = usb_device_send_cdc;
  }
