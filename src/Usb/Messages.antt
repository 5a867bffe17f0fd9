-- ===== src/Usb/Messages.antt =====
-- The messages from the USB callbacks to the main task, and `usb_device_receive`.
pub mod Queued
use pareader.Base.{
  ℕ, Bool, ◌||◌, Bytes, length, take, ltb, ◌!=◌, if◌then◌else◌, Option, Result, ok, err, Act,
}

pub data MessageType : Type 0 where
  hid cdc : MessageType

pub record UsbMessage : Type 0 where
  pub type : MessageType
  pub size : ℕ
  pub content : Bytes

-- The FreeRTOS queue of messages and the CDC read of TinyUSB.
pub record Queue (W : Type 0) : Type 0 where
  pub send : UsbMessage → W → Bool × W
  pub receive : ℕ → W → Option UsbMessage × W
  pub cdc_read : ℕ → ℕ → Act W Bytes

module _ {W : Type 0} (queue : Queue W) where
  unfoldable pub tud_hid_set_report_cb : ℕ → ℕ → ℕ → Bytes → ℕ → W → W
  tud_hid_set_report_cb instance_id report_id report_type buffer size w =
      if instance_id != 0 || report_id != 0 || size != 64
      then w
      else (queue.send (record { type = hid; size = 64; content = take 64 buffer }) w).1

  abbrev pub after_read : Result Bytes × W → W
  after_read (ok bytes, w) =
      if ltb 0 (length bytes)
      then (queue.send (record { type = cdc; size = length bytes; content = bytes }) w).1
      else w
  after_read (err e, w) = w

  unfoldable pub cdc_receive_callback : ℕ → W → W
  cdc_receive_callback interface_id w = after_read (queue.cdc_read interface_id 512 w)

  -- `none` is `false`.
  abbrev pub usb_device_receive : ℕ → W → Option UsbMessage × W
  usb_device_receive timeout_ms w = queue.receive timeout_ms w
