-- ===== src/Usb.antt =====
-- What the protocol modules use of the USB device (impl/firmware/main/usb_device.h): the three
-- send functions, over any state that sending may change.
pub mod Device
pub mod Messages
pub mod Descriptors
pub mod Init
use pareader.Base.{ℕ, Bytes, Act}

pub record UsbDevice (S : Type 0) : Type 0 where
  pub send_prhp : Bytes → Act S (Unit {0})
  pub send_cardio : ℕ → Bytes → Act S (Unit {0})
  pub send_cdc : Bytes → Act S (Unit {0})
