-- ===== src/Usb/Init.antt =====
-- `usb_device_init` of usb_device.c: the queue, the driver and the CDC port.
pub mod Total
use pareader.Base.{
  ℕ, Bool, true, false, List, [], ◌∷◌, Bytes, length, if◌then◌else◌, Option, none, some, no_mem,
  Result, ok, err, Act, raise, ◌>>=◌, ◌>>◌,
}
use pareader.Usb.Messages.{Queue, cdc_receive_callback}
use pareader.Usb.Descriptors.{
  TusbMacros, DeviceDescriptor, StringEntry, device_descriptor, configuration_descriptor,
  string_descriptor,
}

abbrev pub messages_length : ℕ
messages_length = 16

-- What is set of `tinyusb_config_t`.
pub record UsbConfig : Type 0 where
  pub device : DeviceDescriptor
  pub full_speed_config : Bytes
  pub strings : List StringEntry
  pub string_count : ℕ
  pub high_speed_config : Option Bytes

-- `tinyusb_config_cdcacm_t`; a callback acts on the world for an interface.
pub record CdcConfig (W : Type 0) : Type 0 where
  pub cdc_port : ℕ
  pub callback_rx : Option (ℕ → W → W)
  pub callback_rx_wanted_char : Option (ℕ → W → W)
  pub callback_line_state_changed : Option (ℕ → W → W)
  pub callback_line_coding_changed : Option (ℕ → W → W)

-- What `usb_device_init` uses of FreeRTOS and TinyUSB. `xQueueCreate` gives `false` for `NULL`,
-- and `high_speed` is `TUD_OPT_HIGH_SPEED`.
pub record UsbDriver (W : Type 0) : Type 0 where
  pub high_speed : Bool
  pub queue_create : ℕ → W → Bool × W
  pub driver_install : UsbConfig → Act W (Unit {0})
  pub cdcacm_init : CdcConfig W → Act W (Unit {0})

module _ {W : Type 0} (tusb : TusbMacros) (driver : UsbDriver W) (queue : Queue W) where
  abbrev pub usb_config : UsbConfig
  usb_config = record {
    device = device_descriptor tusb;
    full_speed_config = configuration_descriptor tusb;
    strings = string_descriptor;
    string_count = length string_descriptor;
    high_speed_config = if driver.high_speed then some (configuration_descriptor tusb) else none;
  }

  abbrev pub cdc_config : CdcConfig W
  cdc_config = record {
    cdc_port = 0;
    callback_rx = some (cdc_receive_callback queue);
    callback_rx_wanted_char = none;
    callback_line_state_changed = none;
    callback_line_coding_changed = none;
  }

  -- From the test of the queue on.
  abbrev pub after_queue : Bool × W → Result (Unit {0}) × W
  after_queue (false, w) = raise no_mem w
  after_queue (true, w) = (do driver.driver_install usb_config; driver.cdcacm_init cdc_config) w

  unfoldable pub usb_device_init : Act W (Unit {0})
  usb_device_init w = after_queue (driver.queue_create messages_length w)
