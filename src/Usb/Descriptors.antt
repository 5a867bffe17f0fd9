-- ===== src/Usb/Descriptors.antt =====
-- The descriptors of usb_device.c, and the callbacks that hand them out. The macros of TinyUSB
-- are a parameter.
pub mod Hid
pub mod Declared
use Prim.Native.String.{String}
use pareader.Base.{ℕ, ◌+◌, ◌==◌, if◌then◌else◌, List, [], ◌∷◌, ◌++◌, Bytes, length}
use pareader.Prhp.{prhp_report_size}

abbrev pub interface_cdc_control : ℕ
interface_cdc_control = 0

abbrev pub interface_cdc_data : ℕ
interface_cdc_data = 1

abbrev pub interface_hid_prhp : ℕ
interface_hid_prhp = 2

abbrev pub interface_hid_cardio : ℕ
interface_hid_cardio = 3

abbrev pub interface_count : ℕ
interface_count = 4

abbrev pub endpoint_cdc_notification : ℕ
endpoint_cdc_notification = 0x81

abbrev pub endpoint_cdc_out : ℕ
endpoint_cdc_out = 0x02

abbrev pub endpoint_cdc_in : ℕ
endpoint_cdc_in = 0x82

abbrev pub endpoint_prhp_out : ℕ
endpoint_prhp_out = 0x03

abbrev pub endpoint_prhp_in : ℕ
endpoint_prhp_in = 0x83

abbrev pub endpoint_cardio_in : ℕ
endpoint_cardio_in = 0x84

-- The constants and the descriptor macros of TinyUSB that usb_device.c uses.
pub record TusbMacros : Type 0 where
  pub device_desc_size : ℕ
  pub tusb_desc_device : ℕ
  pub tusb_class_misc : ℕ
  pub misc_subclass_common : ℕ
  pub misc_protocol_iad : ℕ
  pub endpoint0_size : ℕ
  pub remote_wakeup : ℕ
  pub hid_itf_protocol_none : ℕ
  pub config_desc_len : ℕ
  pub cdc_desc_len : ℕ
  pub hid_inout_desc_len : ℕ
  pub hid_desc_len : ℕ
  pub config_descriptor : ℕ → ℕ → ℕ → ℕ → ℕ → ℕ → Bytes
  pub cdc_descriptor : ℕ → ℕ → ℕ → ℕ → ℕ → ℕ → ℕ → Bytes
  pub hid_inout_descriptor : ℕ → ℕ → ℕ → ℕ → ℕ → ℕ → ℕ → ℕ → Bytes
  pub hid_descriptor : ℕ → ℕ → ℕ → ℕ → ℕ → ℕ → ℕ → Bytes

-- `tusb_desc_device_t`
pub record DeviceDescriptor : Type 0 where
  pub b_length : ℕ
  pub b_descriptor_type : ℕ
  pub bcd_usb : ℕ
  pub b_device_class : ℕ
  pub b_device_sub_class : ℕ
  pub b_device_protocol : ℕ
  pub b_max_packet_size0 : ℕ
  pub id_vendor : ℕ
  pub id_product : ℕ
  pub bcd_device : ℕ
  pub i_manufacturer : ℕ
  pub i_product : ℕ
  pub i_serial_number : ℕ
  pub b_num_configurations : ℕ

-- An entry of the string table: the language, or a text.
pub data StringEntry : Type 0 where
  language : Bytes → StringEntry
  text : String → StringEntry

unfoldable pub prhp_report_descriptor : Bytes
prhp_report_descriptor =
    0x06 ∷ 0x50 ∷ 0xFF ∷ 0x09 ∷ 0x01 ∷ 0xA1 ∷ 0x01 ∷ 0x15 ∷ 0x00 ∷ 0x26 ∷ 0xFF ∷ 0x00 ∷ 0x75 ∷ 0x08
    ∷ 0x95 ∷ prhp_report_size ∷ 0x09 ∷ 0x01 ∷ 0x81 ∷ 0x02 ∷ 0x95 ∷ prhp_report_size ∷ 0x09 ∷ 0x01
    ∷ 0x91 ∷ 0x02 ∷ 0xC0 ∷ []

unfoldable pub cardio_report_descriptor : Bytes
cardio_report_descriptor =
    0x06 ∷ 0xCA ∷ 0xFF ∷ 0x09 ∷ 0x01 ∷ 0xA1 ∷ 0x01 ∷ 0x85 ∷ 0x01 ∷ 0x09 ∷ 0x41 ∷ 0x15 ∷ 0x00 ∷ 0x26
    ∷ 0xFF ∷ 0x00 ∷ 0x75 ∷ 0x08 ∷ 0x95 ∷ 0x08 ∷ 0x81 ∷ 0x02 ∷ 0x85 ∷ 0x02 ∷ 0x09 ∷ 0x42 ∷ 0x15
    ∷ 0x00 ∷ 0x26 ∷ 0xFF ∷ 0x00 ∷ 0x75 ∷ 0x08 ∷ 0x95 ∷ 0x08 ∷ 0x81 ∷ 0x02 ∷ 0xC0 ∷ []

abbrev pub string_descriptor : List StringEntry
string_descriptor =
    language (0x09 ∷ 0x04 ∷ [])
    ∷ text "PA Reader"
    ∷ text "PA Reader NFC"
    ∷ text "000001"
    ∷ text "SEGA Reader"
    ∷ text "PA Reader PRHP"
    ∷ text "PA Reader CardIO"
    ∷ []

unfoldable pub tud_hid_descriptor_report_cb : ℕ → Bytes
tud_hid_descriptor_report_cb instance_id =
    if instance_id == 0 then prhp_report_descriptor else cardio_report_descriptor

-- The number of bytes that it writes, which is none, and the buffer after it.
abbrev pub tud_hid_get_report_cb : ℕ → ℕ → ℕ → Bytes → ℕ → ℕ × Bytes
tud_hid_get_report_cb instance_id report_id report_type buffer requested_length = (0, buffer)

module _ (tusb : TusbMacros) where
  abbrev pub device_descriptor : DeviceDescriptor
  device_descriptor = record {
    b_length = tusb.device_desc_size;
    b_descriptor_type = tusb.tusb_desc_device;
    bcd_usb = 0x0200;
    b_device_class = tusb.tusb_class_misc;
    b_device_sub_class = tusb.misc_subclass_common;
    b_device_protocol = tusb.misc_protocol_iad;
    b_max_packet_size0 = tusb.endpoint0_size;
    id_vendor = 0x5041;
    id_product = 0x5245;
    bcd_device = 0x0100;
    i_manufacturer = 0x01;
    i_product = 0x02;
    i_serial_number = 0x03;
    b_num_configurations = 0x01;
  }

  abbrev pub configuration_total_length : ℕ
  configuration_total_length =
      tusb.config_desc_len + tusb.cdc_desc_len + tusb.hid_inout_desc_len + tusb.hid_desc_len

  unfoldable pub configuration_descriptor : Bytes
  configuration_descriptor =
      tusb.config_descriptor 1 interface_count 0 configuration_total_length tusb.remote_wakeup 100
      ++ (tusb.cdc_descriptor interface_cdc_control 4 endpoint_cdc_notification 8 endpoint_cdc_out
            endpoint_cdc_in 64
          ++ (tusb.hid_inout_descriptor interface_hid_prhp 5 tusb.hid_itf_protocol_none
                (length prhp_report_descriptor) endpoint_prhp_out endpoint_prhp_in prhp_report_size
                1
              ++ tusb.hid_descriptor interface_hid_cardio 6 tusb.hid_itf_protocol_none
                  (length cardio_report_descriptor) endpoint_cardio_in 9 1))
