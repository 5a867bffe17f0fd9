-- ===== src/Usb/Init/Total.antt =====
-- The configuration descriptor that the driver gets.
use pareader.Base.{ℕ, ◌≡◌, length, length-append, arith}
use pareader.Usb.Descriptors.{TusbMacros, configuration_total_length, configuration_descriptor}

-- Each macro of TinyUSB expands to as many bytes as its length constant says.
pub record MacroLaws (tusb : TusbMacros) : Type 0 where
  pub config_size :
      (n interfaces string_index total attributes power : ℕ)
      → length (tusb.config_descriptor n interfaces string_index total attributes power)
        ≡ tusb.config_desc_len
  pub cdc_size :
      (interface_id string_index notification size out_endpoint in_endpoint packet : ℕ)
      → length (
          tusb.cdc_descriptor interface_id string_index notification size out_endpoint in_endpoint
            packet)
        ≡ tusb.cdc_desc_len
  pub hid_inout_size :
      (interface_id string_index protocol report_size out_endpoint in_endpoint packet poll : ℕ)
      → length (
          tusb.hid_inout_descriptor interface_id string_index protocol report_size out_endpoint
            in_endpoint packet poll)
        ≡ tusb.hid_inout_desc_len
  pub hid_size :
      (interface_id string_index protocol report_size in_endpoint packet poll : ℕ)
      → length (
          tusb.hid_descriptor interface_id string_index protocol report_size in_endpoint packet
            poll)
        ≡ tusb.hid_desc_len

-- The configuration descriptor has the total length that it gives for itself.
pub length-configuration_descriptor :
    (tusb : TusbMacros)
    → MacroLaws tusb
    → length (configuration_descriptor tusb) ≡ configuration_total_length tusb
unfolding configuration_descriptor
length-configuration_descriptor tusb laws =
    simp (length-append, laws.config_size, laws.cdc_size, laws.hid_inout_size, laws.hid_size)
      (omega arith)
