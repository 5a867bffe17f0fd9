-- ===== src/Pn532/Codes.antt =====
-- The constants at the top of pn532.c.
use Prim.Native.Nat.{ℕ}

abbrev pub pn532_i2c_address : ℕ
pn532_i2c_address = 0x24

abbrev pub pn532_i2c_frequency_hz : ℕ
pn532_i2c_frequency_hz = 100000

abbrev pub pn532_i2c_transfer_timeout_ms : ℕ
pn532_i2c_transfer_timeout_ms = 100

abbrev pub pn532_i2c_ready : ℕ
pn532_i2c_ready = 0x01

abbrev pub pn532_host_to_pn532 : ℕ
pn532_host_to_pn532 = 0xD4

abbrev pub pn532_pn532_to_host : ℕ
pn532_pn532_to_host = 0xD5

abbrev pub pn532_command_sam_configuration : ℕ
pn532_command_sam_configuration = 0x14

abbrev pub pn532_command_rf_configuration : ℕ
pn532_command_rf_configuration = 0x32

abbrev pub pn532_command_in_data_exchange : ℕ
pn532_command_in_data_exchange = 0x40

abbrev pub pn532_command_in_list_passive_target : ℕ
pn532_command_in_list_passive_target = 0x4A

abbrev pub pn532_frame_capacity : ℕ
pn532_frame_capacity = 280

abbrev pub pn532_command_timeout_ms : ℕ
pn532_command_timeout_ms = 600
