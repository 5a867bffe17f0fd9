-- ===== src/Sega/Codes.antt =====
-- The addresses and command codes at the top of sega.c.
use Prim.Native.Nat.{ℕ}

abbrev pub sg_address_nfc : ℕ
sg_address_nfc = 0x00

abbrev pub sg_address_led : ℕ
sg_address_led = 0x08

abbrev pub sg_nfc_get_fw_version : ℕ
sg_nfc_get_fw_version = 0x30

abbrev pub sg_nfc_get_hw_version : ℕ
sg_nfc_get_hw_version = 0x32

abbrev pub sg_nfc_radio_on : ℕ
sg_nfc_radio_on = 0x40

abbrev pub sg_nfc_radio_off : ℕ
sg_nfc_radio_off = 0x41

abbrev pub sg_nfc_poll : ℕ
sg_nfc_poll = 0x42

abbrev pub sg_nfc_mifare_select_tag : ℕ
sg_nfc_mifare_select_tag = 0x43

abbrev pub sg_nfc_mifare_set_key_aime : ℕ
sg_nfc_mifare_set_key_aime = 0x50

abbrev pub sg_nfc_mifare_authenticate_aime : ℕ
sg_nfc_mifare_authenticate_aime = 0x51

abbrev pub sg_nfc_mifare_read_block : ℕ
sg_nfc_mifare_read_block = 0x52

abbrev pub sg_nfc_mifare_set_key_bana : ℕ
sg_nfc_mifare_set_key_bana = 0x54

abbrev pub sg_nfc_mifare_authenticate_bana : ℕ
sg_nfc_mifare_authenticate_bana = 0x55

abbrev pub sg_nfc_to_update_mode : ℕ
sg_nfc_to_update_mode = 0x60

abbrev pub sg_nfc_send_hex_data : ℕ
sg_nfc_send_hex_data = 0x61

abbrev pub sg_nfc_reset : ℕ
sg_nfc_reset = 0x62

abbrev pub sg_nfc_felica_encap : ℕ
sg_nfc_felica_encap = 0x71

abbrev pub sg_led_set_color : ℕ
sg_led_set_color = 0x81

abbrev pub sg_led_get_info : ℕ
sg_led_get_info = 0xF0

abbrev pub sg_led_reset : ℕ
sg_led_reset = 0xF5
