-- ===== src/Prhp.antt =====
-- impl/firmware/main/prhp.c: the PRHP reports.
pub mod Spec
pub mod Refinement
pub mod CardState
use pareader.Base.{
  ℕ, ◌+◌, Bool, true, false, not, ◌&&◌, ◌||◌, Bytes, byte_at, drop, set, replicate, copy_at, u8,
  bit_or, ◌%◌, ◌^◌, ◌<<<◌, ◌>>>◌, ◌==◌, ◌!=◌, if◌then◌else◌, exec,
}
use pareader.Usb.{UsbDevice}
use pareader.Card.{Card, card_none, card_mifare, card_felica, type_code, is_type, reader_set_led}

abbrev pub prhp_report_size : ℕ
prhp_report_size = 64

abbrev pub prhp_request : ℕ
prhp_request = 0x01

abbrev pub prhp_response : ℕ
prhp_response = 0x02

abbrev pub prhp_signal : ℕ
prhp_signal = 0x03

abbrev pub prhp_get_version : ℕ
prhp_get_version = 0x01

abbrev pub prhp_card_state : ℕ
prhp_card_state = 0x02

abbrev pub prhp_set_led : ℕ
prhp_set_led = 0x03

abbrev pub prhp_success : ℕ
prhp_success = 0x00

abbrev pub prhp_unknown_opcode : ℕ
prhp_unknown_opcode = 0x01

abbrev pub prhp_invalid_message : ℕ
prhp_invalid_message = 0x02

unfoldable pub read_le16 : Bytes → ℕ
read_le16 bytes = bit_or (byte_at bytes 0) (byte_at bytes 1 <<< 8) % 2 ^ 16

-- At `&bytes[offset]`.
unfoldable pub write_le16 : Bytes → ℕ → ℕ → Bytes
write_le16 bytes offset value = set (set bytes offset (u8 value)) (offset + 1) (u8 (value >>> 8))

unfoldable pub begin_response : ℕ → ℕ → ℕ → Bytes
unfolding write_le16
begin_response opcode status sequence =
    set (write_le16 (set (set (replicate prhp_report_size 0) 0 prhp_response) 1 opcode) 2 sequence)
      4 status

-- `signal` up to the card's type.
unfoldable pub begin_signal : Card → Bytes
begin_signal card =
    set (set (set (replicate prhp_report_size 0) 0 prhp_signal) 1 prhp_card_state) 5 (
      if is_type card.type card_mifare && not card.has_blocks
      then type_code card_none
      else type_code card.type)

unfoldable pub card_state_signal : Card → Bytes
unfolding begin_signal
card_state_signal card =
    let signal = begin_signal card in
    if byte_at signal 5 == type_code card_mifare
    then copy_at (copy_at signal 6 card.luid 10) 16 card.blocks 32
    else if byte_at signal 5 == type_code card_felica
    then copy_at signal 6 card.idm 8
    else signal

module _ {S : Type 0} (usb : UsbDevice S) where
  unfoldable pub send_error : ℕ → ℕ → ℕ → S → S
  send_error opcode status sequence s =
      exec (usb.send_prhp (begin_response opcode status sequence)) s

  unfoldable pub prhp_publish_card_state : Card → S → S
  prhp_publish_card_state card s = exec (usb.send_prhp (card_state_signal card)) s

  unfoldable pub prhp_dispatch : Bytes → S → S
  unfolding send_error
  prhp_dispatch request s =
      let message_type = byte_at request 0 in
      let opcode = byte_at request 1 in
      let sequence = read_le16 (drop 2 request) in
      if byte_at request 4 != 0
      then (if message_type == prhp_request && sequence != 0
          then send_error opcode prhp_invalid_message sequence s
          else s)
      else if message_type == prhp_signal
      then (if sequence == 0 && opcode == prhp_set_led
          then reader_set_led (byte_at request 5) (byte_at request 6) (byte_at request 7) s
          else s)
      else if message_type != prhp_request || sequence == 0
      then s
      else if opcode == prhp_get_version
      then exec (usb.send_prhp (set (set (begin_response opcode prhp_success sequence) 5 0) 6 1)) s
      else send_error opcode prhp_unknown_opcode sequence s
