-- ===== src/Sega/Dispatch.antt =====
-- `dispatch`, `dispatch_nfc` and `dispatch_led`. A request is the list of the `size` bytes that
-- the parser hands over, and the payload is what follows its first five.
pub mod Replies
pub mod Nfc
pub mod Outcome
pub mod Poll
use pareader.Base.{
  ℕ, ◌+◌, ◌-◌, Bool, true, false, ◌||◌, List, [], ◌∷◌, ◌++◌, Bytes, byte_at, take, drop, replicate,
  length, ltb, ◌==◌, ◌!=◌, if◌then◌else◌, EspErr, invalid_size, Result, ok, err, is_ok,
}
use pareader.Usb.{UsbDevice}
use pareader.Reader.{ReaderOps}
use pareader.Card.{
  Card, CardType, card_none, card_mifare, card_felica, reader_key_aime, reader_key_bana,
  reader_set_led,
}
use pareader.Sega.Codes.{
  sg_address_nfc, sg_address_led, sg_nfc_get_fw_version, sg_nfc_get_hw_version, sg_nfc_radio_on,
  sg_nfc_radio_off, sg_nfc_poll, sg_nfc_mifare_select_tag, sg_nfc_mifare_set_key_aime,
  sg_nfc_mifare_authenticate_aime, sg_nfc_mifare_read_block, sg_nfc_mifare_set_key_bana,
  sg_nfc_mifare_authenticate_bana, sg_nfc_to_update_mode, sg_nfc_send_hex_data, sg_nfc_reset,
  sg_nfc_felica_encap, sg_led_set_color, sg_led_get_info, sg_led_reset,
}
use pareader.Sega.Encode.{send_response}

module _ {S : Type 0} (usb : UsbDevice S) (reader : ReaderOps S) where
  -- The end of `dispatch_nfc`, at which a `break` arrives with `err`.
  unfoldable pub finish : Bytes → Result (Unit {0}) × S → S
  finish request (r, s) = send_response usb request (if is_ok r then 0 else 1) [] 0 s

  -- `SG_NFC_POLL` when the card was read.
  unfoldable pub send_card : Bytes → CardType → Card → S → S
  send_card request card_mifare card s =
      send_response usb request 0 (1 ∷ 0x10 ∷ 4 ∷ (take 4 card.mifare_uid ++ replicate 12 0)) 7 s
  send_card request card_felica card s =
      send_response usb request 0 (1 ∷ 0x20 ∷ 16 ∷ (take 8 card.idm ++ take 8 card.pmm)) 19 s
  send_card request card_none card s = send_response usb request 0 (replicate 19 0) 1 s

  unfoldable pub poll_result : Bytes → Result Card × S → S
  poll_result request (ok card, s) = send_card request card.type card s
  poll_result request (err e, s) = finish request (err e, s)

  -- A result with data is sent; an error ends at the `break`.
  unfoldable pub send_result : Bytes → Result Bytes × S → S
  send_result request (ok response, s) = send_response usb request 0 response (length response) s
  send_result request (err e, s) = finish request (err e, s)

  unfoldable pub dispatch_nfc : Bytes → Bytes → ℕ → S → S
  dispatch_nfc request payload payload_size s =
      let command = byte_at request 3 in
      if command == sg_nfc_reset
      then send_response usb request 3 [] 0 s
      else if command == sg_nfc_get_fw_version
      then send_response usb request 0 (0x94 ∷ []) 1 s
      else if command == sg_nfc_get_hw_version
      then send_response usb request 0
          (b'8' ∷ b'3' ∷ b'7' ∷ b'-' ∷ b'1' ∷ b'5' ∷ b'2' ∷ b'8' ∷ b'6' ∷ []) 9 s
      else if command == sg_nfc_radio_on
      then finish request (reader.radio_set true s)
      else if command == sg_nfc_radio_off
      then finish request (reader.radio_set false s)
      else if command == sg_nfc_poll
      then poll_result request (reader.read_card s)
      else if command == sg_nfc_mifare_select_tag
      then (if payload_size != 4
          then finish request (err invalid_size, s)
          else finish request (reader.mifare_select (take 4 payload) s))
      else if command == sg_nfc_mifare_set_key_aime || command == sg_nfc_mifare_set_key_bana
      then (if payload_size != 6
          then finish request (err invalid_size, s)
          else finish request (
              reader.mifare_set_key
                (if command == sg_nfc_mifare_set_key_aime then reader_key_aime else reader_key_bana)
                (take 6 payload) s))
      else if command == sg_nfc_mifare_authenticate_aime
          || command == sg_nfc_mifare_authenticate_bana
      then finish request (
          reader.mifare_authenticate
            (if command == sg_nfc_mifare_authenticate_aime
              then reader_key_aime
              else reader_key_bana)
            payload payload_size s)
      else if command == sg_nfc_mifare_read_block
      then (if payload_size != 5
          then finish request (err invalid_size, s)
          else send_result request
              (reader.mifare_read_block (take 4 payload) (byte_at payload 4) s))
      else if command == sg_nfc_felica_encap
      then (if ltb payload_size 9 || payload_size != 8 + byte_at payload 8
          then finish request (err invalid_size, s)
          else send_result request (
              reader.felica_transact (take (byte_at payload 8) (drop 8 payload)) (byte_at payload 8)
                250 s))
      else if command == sg_nfc_to_update_mode
      then finish request (ok tt, s)
      else if command == sg_nfc_send_hex_data
      then send_response usb request (if payload_size == 0x2B then 0x20 else 0) [] 0 s
      else send_response usb request 1 [] 0 s

  unfoldable pub dispatch_led : Bytes → Bytes → ℕ → S → S
  dispatch_led request payload payload_size s =
      let command = byte_at request 3 in
      if command == sg_led_set_color
      then (if payload_size == 3
          then reader_set_led (byte_at payload 0) (byte_at payload 1) (byte_at payload 2) s
          else s)
      else if command == sg_led_reset
      then send_response usb request 0 (0 ∷ []) 1 (reader_set_led 0 0 0 s)
      else if command == sg_led_get_info
      then send_response usb request 0
          (b'0' ∷ b'0' ∷ b'0' ∷ b'-' ∷ b'0' ∷ b'0' ∷ b'0' ∷ b'0' ∷ b'0' ∷ 0xFF ∷ 0x11 ∷ 0x40 ∷ [])
          12 s
      else send_response usb request 1 [] 0 s

  unfoldable pub dispatch : Bytes → ℕ → S → S
  dispatch request size s =
      if ltb size 5 || byte_at request 0 != size || byte_at request 4 != size - 5
      then s
      else if byte_at request 1 == sg_address_nfc
      then dispatch_nfc request (drop 5 request) (byte_at request 4) s
      else if byte_at request 1 == sg_address_led
      then dispatch_led request (drop 5 request) (byte_at request 4) s
      else s
