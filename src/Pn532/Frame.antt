-- ===== src/Pn532/Frame.antt =====
-- The frames of pn532.c: what `write_frame` transmits, and what `command` accepts.
pub mod Normal
use pareader.Base.{
  ℕ, ◌+◌, ◌-◌, ◌%◌, Bool, ◌||◌, [], ◌∷◌, ◌++◌, Bytes, byte_at, take, drop, sum8, u8, length, ltb,
  ◌==◌, ◌!=◌, if◌then◌else◌, invalid_size, invalid_response, invalid_crc, Result, ok, err,
}
use pareader.Pn532.Codes.{pn532_host_to_pn532, pn532_pn532_to_host, pn532_frame_capacity}

-- `(uint8_t) (0U - x)`
abbrev pub neg8 : ℕ → ℕ
neg8 x = (256 - x % 256) % 256

-- The bytes of `frame` up to `position`.
unfoldable pub command_frame : ℕ → Bytes → Bytes
command_frame command payload =
    let data_size = length payload + 2 in
    let checksum = sum8 (u8 (pn532_host_to_pn532 + command)) payload in
    0x00
    ∷ 0x00
    ∷ 0xFF
    ∷ u8 data_size
    ∷ neg8 data_size
    ∷ pn532_host_to_pn532
    ∷ command
    ∷ (payload ++ neg8 checksum ∷ 0x00 ∷ [])

-- `command` from the check of the preamble on, with what it writes to `response`.
unfoldable pub parse_response : ℕ → ℕ → Bytes → Result Bytes
parse_response command_code response_capacity frame =
    let data_size = byte_at frame 3 in
    let checksum = sum8 0 (take data_size (drop 5 frame)) in
    if byte_at frame 0 != 0x00 || byte_at frame 1 != 0x00 || byte_at frame 2 != 0xFF
    then err invalid_response
    else if ltb data_size 2 || data_size == 0xFF || u8 (byte_at frame 3 + byte_at frame 4) != 0
    then err invalid_response
    else if ltb pn532_frame_capacity (5 + data_size + 2)
    then err invalid_size
    else if u8 (checksum + byte_at frame (5 + data_size)) != 0
        || byte_at frame (5 + data_size + 1) != 0
    then err invalid_crc
    else if byte_at frame 5 != pn532_pn532_to_host || byte_at frame 6 != u8 (command_code + 1)
    then err invalid_response
    else if ltb response_capacity (data_size - 2)
    then err invalid_size
    else ok (take (data_size - 2) (drop 7 frame))
