-- ===== src/Sega/Encode.antt =====
-- `encode_byte` and `send_response`. The output arrays grow at their end, so they are lists.
pub mod Shape
pub mod Delivery
use pareader.Base.{
  ℕ, ◌+◌, Bool, ◌||◌, List, [], ◌∷◌, ◌++◌, ◌%◌, Bytes, byte_at, take, u8, ltb, ◌==◌, if◌then◌else◌,
  exec,
}
use pareader.Usb.{UsbDevice}

abbrev pub sg_sync : ℕ
sg_sync = 0xE0

abbrev pub sg_escape : ℕ
sg_escape = 0xD0

-- `byte - 1` is stored in a `uint8_t`.
unfoldable pub encode_byte : ℕ → Bytes → Bytes
encode_byte byte output =
    if byte == sg_escape || byte == sg_sync
    then output ++ sg_escape ∷ u8 (byte + 255) ∷ []
    else output ++ byte ∷ []

-- The loop over `decoded`: the checksum and the output when it ends.
unfoldable pub encode_loop : Bytes → ℕ → Bytes → ℕ × Bytes
encode_loop [] checksum output = (checksum, output)
encode_loop (b ∷ bs) checksum output = encode_loop bs (u8 (checksum + b)) (encode_byte b output)

-- `encoded`, from its first byte to the checksum.
unfoldable pub encode_frame : Bytes → Bytes
encode_frame decoded =
    let (checksum, output) = encode_loop decoded 0 (sg_sync ∷ []) in encode_byte checksum output

-- The bytes of `decoded` up to `decoded_size`.
unfoldable pub decoded_response : Bytes → ℕ → Bytes → ℕ → Bytes
decoded_response request status payload payload_size =
    u8 (6 + payload_size)
    ∷ byte_at request 1
    ∷ byte_at request 2
    ∷ byte_at request 3
    ∷ status
    ∷ u8 payload_size
    ∷ take payload_size payload

unfoldable pub send_response : {S : Type 0} → UsbDevice S → Bytes → ℕ → Bytes → ℕ → S → S
send_response usb request status payload payload_size s =
    if ltb 249 payload_size
    then s
    else exec (usb.send_cdc (encode_frame (decoded_response request status payload payload_size))) s
