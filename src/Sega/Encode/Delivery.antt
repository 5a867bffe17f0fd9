-- ===== src/Sega/Encode/Delivery.antt =====
-- What a host reads from a response.
use pareader.Base.{
  ℕ, IsBytes-take, ◌+◌, ◌≤◌, ◌<◌, ◌≡◌, refl, ◌∙◌, ap, Bool, true, false, Option, none, some, [],
  ◌∷◌, ◌++◌, Bytes, IsBytes, IsBytes-append, arith, byte_at, drop, take, length, length-take, sum8,
  sum8-lt, u8, ◌==◌, if◌then◌else◌, exec,
}
use pareader.Usb.{UsbDevice}
use pareader.Sega.Encode.{sg_sync, encode_byte, decoded_response, send_response}
use pareader.Sega.Encode.Shape.{stuffed, encode_frame-stuffed}

abbrev cons_to : ℕ → Option Bytes → Option Bytes
cons_to b none = none
cons_to b (some bs) = some (b ∷ bs)

-- Reads the bytes behind the sync byte: an escape byte announces one more than the next byte. A
-- sync byte starts another frame wherever it stands, so it is no part of this one, and an escape
-- byte is not the last.
unfoldable pub unstuff : Bool → Bytes → Option Bytes
unstuff true [] = none
unstuff false [] = some []
unstuff true (b ∷ bs) = if b == 0xE0 then none else cons_to (u8 (b + 1)) (unstuff false bs)
unstuff false (b ∷ bs) =
    if b == 0xE0 then none else if b == 0xD0 then unstuff true bs else cons_to b (unstuff false bs)

unstuff-encode_byte :
    (b : ℕ) (more : Bytes)
    → b < 256
    → unstuff false (encode_byte b [] ++ more) ≡ cons_to b (unstuff false more)
unfolding unstuff encode_byte
unstuff-encode_byte b more h = ground arith

-- Unstuffing undoes stuffing.
unstuff-stuffed : (bs : Bytes) → IsBytes bs → unstuff false (stuffed bs) ≡ some bs
unfolding unstuff
unstuff-stuffed [] h = refl
unstuff-stuffed (b ∷ bs) h =
    unstuff-encode_byte b (stuffed bs) h.0 ∙ ap (cons_to b) (unstuff-stuffed bs h.1)

-- One response is sent, and a host reads from it, behind the sync byte, a message and its
-- checksum: the length of the message, address, sequence and command of the request, the status,
-- the length of the payload, and the payload.
pub record Delivers {S : Type 0} (usb : UsbDevice S) (request : Bytes) (status : ℕ)
    (payload : Bytes) (s s' : S) : Type 0 where
  pub bytes : Bytes
  pub message : Bytes
  pub sent : s' ≡ exec (usb.send_cdc (sg_sync ∷ bytes)) s
  pub content : unstuff false bytes ≡ some (message ++ sum8 0 message ∷ [])
  pub size : byte_at message 0 ≡ length message
  pub address : byte_at message 1 ≡ byte_at request 1
  pub sequence : byte_at message 2 ≡ byte_at request 2
  pub command : byte_at message 3 ≡ byte_at request 3
  pub result : byte_at message 4 ≡ status
  pub payload_size : byte_at message 5 ≡ length payload
  pub carried : drop 6 message ≡ payload

-- A response with a payload of at most 249 bytes is sent as one frame: a host that starts a new
-- frame at every sync byte reads from it one message and its checksum, with the address, sequence
-- and command of the request, the status and the payload.
pub send_response-Delivers :
    {S : Type 0} (usb : UsbDevice S) (request : Bytes) (status : ℕ) (payload : Bytes)
    (payload_size : ℕ) (s : S)
    → payload_size ≤ 249
    → payload_size ≤ length payload
    → IsBytes payload
    → status < 256
    → (byte_at request 1 < 256) × (byte_at request 2 < 256) × (byte_at request 3 < 256)
    → Delivers usb request status
        (take payload_size payload)
        s
        (send_response usb request status payload payload_size s)
unfolding send_response decoded_response
send_response-Delivers usb request status payload n s h fits octets st (a, b, c) =
    let m = decoded_response request status payload n in
    let size : length (take n payload) ≡ n = omega (arith, length-take n payload) in
    let wire = stuffed (m ++ sum8 0 m ∷ []) in
    record {
      bytes = wire;
      message = m;
      sent = ground (arith, encode_frame-stuffed m);
      content = unstuff-stuffed (m ++ sum8 0 m ∷ []) (
          IsBytes-append m (sum8 0 m ∷ [])
            (omega arith, (a, (b, (c, (st, (omega arith, IsBytes-take n payload octets))))))
            (sum8-lt 0 m (omega arith), tt));
      size = omega (arith, size);
      address = refl;
      sequence = refl;
      command = refl;
      result = refl;
      payload_size = omega (arith, size);
      carried = refl;
    }
