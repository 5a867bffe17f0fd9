-- ===== src/Sega/Spec.antt =====
-- What the commands of the SEGA protocol mean: a table of codes, what each command asks of the
-- reader, and the answer. Frames, arrays and early returns do not occur here.
pub mod Nfc
pub mod Requests
use pareader.Base.{
  ℕ, ◌+◌, ◌-◌, ◌<◌, Bool, true, false, ◌&&◌, List, [], ◌∷◌, ◌++◌, Bytes, byte_at, take, drop,
  length, leb, ◌==◌, if◌then◌else◌, Option, none, some, Result, ok, err,
}
use pareader.Card.{Card, reader_key_aime, reader_key_bana}
use pareader.Reader.{ReaderOps}
use pareader.Sega.Dispatch.Poll.{poll_status, poll_payload}

pub data Command : Type 0 where
  firmware_version hardware_version poll select read_block felica update_mode hex_data reset :
      Command
  radio : Bool → Command
  set_key authenticate : ℕ → Command

abbrev pub command_table : List (ℕ × Command)
command_table =
    (0x62, reset)
    ∷ (0x30, firmware_version)
    ∷ (0x32, hardware_version)
    ∷ (0x40, radio true)
    ∷ (0x41, radio false)
    ∷ (0x42, poll)
    ∷ (0x43, select)
    ∷ (0x50, set_key reader_key_aime)
    ∷ (0x54, set_key reader_key_bana)
    ∷ (0x51, authenticate reader_key_aime)
    ∷ (0x55, authenticate reader_key_bana)
    ∷ (0x52, read_block)
    ∷ (0x71, felica)
    ∷ (0x60, update_mode)
    ∷ (0x61, hex_data)
    ∷ []

abbrev pub lookup {ℓ} : {A : Type ℓ} → List (ℕ × A) → ℕ → Option A
lookup [] code = none
lookup ((c, a) ∷ rest) code = if code == c then some a else lookup rest code

pub record Reply : Type 0 where
  pub status : ℕ
  pub payload : Bytes

abbrev pub failed : Reply
failed = record { status = 1; payload = [] }

abbrev pub done : Bytes → Reply
done payload = record { status = 0; payload = payload }

-- The answer to an operation: its result, with no error code.
abbrev pub unit_reply : Result (Unit {0}) → Reply
unit_reply (ok _) = done []
unit_reply (err e) = failed

abbrev pub bytes_reply : Result Bytes → Reply
bytes_reply (ok bytes) = done bytes
bytes_reply (err e) = failed

abbrev pub card_reply : Result Card → Reply
card_reply r = record { status = poll_status r; payload = poll_payload r }

-- A command with a payload of the wrong size fails, and the reader is not asked.
abbrev pub sized {ℓ} : {S : Type ℓ} → Bool → S → Reply × S → Reply × S
sized fits s answer = if fits then answer else (failed, s)

module _ {S : Type 0} (reader : ReaderOps S) where
  abbrev replying : {A : Type 0} → (Result A → Reply) → Result A × S → Reply × S
  replying reply answer = (reply answer.0, answer.1)

  -- What a command does with its payload of `n` bytes.
  unfoldable pub serve : Command → Bytes → ℕ → S → Reply × S
  serve reset payload n s = (record { status = 3; payload = [] }, s)
  serve firmware_version payload n s = (done (0x94 ∷ []), s)
  serve hardware_version payload n s =
      (done (b'8' ∷ b'3' ∷ b'7' ∷ b'-' ∷ b'1' ∷ b'5' ∷ b'2' ∷ b'8' ∷ b'6' ∷ []), s)
  serve (radio on) payload n s = replying unit_reply (reader.radio_set on s)
  serve poll payload n s = replying card_reply (reader.read_card s)
  serve select payload n s =
      sized (n == 4) s (replying unit_reply (reader.mifare_select (take 4 payload) s))
  serve (set_key type) payload n s =
      sized (n == 6) s (replying unit_reply (reader.mifare_set_key type (take 6 payload) s))
  serve (authenticate type) payload n s =
      replying unit_reply (reader.mifare_authenticate type payload n s)
  serve read_block payload n s =
      sized (n == 5) s
        (replying bytes_reply (reader.mifare_read_block (take 4 payload) (byte_at payload 4) s))
  serve felica payload n s =
      let size = byte_at payload 8 in
      sized (leb 9 n && n == 8 + size) s
        (replying bytes_reply (reader.felica_transact (take size (drop 8 payload)) size 250 s))
  serve update_mode payload n s = (done [], s)
  serve hex_data payload n s = (record { status = if n == 0x2B then 0x20 else 0; payload = [] }, s)

  -- A code that is not in the table fails.
  abbrev pub serve_code : Option Command → Bytes → ℕ → S → Reply × S
  serve_code none payload n s = (failed, s)
  serve_code (some c) payload n s = serve c payload n s

-- The commands for the LED board: none of them does anything but answer.
pub data LedCommand : Type 0 where
  set_color led_reset led_info : LedCommand

abbrev pub led_table : List (ℕ × LedCommand)
led_table = (0x81, set_color) ∷ (0xF5, led_reset) ∷ (0xF0, led_info) ∷ []

-- A code that is not in the table fails; the colour is set without an answer.
abbrev pub serve_led : Option LedCommand → Option Reply
serve_led none = some failed
serve_led (some set_color) = none
serve_led (some led_reset) = some (done (0 ∷ []))
serve_led (some led_info) =
    some (
      done (b'0' ∷ b'0' ∷ b'0' ∷ b'-' ∷ b'0' ∷ b'0' ∷ b'0' ∷ b'0' ∷ b'0' ∷ 0xFF ∷ 0x11 ∷ 0x40 ∷ []))

-- Whom a request is for.
pub data Board : Type 0 where
  nfc_board led_board : Board

abbrev pub board_table : List (ℕ × Board)
board_table = (0x00, nfc_board) ∷ (0x08, led_board) ∷ []

-- A request as a host writes it: its length, the address, a sequence number, the command, and the
-- payload behind its length.
pub record Request : Type 0 where
  pub board : Option Board
  pub code : ℕ
  pub payload : Bytes

-- The lengths agree with the bytes that follow.
abbrev pub request_of : Bytes → Option Request
request_of (size ∷ address ∷ sequence ∷ code ∷ n ∷ payload) =
    if size == 5 + n && n == length payload
    then some (record { board = lookup board_table address; code = code; payload = payload })
    else none
request_of _ = none

module _ {S : Type 0} (reader : ReaderOps S) where
  abbrev answering : Reply × S → Option Reply × S
  answering answer = (some answer.0, answer.1)

  abbrev pub serve_board : Option Board → ℕ → Bytes → S → Option Reply × S
  serve_board none code payload s = (none, s)
  serve_board (some nfc_board) code payload s =
      answering (serve_code reader (lookup command_table code) payload (length payload) s)
  serve_board (some led_board) code payload s = (serve_led (lookup led_table code), s)

  -- What is not a request, or is for no board here, is dropped.
  abbrev pub serve_request : Option Request → S → Option Reply × S
  serve_request none s = (none, s)
  serve_request (some request) s = serve_board request.board request.code request.payload s
