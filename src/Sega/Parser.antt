-- ===== src/Sega/Parser.antt =====
-- The frame parser: `sg_parser_t`, `reset_parser`, `sega_init` and `sega_receive`.
pub mod Invariant
pub mod RoundTrip
pub mod Preserve
pub mod Chunks
pub mod Session
use pareader.Base.{
  ℕ, ◌+◌, ◌-◌, Bool, true, false, not, ◌&&◌, [], ◌∷◌, Bytes, byte_at, take, set, sum8, u8, ltb, leb,
  ◌==◌, if◌then◌else◌,
}
use pareader.Usb.{UsbDevice}
use pareader.Reader.{ReaderOps}
use pareader.Sega.Encode.{sg_sync, sg_escape}
use pareader.Sega.Dispatch.{dispatch}

pub record Parser : Type 0 where
  pub synchronized : Bool
  pub escaped : Bool
  pub bytes : Bytes
  pub size : ℕ

-- `sizeof(parser.bytes)`
abbrev pub capacity : ℕ
capacity = 257

abbrev pub reset_parser : Parser → Parser
reset_parser p = record p { synchronized = false; escaped = false; size = 0 }

abbrev pub sega_init : Parser → Parser
sega_init p = reset_parser p

module _ {S : Type 0} (usb : UsbDevice S) (reader : ReaderOps S) where
  -- From the test `parser.size > 0` on.
  unfoldable pub complete : Parser → S → Parser × S
  complete p s =
      let expected = byte_at p.bytes 0 + 1 in
      if ltb 0 p.size
      then (if p.size == expected
          then (
            reset_parser p,
            if sum8 0 (take (p.size - 1) p.bytes) == byte_at p.bytes (p.size - 1)
                then dispatch usb reader (take (p.size - 1) p.bytes) (p.size - 1) s
                else s,
          )
          else if ltb expected p.size
          then (reset_parser p, s)
          else (p, s))
      else (p, s)

  -- From the capacity test on.
  unfoldable pub store_byte : Parser → ℕ → S → Parser × S
  store_byte p byte s =
      if leb capacity p.size
      then (reset_parser p, s)
      else complete (record p { bytes = set p.bytes p.size byte; size = p.size + 1 }) s

  -- One round of the loop of `sega_receive`.
  unfoldable pub receive_byte : Parser → ℕ → S → Parser × S
  receive_byte p byte s =
      if not p.synchronized
      then (if byte == sg_sync then (record p { synchronized = true; size = 0 }, s) else (p, s))
      else if not p.escaped && byte == sg_sync
      then (record p { size = 0 }, s)
      else if not p.escaped && byte == sg_escape
      then (record p { escaped = true }, s)
      else if p.escaped
      then store_byte (record p { escaped = false }) (u8 (byte + 1)) s
      else store_byte p byte s

  unfoldable pub sega_receive : Parser → Bytes → S → Parser × S
  sega_receive p [] s = (p, s)
  sega_receive p (byte ∷ rest) s =
      sega_receive (receive_byte p byte s).0 rest (receive_byte p byte s).1
