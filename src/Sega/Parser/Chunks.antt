-- ===== src/Sega/Parser/Chunks.antt =====
-- How the host's bytes are cut into CDC messages.
use pareader.Base.{◌≡◌, refl, List, [], ◌∷◌, ◌++◌, Bytes}
use pareader.Usb.{UsbDevice}
use pareader.Reader.{ReaderOps}
use pareader.Sega.Parser.{Parser, receive_byte, sega_receive}

-- The messages, one after the other.
abbrev pub receive_all :
    {S : Type 0} → UsbDevice S → ReaderOps S → Parser → List Bytes → S → Parser × S
receive_all usb reader p [] s = (p, s)
receive_all usb reader p (chunk ∷ chunks) s =
    let next = sega_receive usb reader p chunk s in receive_all usb reader next.0 chunks next.1

abbrev pub concat : List Bytes → Bytes
concat [] = []
concat (chunk ∷ chunks) = chunk ++ concat chunks

module _ {S : Type 0} (usb : UsbDevice S) (reader : ReaderOps S) where
  sega_receive-append :
      (p : Parser) (xs ys : Bytes) (s : S)
      → sega_receive usb reader p (xs ++ ys) s
        ≡ sega_receive usb reader
            (sega_receive usb reader p xs s).0
            ys
            (sega_receive usb reader p xs s).1
  unfolding sega_receive
  sega_receive-append p [] ys s = refl
  sega_receive-append p (x ∷ xs) ys s =
      sega_receive-append (receive_byte usb reader p x s).0 xs ys (receive_byte usb reader p x s).1

  -- Receiving the messages one after the other, from any parser, has the same effect as receiving
  -- all their bytes in one message: frames may be cut anywhere.
  pub sega_receive-concat :
      (p : Parser) (chunks : List Bytes) (s : S)
      → receive_all usb reader p chunks s ≡ sega_receive usb reader p (concat chunks) s
  unfolding sega_receive
  sega_receive-concat p [] s = refl
  sega_receive-concat p (chunk ∷ chunks) s = rw (sega_receive-append p chunk (concat chunks) s) (
      sega_receive-concat (sega_receive usb reader p chunk s).0 chunks
        (sega_receive usb reader p chunk s).1)
