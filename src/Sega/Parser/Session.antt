-- ===== src/Sega/Parser/Session.antt =====
-- A poll over the wire, from the request frame to the response that a host reads.
use pareader.Base.{ℕ, ◌<◌, ◌≡◌, refl, ap, sym, ◌∙◌, [], ◌∷◌, append-nil, Bytes, arith, exec}
use pareader.Usb.{UsbDevice}
use pareader.Reader.{ReaderOps}
use pareader.Sega.Encode.{encode_frame}
use pareader.Sega.Encode.Delivery.{Delivers}
use pareader.Sega.Dispatch.{dispatch, dispatch_nfc}
use pareader.Sega.Dispatch.Poll.{poll_status, poll_payload, Readable, dispatch_nfc-poll}
use pareader.Sega.Parser.{Parser, sega_receive}
use pareader.Sega.Parser.RoundTrip.{IsIdle, IsBody, sega_receive-wire}

-- `SG_NFC_POLL` with a sequence number: size, address, sequence, command, no payload.
abbrev pub poll_body : ℕ → Bytes
poll_body sequence = 5 ∷ 0x00 ∷ sequence ∷ 0x42 ∷ 0 ∷ []

poll_body-IsBody : (n : ℕ) → n < 256 → IsBody (poll_body n)
poll_body-IsBody n h = ground arith

module _ {S : Type 0} (usb : UsbDevice S) (reader : ReaderOps S) where
  dispatch-poll :
      (n : ℕ) (s : S)
      → dispatch usb reader (poll_body n) 5 s ≡ dispatch_nfc usb reader (poll_body n) [] 0 s
  unfolding dispatch
  dispatch-poll n s = refl

  -- A host that sends the frame of a poll request, to a parser with no escape pending, gets one
  -- response, after the card was read: with status 0 and the card, or with status 1 if the read
  -- failed. The parser is then ready for the next frame.
  pub sega_receive-poll :
      (p : Parser) (sequence : ℕ) (s : S)
      → IsIdle p
      → sequence < 256
      → Readable (reader.read_card s).0
      → let x = sega_receive usb reader p (encode_frame (poll_body sequence)) s in
        Delivers usb
          (poll_body sequence)
          (poll_status (reader.read_card s).0)
          (poll_payload (reader.read_card s).0)
          (exec reader.read_card s)
          x.1
        × IsIdle x.0
  sega_receive-poll p n s idle h readable =
      let body = poll_body n in
      let fed = sega_receive-wire usb reader p (body ∷ []) s idle (poll_body-IsBody n h, tt) in
      let received : sega_receive usb reader p (encode_frame body) s
          ≡ (fed.0, dispatch usb reader body 5 s) =
        ap (λ (t : Bytes). sega_receive usb reader p t s) (sym (append-nil (encode_frame body)))
        ∙ fed.1 in
      let answered =
        dispatch_nfc-poll usb reader body (omega arith, h, omega arith) [] 0 s refl readable in
      rw (received, dispatch-poll n s) (answered, fed.2)
