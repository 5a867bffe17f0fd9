-- ===== src/App/Cdc.antt =====
-- The SEGA protocol over CDC, from the bytes of the host to the answers of the specification, with
-- the reader of reader.c.
use pareader.Base.{◌≡◌, refl, ap, ◌∙◌, List, [], ◌∷◌, Bytes, length, Result, ok, err}
use mathlib.Core.Path.{subst}
use pareader.Card.{Card}
use pareader.Usb.{UsbDevice}
use pareader.Pn532.{Pn532Ops, Pn532Laws}
use pareader.Reader.State.{Machine, IsReader}
use pareader.Reader.ReadCard.{reader_read_card}
use pareader.Reader.ReadCard.Valid.{Returns, reader_read_card-Returns}
use pareader.Reader.Operations.{reader_ops}
use pareader.Reader.Operations.Laws.{reader_ops-ReaderLaws}
use pareader.Sega.Parser.{Parser, sega_receive}
use pareader.Sega.Parser.Chunks.{receive_all, concat, sega_receive-concat}
use pareader.Sega.Parser.Preserve.{dispatch-keeps}
use pareader.Sega.Parser.RoundTrip.{IsIdle, AreBodies, wire, dispatch_all, sega_receive-wire}
use pareader.Sega.Spec.{request_of, serve_request}
use pareader.Sega.Spec.Nfc.{SizedCard}
use pareader.Sega.Spec.Requests.{deliver, dispatch-serves}
use pareader.App.{machine_usb}
use pareader.App.Invariant.{call-IsReader}

Returns-SizedCard : {W : Type 0} (x : Result Card × Machine W) → Returns x → SizedCard x.0
Returns-SizedCard (ok card, m) h = h.1.sized
Returns-SizedCard (err e, m) h = tt

module _ {W : Type 0} (pn532 : Pn532Ops W) (usb : UsbDevice W) where
  abbrev pub serve_body : Bytes → Machine W → Machine W
  serve_body body m =
      deliver (machine_usb usb) (reader_ops pn532) body
        (serve_request (reader_ops pn532) (request_of body) m)

  -- Requests served one after the other, as the specification says.
  abbrev pub serve_all : List Bytes → Machine W → Machine W
  serve_all [] m = m
  serve_all (body ∷ bodies) m = serve_all bodies (serve_body body m)

  module _ (laws : Pn532Laws pn532) where
    dispatch_all-serves :
        (bodies : List Bytes) (m : Machine W)
        → IsReader m.reader
        → dispatch_all (machine_usb usb) (reader_ops pn532) bodies m ≡ serve_all bodies m
    dispatch_all-serves [] m h = refl
    dispatch_all-serves (body ∷ bodies) m h =
        let reader = reader_ops pn532 in
        let served = dispatch-serves (machine_usb usb) reader body m (
          Returns-SizedCard (reader_read_card pn532 m) (reader_read_card-Returns pn532 laws m h)) in
        let kept =
          dispatch-keeps (machine_usb usb) reader (reader_ops-ReaderLaws pn532 laws)
            (λ (s : Machine W). IsReader s.reader) (λ sent s k. k) (call-IsReader pn532 usb laws)
            body (length body) m h in
        ap (dispatch_all (machine_usb usb) reader bodies) served
        ∙ dispatch_all-serves bodies (serve_body body m)
            (subst (λ (s : Machine W). IsReader s.reader) served kept)

    -- Frames that arrive one after the other, at a parser with no escape pending, are served in
    -- order as the specification says, each by the reader as the ones before left it, and the
    -- parser is then ready for the next frame. Each frame has a body of bytes that starts with its
    -- length; the statics of the reader are in their ranges, and the chip answers within its
    -- documented sizes.
    pub sega_receive-serves :
        (p : Parser) (bodies : List Bytes) (m : Machine W)
        → IsIdle p
        → AreBodies bodies
        → IsReader m.reader
        → (q : Parser) × (sega_receive (machine_usb usb) (reader_ops pn532) p (wire bodies) m
            ≡ (q, serve_all bodies m))
          × IsIdle q
    sega_receive-serves p bodies m idle are h =
        let (q, received, ready) =
          sega_receive-wire (machine_usb usb) (reader_ops pn532) p bodies m idle are in
        (q, received ∙ ap (λ (s : Machine W). (q, s)) (dispatch_all-serves bodies m h), ready)

    -- Requests are served in order as the specification says, and the parser is then ready for
    -- the next frame, however the host's bytes are cut into messages: the messages, one after
    -- the other, are frames with a body of bytes that starts with its length, a frame may come
    -- in pieces, and one message may hold the end of a frame and the start of the next. No
    -- escape is pending at first, the statics of the reader are in their ranges, and the chip
    -- answers within its documented sizes.
    pub receive_all-serves :
        (p : Parser) (bodies chunks : List Bytes) (m : Machine W)
        → IsIdle p
        → AreBodies bodies
        → IsReader m.reader
        → concat chunks ≡ wire bodies
        → (q : Parser) × (receive_all (machine_usb usb) (reader_ops pn532) p chunks m
            ≡ (q, serve_all bodies m))
          × IsIdle q
    receive_all-serves p bodies chunks m idle are h cut =
        let (q, served, ready) = sega_receive-serves p bodies m idle are h in
        (
          q,
          sega_receive-concat (machine_usb usb) (reader_ops pn532) p chunks m
              ∙ ap (λ (bytes : Bytes). sega_receive (machine_usb usb) (reader_ops pn532) p bytes m)
                  cut
              ∙ served,
          ready,
        )
