-- ===== src/Tests/Cdc.antt =====
-- Witnesses for the SEGA protocol as the specification has it.
use pareader.Base.{◌≡◌, refl, List, [], ◌∷◌, Bytes, take, drop, arith}
use pareader.Reader.ReadCard.{
  reader_read_card, scan, after_felica, read_type_a, after_type_a, read_mifare, after_aime,
  read_mifare_with_key,
}
use pareader.Reader.Luid.{valid_luid, luid_loop}
use pareader.Sega.Dispatch.{dispatch}
use pareader.Sega.Parser.{Parser, sega_receive}
use pareader.Sega.Parser.RoundTrip.{IsIdle, AreBodies, wire}
use pareader.Sega.Spec.{request_of, serve_request}
use pareader.Sega.Spec.Nfc.{SizedCard}
use pareader.Sega.Spec.Requests.{deliver, dispatch-serves}
use pareader.App.{machine_usb}
use pareader.Sega.Encode.{encode_frame, encode_loop, encode_byte}
use pareader.Sega.Parser.Chunks.{receive_all, concat}
use pareader.App.Cdc.{receive_all-serves, serve_all, sega_receive-serves}
use pareader.Tests.Setup.{
  recorder, field, field-Pn532Laws, field_reader, with_tag-IsReader, machine, idle_parser,
  poll_request,
}

tag-SizedCard : SizedCard (field_reader.read_card machine).0
unfolding reader_read_card scan after_felica read_type_a after_type_a read_mifare
    read_mifare_with_key after_aime valid_luid luid_loop
tag-SizedCard = record {
  uid_size = refl;
  luid_size = refl;
  blocks_size = refl;
  idm_size = refl;
  pmm_size = refl;
}

dispatch-serves_example :
    dispatch (machine_usb recorder) field_reader poll_request 5 machine
    ≡ deliver
        (machine_usb recorder)
        field_reader
        poll_request
        (serve_request field_reader (request_of poll_request) machine)
dispatch-serves_example =
    dispatch-serves (machine_usb recorder) field_reader poll_request machine tag-SizedCard

-- A poll, the selection of the tag, a read of a block, and a reset of the LED board.
abbrev requests : List Bytes
requests =
    poll_request
    ∷ (9 ∷ 0 ∷ 8 ∷ 0x43 ∷ 4 ∷ 1 ∷ 2 ∷ 3 ∷ 4 ∷ [])
    ∷ (10 ∷ 0 ∷ 9 ∷ 0x52 ∷ 5 ∷ 1 ∷ 2 ∷ 3 ∷ 4 ∷ 1 ∷ [])
    ∷ (5 ∷ 8 ∷ 10 ∷ 0xF5 ∷ 0 ∷ [])
    ∷ []

requests-AreBodies : AreBodies requests
requests-AreBodies = (ground arith, (ground arith, (ground arith, (ground arith, tt))))

sega_receive-serves_example :
    (q : Parser) × (sega_receive
        (machine_usb recorder)
        field_reader
        idle_parser
        (wire requests)
        machine
      ≡ (q, serve_all field recorder requests machine))
    × IsIdle q
sega_receive-serves_example =
    sega_receive-serves field recorder field-Pn532Laws idle_parser requests machine
      (record { array = refl; unescaped = refl }) requests-AreBodies with_tag-IsReader

-- The same bytes, cut inside the first frame.
abbrev pieces : List Bytes
pieces = take 3 (wire requests) ∷ drop 3 (wire requests) ∷ []

pieces-wire : concat pieces ≡ wire requests
unfolding encode_frame encode_loop encode_byte
pieces-wire = refl

receive_all-serves_example :
    (q : Parser) × (receive_all (machine_usb recorder) field_reader idle_parser pieces machine
      ≡ (q, serve_all field recorder requests machine))
    × IsIdle q
receive_all-serves_example =
    receive_all-serves field recorder field-Pn532Laws idle_parser requests pieces machine
      (record { array = refl; unescaped = refl }) requests-AreBodies with_tag-IsReader pieces-wire
