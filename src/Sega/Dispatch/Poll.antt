-- ===== src/Sega/Dispatch/Poll.antt =====
-- What a host reads from the answer to `SG_NFC_POLL`.
use pareader.Base.{
  ℕ, ◌<◌, ◌≡◌, ap, [], ◌∷◌, ◌++◌, Bytes, IsBytes, IsBytes-append, arith, byte_at, take, take_all,
  replicate, length, length-append, take_prefix, Result, ok, err, exec,
}
use mathlib.Core.Path.{subst}
use pareader.Usb.{UsbDevice}
use pareader.Reader.{ReaderOps}
use pareader.Card.{Card, CardType, card_none, card_mifare, card_felica, IsSized}
use pareader.Sega.Encode.{send_response}
use pareader.Sega.Encode.Delivery.{Delivers, send_response-Delivers}
use pareader.Sega.Dispatch.{finish, send_card, poll_result, dispatch_nfc}

-- One card or none; 0x10 and a UID of four bytes, or 0x20 and the sixteen bytes of IDm and PMm.
abbrev pub found_cards : CardType → Card → Bytes
found_cards card_none card = 0 ∷ []
found_cards card_mifare card = 1 ∷ 0x10 ∷ 4 ∷ card.mifare_uid
found_cards card_felica card = 1 ∷ 0x20 ∷ 16 ∷ (card.idm ++ card.pmm)

-- The status and the payload for a result of the reader.
abbrev pub poll_status : Result Card → ℕ
poll_status (ok card) = 0
poll_status (err e) = 1

abbrev pub poll_payload : Result Card → Bytes
poll_payload (ok card) = found_cards card.type card
poll_payload (err e) = []

-- The arrays that an answer is built from.
pub record IsReadable (card : Card) : Type 0 where
  pub sized : IsSized card
  pub uid : IsBytes card.mifare_uid
  pub idm : IsBytes card.idm
  pub pmm : IsBytes card.pmm

abbrev pub Readable : Result Card → Type 0
Readable (ok card) = IsReadable card
Readable (err e) = Unit {0}

-- The bytes of a request that a response repeats.
abbrev pub IsEchoed : Bytes → Type 0
IsEchoed request = (byte_at request 1 < 256) × (byte_at request 2 < 256) × (byte_at request 3 < 256)

module _ {S : Type 0} (usb : UsbDevice S) (reader : ReaderOps S) (request : Bytes)
    (echoed : IsEchoed request) where
  send_card-Delivers :
      (type : CardType) (card : Card) (s : S)
      → IsReadable card
      → Delivers usb request 0 (found_cards type card) s (send_card usb reader request type card s)
  unfolding send_card
  send_card-Delivers card_none card s h =
      send_response-Delivers usb request 0 (replicate 19 0) 1 s (omega arith) (omega arith)
        (ground arith) (omega arith) echoed
  send_card-Delivers card_mifare card s h =
      let four : take 4 card.mifare_uid ≡ card.mifare_uid =
        take_all card.mifare_uid 4 h.sized.uid_size in
      let whole = 1 ∷ 0x10 ∷ 4 ∷ (card.mifare_uid ++ replicate 12 0) in
      rw four (
        subst (λ (t : Bytes). Delivers usb request 0 t s (send_response usb request 0 whole 7 s))
          (ap (λ (t : Bytes). 1 ∷ 0x10 ∷ 4 ∷ t)
            (take_prefix card.mifare_uid (replicate 12 0) 4 h.sized.uid_size))
          (send_response-Delivers usb request 0 whole 7 s (omega arith)
            (omega (arith, h.sized.uid_size, length-append card.mifare_uid (replicate 12 0)))
            (
              omega arith,
              (
                omega arith,
                (omega arith, IsBytes-append card.mifare_uid (replicate 12 0) h.uid (ground arith)),
              ),
            )
            (omega arith) echoed))
  send_card-Delivers card_felica card s h =
      let idm : take 8 card.idm ≡ card.idm = take_all card.idm 8 h.sized.idm_size in
      let pmm : take 8 card.pmm ≡ card.pmm = take_all card.pmm 8 h.sized.pmm_size in
      let both = card.idm ++ card.pmm in
      let whole = 1 ∷ 0x20 ∷ 16 ∷ both in
      let sixteen : length both ≡ 16 =
        omega (arith, h.sized.idm_size, h.sized.pmm_size, length-append card.idm card.pmm) in
      rw (idm, pmm)
        (subst (λ (t : Bytes). Delivers usb request 0 t s (send_response usb request 0 whole 19 s))
          (ap (λ (t : Bytes). 1 ∷ 0x20 ∷ 16 ∷ t) (take_all both 16 sixteen))
          (send_response-Delivers usb request 0 whole 19 s (omega arith) (omega (arith, sixteen))
            (
              omega arith,
              (omega arith, (omega arith, IsBytes-append card.idm card.pmm h.idm h.pmm)),
            )
            (omega arith) echoed))

  poll_result-Delivers :
      (r : Result Card × S)
      → Readable r.0
      → Delivers usb request
          (poll_status r.0)
          (poll_payload r.0)
          r.1
          (poll_result usb reader request r)
  unfolding poll_result finish
  poll_result-Delivers (ok card, s) h = send_card-Delivers card.type card s h
  poll_result-Delivers (err e, s) h =
      send_response-Delivers usb request 1 [] 0 s (omega arith) (omega arith) tt (omega arith)
        echoed

  -- A poll request is answered, after the card was read, with status 0 and that card: none, the
  -- UID of a MIFARE card, or IDm and PMm of a FeliCa card; or with status 1 and nothing if the
  -- read failed.
  pub dispatch_nfc-poll :
      (payload : Bytes) (payload_size : ℕ) (s : S)
      → byte_at request 3 ≡ 0x42
      → Readable (reader.read_card s).0
      → Delivers usb request
          (poll_status (reader.read_card s).0)
          (poll_payload (reader.read_card s).0)
          (exec reader.read_card s)
          (dispatch_nfc usb reader request payload payload_size s)
  unfolding dispatch_nfc
  dispatch_nfc-poll payload n s command readable =
      rw command (poll_result-Delivers (reader.read_card s) readable)
