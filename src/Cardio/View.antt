-- ===== src/Cardio/View.antt =====
-- What a CardIO host reads from a report.
use pareader.Base.{
  ℕ, ◌≡◌, refl, ◌==◌, ◌&&◌, true, Option, none, some, [], ◌∷◌, arith, Bytes, length, take_all,
  append-nil, if◌then◌else◌, exec, equal, replicate,
}
use pareader.Usb.{UsbDevice}
use pareader.Card.{Card, CardType, zero_card, card_none, card_mifare, card_felica, IsSized}
use pareader.Cardio.{CardioReport, cardio_report, cardio_publish_card_state}

-- Report 1 carries a MIFARE UID behind E0 04, and its first two bytes again; report 2 an IDm; and
-- eight zeros under the id 0 say that there is no card.
pub data CardioView : Type 0 where
  no_card : CardioView
  mifare_card : Bytes → CardioView
  felica_card : Bytes → CardioView

-- `E0 04 u0 u1 u2 u3 u0 u1`, and nothing else, is the UID `u0 u1 u2 u3`.
abbrev mifare_id : Bytes → Option CardioView
mifare_id (a ∷ b ∷ u0 ∷ u1 ∷ u2 ∷ u3 ∷ v0 ∷ v1 ∷ []) =
    if a == 0xE0 && b == 0x04 && v0 == u0 && v1 == u1
    then some (mifare_card (u0 ∷ u1 ∷ u2 ∷ u3 ∷ []))
    else none
mifare_id _ = none

unfoldable pub decode_report : ℕ → Bytes → Option CardioView
decode_report report_id card_id =
    if report_id == 0
    then (if equal card_id (replicate 8 0) then some no_card else none)
    else if report_id == 1
    then mifare_id card_id
    else if report_id == 2
    then some (felica_card card_id)
    else none

abbrev pub view_of : CardType → Card → CardioView
view_of card_none c = no_card
view_of card_mifare c = mifare_card c.mifare_uid
view_of card_felica c = felica_card c.idm

-- Eight bytes that a host decodes as the card.
abbrev pub Shows : CardioReport → CardioView → Type 0
Shows r v = (length r.card_id ≡ 8) × (decode_report r.report_id r.card_id ≡ some v)

same_byte : (b : ℕ) → (b == b) ≡ true
same_byte b = ground arith

-- The report for a UID of four bytes.
mifare_Shows :
    (uid : Bytes)
    → length uid ≡ 4
    → let card : Card = record zero_card { type = card_mifare; mifare_uid = uid } in
      Shows (cardio_report card_mifare card) (mifare_card uid)
unfolding cardio_report decode_report
mifare_Shows (u0 ∷ u1 ∷ u2 ∷ u3 ∷ []) h = rw (same_byte u0, same_byte u1) (refl, refl)
mifare_Shows _ h = absurd (ground (arith, h))

pub cardio_report-Shows :
    (type : CardType) (c : Card) → IsSized c → Shows (cardio_report type c) (view_of type c)
unfolding cardio_report decode_report equal
cardio_report-Shows card_none c sized = (refl, refl)
cardio_report-Shows card_felica c sized =
    rw (take_all c.idm 8 sized.idm_size, append-nil) (sized.idm_size, refl)
cardio_report-Shows card_mifare c sized = mifare_Shows c.mifare_uid sized.uid_size

-- Publishing a card sends one report with eight bytes: for a MIFARE card, under the id 1, `E0 04`,
-- the UID and its first two bytes again; for a FeliCa card, under the id 2, its IDm; and eight
-- zeros under the id 0 for no card.
pub cardio_publish_card_state-Shows :
    {S : Type 0} (usb : UsbDevice S) (card : Card) (s : S)
    → IsSized card
    → (r : CardioReport) × (cardio_publish_card_state usb card s
        ≡ exec (usb.send_cardio r.report_id r.card_id) s)
      × Shows r (view_of card.type card)
unfolding cardio_publish_card_state
cardio_publish_card_state-Shows usb card s sized =
    (cardio_report card.type card, refl, cardio_report-Shows card.type card sized)
