-- ===== src/App/Scan.antt =====
-- What a scan of the main loop publishes.
use pareader.Base.{
  ◌≡◌, ◌≢◌, ◌↔◌, refl, sym, ap, true, false, inl, inr, equal_iff, arith, Bool-cases, Result, ok,
  err, EspErr,
}
use pareader.Card.{Card, CardType, card_none, card_mifare, card_felica, is_type}
use pareader.Usb.{UsbDevice}
use pareader.Pn532.{Pn532Ops}
use pareader.Reader.State.{Machine}
use pareader.Reader.ReadCard.{reader_read_card}
use pareader.App.{App, same_card, publish, observe, scan_card}

is_type_iff : (a b : CardType) → (is_type a b ≡ true) ↔ (a ≡ b)
is_type_iff card_none b = ground arith
is_type_iff card_mifare b = ground arith
is_type_iff card_felica b = ground arith

same_card-eq : (a b : Card) → same_card a b ≡ true → a ≡ b
unfolding same_card
same_card-eq a b h = ground (
  arith,
  is_type_iff a.type b.type,
  equal_iff a.mifare_uid b.mifare_uid,
  equal_iff a.luid b.luid,
  equal_iff a.blocks b.blocks,
  equal_iff a.idm b.idm,
  equal_iff a.pmm b.pmm,
)

same_card_refl : (a : Card) → same_card a a ≡ true
unfolding same_card
same_card_refl a = ground (
  arith,
  is_type_iff a.type a.type,
  equal_iff a.mifare_uid a.mifare_uid,
  equal_iff a.luid a.luid,
  equal_iff a.blocks a.blocks,
  equal_iff a.idm a.idm,
  equal_iff a.pmm a.pmm,
)

-- The comparison of two observations is equality.
pub same_card_iff : (a b : Card) → (same_card a b ≡ true) ↔ (a ≡ b)
same_card_iff a b = (same_card-eq a b, λ e. rw e (same_card_refl b))

pub same_card-ne : (a b : Card) → b ≢ a → same_card a b ≡ false
same_card-ne a b d = elim (Bool-cases (same_card a b)) [
  | inl same ↦ absurd (d (sym ((same_card_iff a b).0 same)))
  | inr differs ↦ differs
]

module _ {W : Type 0} (pn532 : Pn532Ops W) (usb : UsbDevice W) where
  -- The cases of a scan from `a` to `a'` in which `r` is what the reader returned.
  pub data Scans (a : App W) (r : Result Card × Machine W) (a' : App W) : Type 0 where
    failed : (e : EspErr) → r.0 ≡ err e → a' ≡ record a { machine = r.1 } → Scans a r a'
    held : r.0 ≡ ok a.current → a' ≡ record a { machine = r.1 } → Scans a r a'
    changed :
        (card : Card)
        → r.0 ≡ ok card
        → card ≢ a.current
        → a' ≡ record a { current = card; machine = publish usb card r.1 }
        → Scans a r a'

  observe-Scans : (a : App W) (r : Result Card × Machine W) → Scans a r (observe pn532 usb r a)
  unfolding observe
  observe-Scans a (err e, m) = failed e refl refl
  observe-Scans a (ok card, m) = elim (Bool-cases (same_card a.current card)) [
    | inl same ↦
        let e : card ≡ a.current = sym ((same_card_iff a.current card).0 same) in
        held (ap (λ (c : Card). ok c) e) (simp same)
    | inr differs ↦
        changed card refl (λ e. cc (differs, (same_card_iff a.current card).1 (sym e)))
          (simp differs)
  ]

  -- A scan publishes exactly one report on each HID interface, first PRHP and then CardIO, when
  -- the card read differs from the stored one, which it then replaces; a failed read, and a read
  -- of the stored card, publish nothing and keep it.
  pub scan_card-Scans :
      (a : App W) → Scans a (reader_read_card pn532 a.machine) (scan_card pn532 usb a)
  unfolding scan_card
  scan_card-Scans a = observe-Scans a (reader_read_card pn532 a.machine)
