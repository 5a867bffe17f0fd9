-- ===== src/Reader/ReadCard.antt =====
-- `read_mifare_with_key` and `reader_read_card` of reader.c. The card is returned with `ESP_OK`;
-- both callers ignore it after an error.
pub mod Fresh
pub mod Valid
pub mod Polling
use pareader.Base.{
  ℕ, Bool, true, false, not, ◌||◌, Bytes, take, drop, replicate, copy, copy_at, ◌==◌, ◌!=◌,
  if◌then◌else◌, Act, Result, ok, err, ◌>>=◌, ◌>>◌, exec,
}
use pareader.Card.{Card, card_mifare, card_felica, zero_card, reader_key_aime, reader_key_bana}
use pareader.Pn532.{TypeATarget, FelicaTarget, Poll, Pn532Ops}
use pareader.Reader.Luid.{valid_luid}
use pareader.Reader.State.{
  Reader, Machine, mifare_key, felica_system_code_transit, felica_system_code_wildcard,
}

-- The card that is being read, and the world.
pub record Reading (W : Type 0) : Type 0 where
  pub card : Card
  pub world : W

-- A call of pn532.c while a card is read.
abbrev pub calling : {W A : Type 0} → Act W A → Act (Reading W) A
calling m r = ((m r.world).0, record r { world = exec m r.world })

-- `&card->blocks[offset]` is where a block is read to.
abbrev pub store_block : {W : Type 0} → ℕ → Bytes → Act (Reading W) (Unit {0})
store_block offset block r =
    (ok tt, record r { card = record (r.card) { blocks = copy_at r.card.blocks offset block 16 } })

abbrev pub mark_blocks : {W : Type 0} → Act (Reading W) (Unit {0})
mark_blocks r = (ok tt, record r { card = record (r.card) { has_blocks = true } })

-- The card with the LUID from its blocks, if that is valid.
abbrev pub with_luid : Card → Card
with_luid card =
    let luid = copy card.luid (drop 22 card.blocks) 10 in
    record card { luid = if valid_luid luid then luid else replicate 10 0 }

-- `memset(card->blocks, 0, ...)` and `has_blocks = false`.
abbrev pub without_blocks : {W : Type 0} → Reading W → Reading W
without_blocks r = record r {
  card = record (r.card) { blocks = replicate 32 0; has_blocks = false };
}

abbrev pub other_system_code : ℕ → ℕ
other_system_code code =
    if code == felica_system_code_transit
    then felica_system_code_wildcard
    else felica_system_code_transit

abbrev pub felica_card : FelicaTarget → Card
felica_card target = record zero_card {
  type = card_felica;
  idm = copy (replicate 8 0) target.idm 8;
  pmm = copy (replicate 8 0) target.pmm 8;
}

module _ {W : Type 0} (pn532 : Pn532Ops W) where
  unfoldable pub read_mifare_with_key : TypeATarget → ℕ → ℕ → Bytes → Act (Reading W) (Unit {0})
  read_mifare_with_key target auth_command auth_block key = do
    calling (pn532.mifare_authenticate target.target auth_command auth_block key target.uid)
    block_1 ← calling (pn532.mifare_read_block target.target 1)
    store_block 0 block_1
    block_2 ← calling (pn532.mifare_read_block target.target 2)
    store_block 16 block_2
    mark_blocks

  -- After the Aime key: on an error the Bana key is tried, and its result is not looked at.
  unfoldable pub after_aime : Reader → Result (Unit {0}) × Reading W → Result Card × Machine W
  after_aime reader (ok _, r) = (ok (with_luid r.card), record { reader = reader; world = r.world })
  after_aime reader (err e, r) =
      let r' =
        exec (read_mifare_with_key reader.active_mifare 0x60 1 (mifare_key reader reader_key_bana))
          (without_blocks r) in
      (ok r'.card, record { reader = reader; world = r'.world })

  -- A Type A target with a UID of four bytes.
  unfoldable pub read_mifare : Act (Machine W) Card
  unfolding after_aime
  read_mifare s =
      let card = record zero_card {
        type = card_mifare;
        mifare_uid = copy (replicate 4 0) s.reader.active_mifare.uid 4;
      } in
      after_aime s.reader (
        read_mifare_with_key s.reader.active_mifare 0x61 2 (mifare_key s.reader reader_key_aime)
          (record { card = card; world = s.world }))

  -- After `pn532_poll_type_a`.
  unfoldable pub after_type_a : Result (Unit {0}) → Bool → Act (Machine W) Card
  after_type_a (err e) found s = (err e, s)
  after_type_a (ok _) found s =
      if not found || s.reader.active_mifare.uid_size != 4 then (ok zero_card, s) else read_mifare s

  unfoldable pub read_type_a : Bool → Act (Machine W) Card
  unfolding after_type_a
  read_type_a found s =
      let (poll, world) = pn532.poll_type_a s.reader.active_mifare found s.world in
      let reader = record (s.reader) { active_mifare = poll.target } in
      after_type_a poll.status poll.found (record { reader = reader; world = world })

  -- After `pn532_poll_felica`.
  unfoldable pub after_felica : Result (Unit {0}) → Bool → Act (Machine W) Card
  after_felica (ok _) true s = (ok (felica_card s.reader.active_felica), s)
  after_felica (ok _) false s =
      let reader = record (s.reader) {
        felica_system_code = other_system_code s.reader.felica_system_code;
      } in
      read_type_a false (record s { reader = reader })
  after_felica (err e) found s = read_type_a found s

  -- The part behind the test of the radio.
  unfoldable pub scan : Act (Machine W) Card
  unfolding after_felica
  scan s =
      let (poll, world) =
        pn532.poll_felica s.reader.felica_system_code s.reader.active_felica false s.world in
      let reader = record (s.reader) { active_felica = poll.target } in
      after_felica poll.status poll.found (record { reader = reader; world = world })

  unfoldable pub reader_read_card : Act (Machine W) Card
  reader_read_card s = if not s.reader.radio_enabled then (ok zero_card, s) else scan s
