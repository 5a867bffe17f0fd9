-- ===== src/Reader/Chip/Tag.antt =====
-- A MIFARE tag that the chip answers for is read.
use pareader.Base.{
  ℕ, ◌≤◌, ◌<◌, ◌≡◌, ap, true, false, arith, [], ◌∷◌, ◌++◌, Bytes, take, drop, copy, replicate,
  length, length-append, take_prefix, ok, ◌==◌, if◌then◌else◌,
}
use mathlib.Core.Path.{subst}
use pareader.Card.{Card, card_mifare, zero_card, reader_key_aime}
use pareader.Pn532.Bus.{Bus}
use pareader.Pn532.Bus.Clock.{ClockLaws}
use pareader.Pn532.Commands.{pn532_poll_type_a, pn532_ops}
use pareader.Pn532.Commands.Exchange.{Exchange}
use pareader.Pn532.Commands.Polls.{
  type_a_content, felica_poll, poll_type_a-finds, poll_felica-none, authenticate-accepted,
  read_block-returns,
}
use pareader.Reader.State.{Machine, mifare_key}
use pareader.Reader.ReadCard.{
  other_system_code, after_aime, read_mifare, after_type_a, read_type_a, after_felica, scan,
  reader_read_card,
}
use pareader.Reader.Chip.Blocks.{read_mifare_with_key-stores, tag_card, with_luid-tag_card}

module _ {W : Type 0} (bus : Bus W) where
  -- What the chip answers, from `w` to `w'`, with one MIFARE tag of this UID in the field that
  -- accepts `key` as key B: no FeliCa card, the tag, and then its blocks 1 and 2.
  pub record TagSession (code target atqa sak : ℕ) (uid key block_1 block_2 : Bytes) (w w' : W)
      : Type 0 where
    pub rest : Bytes
    pub short : length rest ≤ 54
    pub no_felica : W
    pub listed : W
    pub authenticated : W
    pub between : W
    pub felica_poll : Exchange bus 0x4A (felica_poll code) (0 ∷ []) w no_felica
    pub type_a_poll :
        Exchange bus 0x4A (1 ∷ 0 ∷ []) (type_a_content target atqa sak uid rest) no_felica listed
    pub authentication :
        Exchange bus 0x40 (target ∷ 0x61 ∷ 2 ∷ (take 6 key ++ uid)) (0 ∷ []) listed authenticated
    pub first_block : Exchange bus 0x40 (target ∷ 0x30 ∷ 1 ∷ []) (0 ∷ block_1) authenticated between
    pub second_block : Exchange bus 0x40 (target ∷ 0x30 ∷ 2 ∷ []) (0 ∷ block_2) between w'

module _ {W : Type 0} (bus : Bus W) (clock : ClockLaws bus) where
  -- A MIFARE tag with a UID of four bytes that accepts the Aime key is read as a card with its UID
  -- and blocks 1 and 2, of sixteen bytes each, and with the last ten bytes of block 2 as LUID if
  -- they are a valid one, and else a LUID of zeros; the tag is then the active one, and the FeliCa
  -- system code is 0xFFFF if it was 0x0003, and else 0x0003. The radio is on, the chip answers each
  -- of the five commands in time, and the clock runs.
  pub reader_read_card-tag :
      (m : Machine W) (w' : W) (target atqa sak : ℕ) (uid block_1 block_2 : Bytes)
      → m.reader.radio_enabled ≡ true
      → atqa < 65536
      → length uid ≡ 4
      → length block_1 ≡ 16
      → length block_2 ≡ 16
      → TagSession bus m.reader.felica_system_code target atqa sak uid
          (mifare_key m.reader reader_key_aime)
          block_1
          block_2
          m.world
          w'
      → reader_read_card (pn532_ops bus) m ≡ (
        ok (tag_card uid block_1 block_2),
        record {
          reader = record (m.reader) {
            active_mifare = record {
              target = target;
              uid = uid ++ drop 4 m.reader.active_mifare.uid;
              uid_size = 4;
              sak = sak;
              atqa = atqa;
            };
            felica_system_code = if m.reader.felica_system_code == 0x0003 then 0xFFFF else 0x0003;
          };
          world = w';
        },
      )
  unfolding reader_read_card scan after_felica read_type_a after_type_a read_mifare after_aime
  reader_read_card-tag m w' target atqa sak uid block_1 block_2 on word four sixteen_1 sixteen_2 x =
      let code = m.reader.felica_system_code in
      let old = m.reader.active_mifare in
      let whole : length (uid ++ x.rest) ≤ 58 = omega (arith, x.short, length-append uid x.rest) in
      let key = mifare_key m.reader reader_key_aime in
      let stored = uid ++ drop 4 old.uid in
      let used : take 4 stored ≡ uid = take_prefix uid (drop 4 old.uid) 4 four in
      let found : pn532_poll_type_a bus old false x.no_felica ≡ (
        record {
          status = ok tt;
          found = true;
          target = record { target = target; uid = stored; uid_size = 4; sak = sak; atqa = atqa };
        },
        x.listed,
      ) =
        subst
          (λ (n : ℕ). pn532_poll_type_a bus old false x.no_felica ≡ (
            record {
              status = ok tt;
              found = true;
              target = record {
                target = target;
                uid = uid ++ drop n old.uid;
                uid_size = n;
                sak = sak;
                atqa = atqa;
              };
            },
            x.listed,
          ))
          four
          (poll_type_a-finds bus clock target atqa sak uid x.rest old false x.no_felica x.listed
            word (omega arith) whole x.type_a_poll) in
      rw
        (
          on,
          poll_felica-none bus clock code m.reader.active_felica false m.world x.no_felica
              x.felica_poll,
          found,
          read_mifare_with_key-stores (pn532_ops bus)
              (record { target = target; uid = stored; uid_size = 4; sak = sak; atqa = atqa }) 0x61
              2 key
              (record {
                card = record zero_card {
                  type = card_mifare;
                  mifare_uid = copy (replicate 4 0) stored 4;
                };
                world = x.listed;
              })
              block_1 block_2 x.authenticated x.between w'
              (authenticate-accepted bus clock target 0x61 2 key stored x.listed x.authenticated
                (rw used x.authentication))
              (read_block-returns bus clock target 1 block_1 x.authenticated x.between sixteen_1
                x.first_block)
              (read_block-returns bus clock target 2 block_2 x.between w' sixteen_2 x.second_block),
        )
        (ap
          (λ (card : Card). (
            ok card,
            record {
              reader = record (m.reader) {
                active_mifare = record {
                  target = target;
                  uid = stored;
                  uid_size = 4;
                  sak = sak;
                  atqa = atqa;
                };
                felica_system_code = other_system_code code;
                radio_enabled = true;
              };
              world = w';
            },
          ))
          (with_luid-tag_card stored uid block_1 block_2 used sixteen_1 sixteen_2))
