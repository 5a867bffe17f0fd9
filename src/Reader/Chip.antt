-- ===== src/Reader/Chip.antt =====
-- A card on the reader is read: `reader_read_card` over the commands of pn532.c, against what the
-- chip answers on the bus.
pub mod Blocks
pub mod Tag
use pareader.Base.{
  ℕ, ◌≤◌, ◌<◌, ◌≡◌, refl, sym, ap, ◌∙◌, true, false, arith, [], ◌∷◌, ◌++◌, Bytes, take, drop, copy,
  copy_at, copy_all, replicate, length, length-append, take_all, take_prefix, drop_prefix,
  drop-drop, if◌then◌else◌, Result, ok, Act, ◌>>=◌, ◌>>◌, append-nil,
}
use mathlib.Core.Path.{subst}
use pareader.Card.{Card, card_mifare, card_felica, zero_card, reader_key_aime}
use pareader.Pn532.{TypeATarget, IsFelica, Pn532Ops}
use pareader.Pn532.Bus.{Bus}
use pareader.Pn532.Bus.Clock.{ClockLaws}
use pareader.Pn532.Commands.{pn532_poll_type_a, pn532_ops}
use pareader.Pn532.Commands.Exchange.{Exchange, then_run}
use pareader.Pn532.Commands.Polls.{
  type_a_content, felica_content, felica_poll, poll_type_a-finds, poll_felica-finds,
  poll_felica-none, authenticate-accepted, read_block-returns,
}
use pareader.Reader.Luid.{valid_luid}
use pareader.Reader.State.{Machine, mifare_key}
use pareader.Reader.ReadCard.{
  Reading, calling, store_block, mark_blocks, with_luid, other_system_code, read_mifare_with_key,
  after_aime, read_mifare, after_type_a, read_type_a, after_felica, scan, reader_read_card,
}

module _ {W : Type 0} (bus : Bus W) (clock : ClockLaws bus) where
  -- A FeliCa card that the chip lists when it is polled, with an IDm and a PMm of eight bytes
  -- each, and answers in time, is read as a card with these, in one exchange, and kept as the
  -- active FeliCa target. The radio is on, the arrays of the active target have their sizes, and
  -- the clock runs.
  pub reader_read_card-felica :
      (m : Machine W) (w' : W) (target : ℕ) (idm pmm : Bytes) (system_code : ℕ)
      → m.reader.radio_enabled ≡ true
      → IsFelica m.reader.active_felica
      → length idm ≡ 8
      → length pmm ≡ 8
      → Exchange bus 0x4A
          (felica_poll m.reader.felica_system_code)
          (felica_content target idm pmm system_code)
          m.world
          w'
      → reader_read_card (pn532_ops bus) m ≡ (
        ok (record zero_card { type = card_felica; idm = idm; pmm = pmm }),
        record {
          reader = record (m.reader) {
            active_felica = record { target = target; idm = idm; pmm = pmm };
          };
          world = w';
        },
      )
  unfolding reader_read_card scan after_felica
  reader_read_card-felica m w' target idm pmm system_code on arrays eight_idm eight_pmm x =
      rw
        (
          on,
          poll_felica-finds bus clock m.reader.felica_system_code target idm pmm system_code
              m.reader.active_felica false m.world w' arrays eight_idm eight_pmm x,
          copy_all (replicate 8 0) idm 8 refl,
          copy_all (replicate 8 0) pmm 8 refl,
          take_all idm 8 eight_idm,
          take_all pmm 8 eight_pmm,
        )
        refl
