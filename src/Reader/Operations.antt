-- ===== src/Reader/Operations.antt =====
-- The other operations of reader.c, and all of them as the interface that the protocols use.
pub mod Laws
pub mod Keep
use pareader.Base.{
  ℕ, ◌||◌, not, Bool, Bytes, take, set, equal, ltb, ◌==◌, ◌!=◌, if◌then◌else◌, Act, ok, err, pure,
  raise, not_found, invalid_arg, ◌>>=◌, ◌>>◌,
}
use pareader.Card.{reader_key_aime, reader_key_bana}
use pareader.Pn532.{Pn532Ops}
use pareader.Reader.{ReaderOps}
use pareader.Reader.State.{Reader, Machine, mifare_key, on_world}
use pareader.Reader.ReadCard.{reader_read_card}

module _ {W : Type 0} (pn532 : Pn532Ops W) where
  unfoldable pub reader_mifare_select : Bytes → Act (Machine W) (Unit {0})
  reader_mifare_select uid s =
      if s.reader.active_mifare.uid_size != 4
        || not (equal (take 4 s.reader.active_mifare.uid) (take 4 uid))
      then raise not_found s
      else pure tt s

  unfoldable pub reader_mifare_set_key : ℕ → Bytes → Act (Machine W) (Unit {0})
  reader_mifare_set_key key_type key s =
      if ltb reader_key_bana key_type then raise invalid_arg s else (
        ok tt,
        record s {
          reader = record (s.reader) {
            mifare_keys = set s.reader.mifare_keys key_type (take 6 key);
          };
        },
      )

  unfoldable pub reader_mifare_authenticate : ℕ → Bytes → ℕ → Act (Machine W) (Unit {0})
  reader_mifare_authenticate key_type payload payload_size s =
      if ltb reader_key_bana key_type
      then raise invalid_arg s
      else (ok tt, record s { reader = record (s.reader) { active_key_type = key_type } })

  abbrev pub auth_command : ℕ → ℕ
  auth_command key_type = if key_type == reader_key_aime then 0x61 else 0x60

  -- The part behind the test of the UID.
  abbrev pub read_active_block : ℕ → Act (Machine W) Bytes
  read_active_block block_number s =
      (do
        on_world (
            pn532.mifare_authenticate s.reader.active_mifare.target
              (auth_command s.reader.active_key_type) block_number
              (mifare_key s.reader s.reader.active_key_type) s.reader.active_mifare.uid)
        on_world (pn532.mifare_read_block s.reader.active_mifare.target block_number))
        s

  unfoldable pub reader_mifare_read_block : Bytes → ℕ → Act (Machine W) Bytes
  unfolding reader_mifare_select
  reader_mifare_read_block uid block_number = do
    reader_mifare_select uid
    read_active_block block_number

  unfoldable pub reader_felica_transact : Bytes → ℕ → ℕ → Act (Machine W) Bytes
  reader_felica_transact request request_size capacity s =
      on_world (pn532.felica_transact s.reader.active_felica.target request request_size capacity) s

  unfoldable pub reader_radio_set : Bool → Act (Machine W) (Unit {0})
  reader_radio_set enabled = do
    on_world (pn532.set_radio enabled)
    (λ s. (ok tt, record s { reader = record (s.reader) { radio_enabled = enabled } }))

  abbrev pub reader_ops : ReaderOps (Machine W)
  reader_ops = record {
    read_card = reader_read_card pn532;
    mifare_select = reader_mifare_select;
    mifare_set_key = reader_mifare_set_key;
    mifare_authenticate = reader_mifare_authenticate;
    mifare_read_block = reader_mifare_read_block;
    felica_transact = reader_felica_transact;
    radio_set = reader_radio_set;
  }
