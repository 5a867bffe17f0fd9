-- ===== src/Reader/ReadCard/Valid.antt =====
-- The card that `reader_read_card` returns.
use pareader.Base.{
  ◌/◌, ◌≡◌, ◌≢◌, refl, ◌∙◌, ◌⊎◌, inl, inr, Bool, true, false, not, ◌||◌, arith, Bytes, length, take,
  drop, replicate, copy, copy_all, length-copy, length-drop, byte_at, ◌!=◌, Bool-cases, Result, ok,
  err,
}
use pareader.Card.{Card, card_mifare, zero_card, IsSized, reader_key_aime, reader_key_bana}
use pareader.Pn532.{FelicaTarget, Pn532Ops, Pn532Laws, IsFelica}
use pareader.Reader.Luid.{valid_luid}
use pareader.Reader.Luid.Digits.{IsDigits, IsNonzero, valid_luid_iff}
use pareader.Reader.State.{Reader, Machine, mifare_key, IsReader}
use pareader.Reader.ReadCard.Fresh.{
  IsFresh, Reads-IsFresh, without_blocks-IsFresh, read_mifare_with_key-Reads,
}
use pareader.Reader.ReadCard.{
  Reading, read_mifare_with_key, with_luid, without_blocks, after_aime, read_mifare, after_type_a,
  read_type_a, other_system_code, felica_card, after_felica, scan, reader_read_card,
}

-- A card as the specification wants it. A LUID is all zero or twenty decimal digits from the
-- blocks of a MIFARE card, the first of them not 3.
pub record IsValid (c : Card) : Type 0 where
  pub sized : IsSized c
  pub luid :
      (c.luid ≡ replicate 10 0)
      ⊎ ((c.luid ≡ take 10 (drop 22 c.blocks))
          × (c.has_blocks ≡ true)
          × (c.type ≡ card_mifare)
          × IsDigits c.luid
          × IsNonzero c.luid
          × (byte_at c.luid 0 / 16 ≢ 3))
  pub blocks : (c.has_blocks ≡ false) ⊎ (c.type ≡ card_mifare)

abbrev pub Returns : {W : Type 0} → Result Card × Machine W → Type 0
Returns (ok c, s) = IsReader s.reader × IsValid c
Returns (err e, s) = IsReader s.reader

with_luid-IsValid :
    (c : Card) → IsSized c → c.type ≡ card_mifare → c.has_blocks ≡ true → IsValid (with_luid c)
with_luid-IsValid c sized t b =
    let luid = copy c.luid (drop 22 c.blocks) 10 in
    let from_blocks : luid ≡ take 10 (drop 22 c.blocks) =
      copy_all c.luid (drop 22 c.blocks) 10 sized.luid_size in
    let size : length luid ≡ 10 =
      length-copy c.luid (drop 22 c.blocks) 10 (omega arith)
        (omega (arith, length-drop 22 c.blocks))
      ∙ sized.luid_size in
    let resize : (l : Bytes) → length l ≡ 10 → IsSized (record c { luid = l }) = (λ l h. record {
      uid_size = sized.uid_size;
      luid_size = h;
      blocks_size = sized.blocks_size;
      idm_size = sized.idm_size;
      pmm_size = sized.pmm_size;
    }) in
    elim (Bool-cases (valid_luid luid)) [
      | inl valid ↦
          let (d, n, f) = (valid_luid_iff luid).0 valid in
          rw valid (record {
            sized = resize luid size;
            luid = inr (from_blocks, b, t, d, n, f);
            blocks = inr t;
          })
      | inr invalid ↦
          rw invalid
            (record { sized = resize (replicate 10 0) refl; luid = inl refl; blocks = inr t })
    ]

pub zero_card-IsValid : IsValid zero_card
zero_card-IsValid = record {
  sized = record {
    uid_size = refl;
    luid_size = refl;
    blocks_size = refl;
    idm_size = refl;
    pmm_size = refl;
  };
  luid = inl refl;
  blocks = inl refl;
}

module _ {W : Type 0} (pn532 : Pn532Ops W) (laws : Pn532Laws pn532) where
  after_aime-Returns :
      (reader : Reader) (x : Result (Unit {0}) × Reading W)
      → IsReader reader
      → IsFresh x.1.card
      → ((x.0 ≡ ok tt) → x.1.card.has_blocks ≡ true)
      → Returns (after_aime pn532 reader x)
  unfolding after_aime
  after_aime-Returns reader (ok _, r) inv fresh done =
      (inv, with_luid-IsValid r.card fresh.sized fresh.type (done refl))
  after_aime-Returns reader (err e, r) inv fresh done =
      let start = without_blocks-IsFresh r fresh in
      let key = mifare_key reader reader_key_bana in
      let x = read_mifare_with_key pn532 reader.active_mifare 0x60 1 key (without_blocks r) in
      let last =
        Reads-IsFresh x
          (read_mifare_with_key-Reads pn532 laws reader.active_mifare 0x60 1 key (without_blocks r)
            refl)
          start in
      (inv, record { sized = last.sized; luid = inl last.luid; blocks = inr last.type })

  read_mifare-Returns : (s : Machine W) → IsReader s.reader → Returns (read_mifare pn532 s)
  unfolding read_mifare
  read_mifare-Returns s inv =
      let uid = s.reader.active_mifare.uid in
      let card : Card = record zero_card {
        type = card_mifare;
        mifare_uid = copy (replicate 4 0) uid 4;
      } in
      let r : Reading W = record { card = card; world = s.world } in
      let key = mifare_key s.reader reader_key_aime in
      let reads = read_mifare_with_key-Reads pn532 laws s.reader.active_mifare 0x61 2 key r refl in
      let x = read_mifare_with_key pn532 s.reader.active_mifare 0x61 2 key r in
      let fresh : IsFresh card = record {
        sized = record {
          uid_size =
              length-copy (replicate 4 0) uid 4 (omega arith) (omega (arith, inv.mifare.uid_array));
          luid_size = refl;
          blocks_size = refl;
          idm_size = refl;
          pmm_size = refl;
        };
        type = refl;
        luid = refl;
      } in
      after_aime-Returns s.reader x inv (Reads-IsFresh x reads fresh) reads.done

  after_type_a-Returns :
      (status : Result (Unit {0})) (found : Bool) (s : Machine W)
      → IsReader s.reader
      → Returns (after_type_a pn532 status found s)
  unfolding after_type_a
  after_type_a-Returns (err e) found s inv = inv
  after_type_a-Returns (ok _) found s inv =
      elim (Bool-cases (not found || s.reader.active_mifare.uid_size != 4)) [
        | inl none_found ↦ rw none_found (inv, zero_card-IsValid)
        | inr one ↦ rw one (read_mifare-Returns s inv)
      ]

  read_type_a-Returns :
      (found : Bool) (s : Machine W) → IsReader s.reader → Returns (read_type_a pn532 found s)
  unfolding read_type_a
  read_type_a-Returns found s inv =
      let x = pn532.poll_type_a s.reader.active_mifare found s.world in
      after_type_a-Returns x.0.status x.0.found
        (record { reader = record (s.reader) { active_mifare = x.0.target }; world = x.1 })
        (record {
          keys = inv.keys;
          key_type = inv.key_type;
          mifare = laws.type_a_sizes s.reader.active_mifare found s.world inv.mifare;
          felica = inv.felica;
          system_code = inv.system_code;
        })

  felica_card-IsValid : (t : FelicaTarget) → IsFelica t → IsValid (felica_card t)
  felica_card-IsValid t h = record {
    sized = record {
      uid_size = refl;
      luid_size = refl;
      blocks_size = refl;
      idm_size = length-copy (replicate 8 0) t.idm 8 (omega arith) (omega (arith, h.idm_array));
      pmm_size = length-copy (replicate 8 0) t.pmm 8 (omega arith) (omega (arith, h.pmm_array));
    };
    luid = inl refl;
    blocks = inl refl;
  }

  after_felica-Returns :
      (status : Result (Unit {0})) (found : Bool) (s : Machine W)
      → IsReader s.reader
      → Returns (after_felica pn532 status found s)
  unfolding after_felica
  after_felica-Returns (ok _) true s inv =
      (inv, felica_card-IsValid s.reader.active_felica inv.felica)
  after_felica-Returns (ok _) false s inv =
      read_type_a-Returns false
        (record s {
          reader = record (s.reader) {
            felica_system_code = other_system_code s.reader.felica_system_code;
          };
        })
        (record {
          keys = inv.keys;
          key_type = inv.key_type;
          mifare = inv.mifare;
          felica = inv.felica;
          system_code = ground arith;
        })
  after_felica-Returns (err e) found s inv = read_type_a-Returns found s inv

  scan-Returns : (s : Machine W) → IsReader s.reader → Returns (scan pn532 s)
  unfolding scan
  scan-Returns s inv =
      let code = s.reader.felica_system_code in
      let x = pn532.poll_felica code s.reader.active_felica false s.world in
      after_felica-Returns x.0.status x.0.found
        (record { reader = record (s.reader) { active_felica = x.0.target }; world = x.1 })
        (record {
          keys = inv.keys;
          key_type = inv.key_type;
          mifare = inv.mifare;
          felica = laws.felica_sizes code s.reader.active_felica false s.world inv.felica;
          system_code = inv.system_code;
        })

  -- `reader_read_card` keeps the reader's invariant, and the card that it returns is valid: its
  -- arrays have their sizes, its LUID is zero or the twenty digits of a MIFARE card whose blocks
  -- were read, and only a MIFARE card has blocks.
  pub reader_read_card-Returns :
      (s : Machine W) → IsReader s.reader → Returns (reader_read_card pn532 s)
  unfolding reader_read_card
  reader_read_card-Returns s inv = elim (Bool-cases s.reader.radio_enabled) [
    | inr off ↦ simp off (inv, zero_card-IsValid)
    | inl on ↦ simp on (scan-Returns s inv)
  ]
