-- ===== src/Reader/ReadCard/Polling.antt =====
-- The choice of the FeliCa system code, and the radio switch, in `reader_read_card`.
use pareader.Base.{
  ℕ, ◌≡◌, refl, inl, inr, Bool, true, false, not, ◌||◌, ◌==◌, ◌!=◌, if◌then◌else◌, Bool-cases,
  Result, ok, err,
}
use mathlib.Core.Path.{subst, sym}
use pareader.Card.{zero_card}
use pareader.Pn532.{TypeATarget, FelicaTarget, Pn532Ops, Poll}
use pareader.Reader.State.{Reader, Machine}
use pareader.Reader.ReadCard.{
  Reading, after_aime, read_mifare, after_type_a, read_type_a, other_system_code, after_felica,
  scan, reader_read_card,
}

-- The next system code, from what the FeliCa poll reported.
abbrev pub next_code : ℕ → Result (Unit {0}) → Bool → ℕ
next_code code (ok _) true = code
next_code code (ok _) false = if code == 0x0003 then 0xFFFF else 0x0003
next_code code (err e) found = code

module _ {W : Type 0} (pn532 : Pn532Ops W) where
  -- The fields that only the key, radio and FeliCa operations change.
  pub record Keeps (r r' : Reader) : Type 0 where
    pub mifare_keys : r'.mifare_keys ≡ r.mifare_keys
    pub active_key_type : r'.active_key_type ≡ r.active_key_type
    pub active_felica : r'.active_felica ≡ r.active_felica
    pub felica_system_code : r'.felica_system_code ≡ r.felica_system_code
    pub radio_enabled : r'.radio_enabled ≡ r.radio_enabled

  after_aime-reader :
      (reader : Reader) (x : Result (Unit {0}) × Reading W)
      → (after_aime pn532 reader x).1.reader ≡ reader
  unfolding after_aime
  after_aime-reader reader (ok _, r) = refl
  after_aime-reader reader (err e, r) = refl

  after_type_a-reader :
      (status : Result (Unit {0})) (found : Bool) (s : Machine W)
      → (after_type_a pn532 status found s).1.reader ≡ s.reader
  unfolding after_type_a read_mifare
  after_type_a-reader (err e) found s = refl
  after_type_a-reader (ok _) found s =
      elim (Bool-cases (not found || s.reader.active_mifare.uid_size != 4)) [
        | inl none_found ↦ simp none_found
        | inr one ↦ simp one (after_aime-reader s.reader _)
      ]

  read_type_a-Keeps :
      (found : Bool) (s : Machine W) → Keeps s.reader (read_type_a pn532 found s).1.reader
  unfolding read_type_a
  read_type_a-Keeps found s =
      let x = pn532.poll_type_a s.reader.active_mifare found s.world in
      let t : Machine W = record {
        reader = record (s.reader) { active_mifare = x.0.target };
        world = x.1;
      } in
      subst (Keeps s.reader) (sym (after_type_a-reader x.0.status x.0.found t))
        (Keeps-with_mifare s.reader x.0.target)
    where
      Keeps-with_mifare : (r : Reader) (t : TypeATarget) → Keeps r (record r { active_mifare = t })
      Keeps-with_mifare r t = record {
        mifare_keys = refl;
        active_key_type = refl;
        active_felica = refl;
        felica_system_code = refl;
        radio_enabled = refl;
      }

  -- What a scan leaves of the reader, given what the FeliCa poll reported and wrote.
  pub record Scanned (r r' : Reader) (poll : Poll FelicaTarget) : Type 0 where
    pub mifare_keys : r'.mifare_keys ≡ r.mifare_keys
    pub active_key_type : r'.active_key_type ≡ r.active_key_type
    pub radio_enabled : r'.radio_enabled ≡ r.radio_enabled
    pub active_felica : r'.active_felica ≡ poll.target
    pub code : r'.felica_system_code ≡ next_code r.felica_system_code poll.status poll.found

  scan_felica :
      (r : Reader) (w : W) (status : Result (Unit {0})) (found : Bool) (target : FelicaTarget)
      → Scanned r
          (after_felica pn532 status found
            (record { reader = record r { active_felica = target }; world = w })).1.reader
          (record { status = status; found = found; target = target })
  unfolding after_felica
  scan_felica r w (ok _) true target = record {
    mifare_keys = refl;
    active_key_type = refl;
    radio_enabled = refl;
    active_felica = refl;
    code = refl;
  }
  scan_felica r w (ok _) false target =
      let toggled = record r {
        active_felica = target;
        felica_system_code = other_system_code r.felica_system_code;
      } in
      let keeps = read_type_a-Keeps false (record { reader = toggled; world = w }) in
      record {
        mifare_keys = keeps.mifare_keys;
        active_key_type = keeps.active_key_type;
        radio_enabled = keeps.radio_enabled;
        active_felica = keeps.active_felica;
        code = keeps.felica_system_code;
      }
  scan_felica r w (err e) found target =
      let polled = record r { active_felica = target } in
      let keeps = read_type_a-Keeps found (record { reader = polled; world = w }) in
      record {
        mifare_keys = keeps.mifare_keys;
        active_key_type = keeps.active_key_type;
        radio_enabled = keeps.radio_enabled;
        active_felica = keeps.active_felica;
        code = keeps.felica_system_code;
      }

  scan-Scanned :
      (s : Machine W)
      → Scanned s.reader
          (scan pn532 s).1.reader
          (pn532.poll_felica s.reader.felica_system_code s.reader.active_felica false s.world).0
  unfolding scan
  scan-Scanned s =
      let x = pn532.poll_felica s.reader.felica_system_code s.reader.active_felica false s.world in
      scan_felica s.reader x.1 x.0.status x.0.found x.0.target

  on-scan :
      (s : Machine W) → s.reader.radio_enabled ≡ true → reader_read_card pn532 s ≡ scan pn532 s
  unfolding reader_read_card
  on-scan s on = simp on

  -- While the radio is on, a read changes the system code for the next one exactly when the FeliCa
  -- poll succeeds and finds no target: from transit, 0x0003, to the wildcard 0xFFFF, and from any
  -- other code to transit. A poll that finds a target, or that fails, leaves the code. Keys, key type and radio flag stay as they are.
  pub reader_read_card-Scanned :
      (s : Machine W)
      → s.reader.radio_enabled ≡ true
      → Scanned s.reader
          (reader_read_card pn532 s).1.reader
          (pn532.poll_felica s.reader.felica_system_code s.reader.active_felica false s.world).0
  reader_read_card-Scanned s on = rw (on-scan s on) (scan-Scanned s)

  -- With the radio off, a read reports no card and changes nothing.
  pub reader_read_card-off :
      (s : Machine W)
      → s.reader.radio_enabled ≡ false
      → reader_read_card pn532 s ≡ (ok zero_card, s)
  unfolding reader_read_card
  reader_read_card-off s off = simp off
