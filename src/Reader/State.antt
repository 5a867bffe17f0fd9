-- ===== src/Reader/State.antt =====
-- The static variables of reader.c, and `reader_init`.
use pareader.Base.{
  ℕ, ◌≤◌, ◌≡◌, ◌⊎◌, Bool, true, List, [], ◌∷◌, Bytes, get_or, set, length, replicate, Act, exec,
}
use pareader.Card.{reader_key_aime, reader_key_bana}
use pareader.Pn532.{TypeATarget, FelicaTarget, IsTypeA, IsFelica, Pn532Ops}

abbrev pub default_aime_key : Bytes
default_aime_key = 0x57 ∷ 0x43 ∷ 0x43 ∷ 0x46 ∷ 0x76 ∷ 0x32 ∷ []

abbrev pub default_bana_key : Bytes
default_bana_key = 0x60 ∷ 0x90 ∷ 0xD0 ∷ 0x06 ∷ 0x32 ∷ 0xF5 ∷ []

abbrev pub felica_system_code_transit : ℕ
felica_system_code_transit = 0x0003

abbrev pub felica_system_code_wildcard : ℕ
felica_system_code_wildcard = 0xFFFF

pub record Reader : Type 0 where
  pub mifare_keys : List Bytes
  pub active_key_type : ℕ
  pub active_mifare : TypeATarget
  pub active_felica : FelicaTarget
  pub felica_system_code : ℕ
  pub radio_enabled : Bool

-- The values before `reader_init`.
abbrev pub reader_statics : Reader
reader_statics = record {
  mifare_keys = replicate 6 0 ∷ replicate 6 0 ∷ [];
  active_key_type = 0;
  active_mifare = record { target = 0; uid = replicate 10 0; uid_size = 0; sak = 0; atqa = 0 };
  active_felica = record { target = 0; idm = replicate 8 0; pmm = replicate 8 0 };
  felica_system_code = felica_system_code_transit;
  radio_enabled = true;
}

abbrev pub mifare_key : Reader → ℕ → Bytes
mifare_key r key_type = get_or r.mifare_keys key_type []

-- The statics, with the world that pn532.c acts on.
pub record Machine (W : Type 0) : Type 0 where
  pub reader : Reader
  pub world : W

-- A call of pn532.c.
abbrev pub on_world : {W A : Type 0} → Act W A → Act (Machine W) A
on_world m s = ((m s.world).0, record s { world = exec m s.world })

unfoldable pub reader_init : {W : Type 0} → Pn532Ops W → Act (Machine W) (Unit {0})
reader_init pn532 s =
    let keys = set s.reader.mifare_keys reader_key_aime default_aime_key in
    let reader = record (s.reader) { mifare_keys = set keys reader_key_bana default_bana_key } in
    on_world pn532.init (record s { reader = reader })

-- Two keys, the type of one of them active, arrays of their sizes, and one of the two system codes.
pub record IsReader (r : Reader) : Type 0 where
  pub keys : length r.mifare_keys ≡ 2
  pub key_type : r.active_key_type ≤ 1
  pub mifare : IsTypeA r.active_mifare
  pub felica : IsFelica r.active_felica
  pub system_code : (r.felica_system_code ≡ 0x0003) ⊎ (r.felica_system_code ≡ 0xFFFF)
