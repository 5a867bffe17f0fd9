-- ===== src/Usb/Descriptors/Hid.antt =====
-- How a host reads a report descriptor: the short items of the USB HID specification, 1.11,
-- section 6.2.2, as far as they tell which reports there are and how long they are.
use pareader.Base.{ℕ, ◌+◌, ◌-◌, ◌*◌, ◌%◌, ◌≡◌, ◌⊎◌, ◌==◌, if◌then◌else◌, List, [], ◌∷◌, ◌++◌, Bytes}

pub data Direction : Type 0 where
  input output : Direction

-- A main item: which report it adds to, and how many bits.
pub record Field : Type 0 where
  pub direction : Direction
  pub report_id : ℕ
  pub bits : ℕ

-- The global items in force, the item that is being read, and the fields so far.
pub record Items : Type 0 where
  pub report_size : ℕ
  pub report_count : ℕ
  pub report_id : ℕ
  pub prefix : ℕ
  pub left : ℕ
  pub scale : ℕ
  pub value : ℕ
  pub fields : List Field

abbrev pub no_items : Items
no_items = record {
  report_size = 0;
  report_count = 0;
  report_id = 0;
  prefix = 0;
  left = 0;
  scale = 1;
  value = 0;
  fields = [];
}

abbrev add_field : Direction → Items → Items
add_field direction s = record s {
  fields =
      s.fields
      ++ record {
        direction = direction;
        report_id = s.report_id;
        bits = s.report_size * s.report_count;
      }
        ∷ [];
}

-- An item whose bytes are all read; the two low bits of the prefix are its length.
unfoldable pub apply_item : Items → Items
apply_item s =
    let tag = s.prefix - s.prefix % 4 in
    if tag == 0x74
    then record s { report_size = s.value }
    else if tag == 0x94
    then record s { report_count = s.value }
    else if tag == 0x84
    then record s { report_id = s.value }
    else if tag == 0x80
    then add_field input s
    else if tag == 0x90
    then add_field output s
    else s

-- One byte: the prefix of an item, or a byte of its little-endian value.
unfoldable pub item_byte : Items → ℕ → Items
item_byte s b =
    if s.left == 0
    then (let size = if b % 4 == 3 then 4 else b % 4 in
        let started = record s { prefix = b; left = size; scale = 1; value = 0 } in
        if size == 0 then apply_item started else started)
    else (let grown = record s {
      left = s.left - 1;
      scale = s.scale * 256;
      value = s.value + b * s.scale;
    } in
        if s.left == 1 then apply_item grown else grown)

unfoldable pub read_items : Items → Bytes → List Field
read_items s [] = s.fields
read_items s (b ∷ bs) = read_items (item_byte s b) bs

abbrev pub fields_of : Bytes → List Field
fields_of = read_items no_items

-- A field of that direction, report and length is among them.
abbrev pub Declares : List Field → Direction → ℕ → ℕ → Type 0
Declares [] direction report_id bits = ⊥
Declares (f ∷ fs) direction report_id bits =
    ((f.direction ≡ direction) × (f.report_id ≡ report_id) × (f.bits ≡ bits))
    ⊎ Declares fs direction report_id bits
