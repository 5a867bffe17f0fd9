-- ===== src/Card.antt =====
-- `reader_card_t`, the two key types, and `reader_set_led`, which has no hardware effect.
use pareader.Base.{ℕ, ◌≡◌, Bool, true, false, Bytes, length, replicate}

pub data CardType : Type 0 where
  card_none card_mifare card_felica : CardType

-- The values of the enum, as they are sent.
abbrev pub type_code : CardType → ℕ
type_code card_none = 0
type_code card_mifare = 1
type_code card_felica = 2

abbrev pub is_type : CardType → CardType → Bool
is_type card_none card_none = true
is_type card_mifare card_mifare = true
is_type card_felica card_felica = true
is_type _ _ = false

pub record Card : Type 0 where
  pub type : CardType
  pub mifare_uid : Bytes
  pub luid : Bytes
  pub blocks : Bytes
  pub idm : Bytes
  pub pmm : Bytes
  pub has_blocks : Bool

-- `memset(card, 0, sizeof(*card))`
abbrev pub zero_card : Card
zero_card = record {
  type = card_none;
  mifare_uid = replicate 4 0;
  luid = replicate 10 0;
  blocks = replicate 32 0;
  idm = replicate 8 0;
  pmm = replicate 8 0;
  has_blocks = false;
}

-- The arrays have the sizes that the struct declares.
pub record IsSized (c : Card) : Type 0 where
  pub uid_size : length c.mifare_uid ≡ 4
  pub luid_size : length c.luid ≡ 10
  pub blocks_size : length c.blocks ≡ 32
  pub idm_size : length c.idm ≡ 8
  pub pmm_size : length c.pmm ≡ 8

abbrev pub reader_key_aime : ℕ
reader_key_aime = 0

abbrev pub reader_key_bana : ℕ
reader_key_bana = 1

abbrev pub reader_set_led : {S : Type 0} → ℕ → ℕ → ℕ → S → S
reader_set_led red green blue s = s
