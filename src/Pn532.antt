-- ===== src/Pn532.antt =====
-- impl/firmware/main/pn532.h: the targets, and the operations that pn532.c offers to reader.c,
-- over any state that they may change.
pub mod Codes
pub mod Bus
pub mod Frame
pub mod Commands
use pareader.Base.{ℕ, ◌≤◌, ◌≡◌, Bool, Bytes, length, Act, Result, ok}

pub record TypeATarget : Type 0 where
  pub target : ℕ
  pub uid : Bytes
  pub uid_size : ℕ
  pub sak : ℕ
  pub atqa : ℕ

pub record FelicaTarget : Type 0 where
  pub target : ℕ
  pub idm : Bytes
  pub pmm : Bytes

-- The arrays of a target have their declared sizes.
pub record IsTypeA (t : TypeATarget) : Type 0 where
  pub uid_array : length t.uid ≡ 10

pub record IsFelica (t : FelicaTarget) : Type 0 where
  pub idm_array : length t.idm ≡ 8
  pub pmm_array : length t.pmm ≡ 8

-- A poll writes its out parameters on some error paths too, so they stand beside the status.
pub record Poll (T : Type 0) : Type 0 where
  pub status : Result (Unit {0})
  pub found : Bool
  pub target : T

-- The other out parameters are the values returned on `ESP_OK`.
pub record Pn532Ops (W : Type 0) : Type 0 where
  pub init : Act W (Unit {0})
  pub set_radio : Bool → Act W (Unit {0})
  pub poll_type_a : TypeATarget → Bool → W → Poll TypeATarget × W
  pub poll_felica : ℕ → FelicaTarget → Bool → W → Poll FelicaTarget × W
  pub mifare_authenticate : ℕ → ℕ → ℕ → Bytes → Bytes → Act W (Unit {0})
  pub mifare_read_block : ℕ → ℕ → Act W Bytes
  pub felica_transact : ℕ → Bytes → ℕ → ℕ → Act W Bytes

-- What reader.c relies on: polls keep the arrays of a target, and the sizes of what is returned.
pub record Pn532Laws {W : Type 0} (pn532 : Pn532Ops W) : Type 0 where
  pub type_a_sizes :
      (t : TypeATarget) (found : Bool) (w : W)
      → IsTypeA t
      → IsTypeA (pn532.poll_type_a t found w).0.target
  pub felica_sizes :
      (code : ℕ) (t : FelicaTarget) (found : Bool) (w : W)
      → IsFelica t
      → IsFelica (pn532.poll_felica code t found w).0.target
  pub block_size :
      (target number : ℕ) (w : W) (block : Bytes)
      → (pn532.mifare_read_block target number w).0 ≡ ok block
      → length block ≡ 16
  pub response_size :
      (target : ℕ) (request : Bytes) (n capacity : ℕ) (w : W) (response : Bytes)
      → (pn532.felica_transact target request n capacity w).0 ≡ ok response
      → length response ≤ capacity
