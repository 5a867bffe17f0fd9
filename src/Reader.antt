-- ===== src/Reader.antt =====
-- impl/firmware/main/reader.h: the card observation, and the operations that reader.c offers to
-- the protocol modules, over any state that they may change.
use pareader.Card.{Card}
pub mod State
pub mod Luid
pub mod ReadCard
pub mod Operations
pub mod World
pub mod Chip
use pareader.Base.{ℕ, ◌≤◌, ◌≡◌, Bool, Bytes, length, Act, ok}

-- The out parameters are the values returned on `ESP_OK`.
pub record ReaderOps (S : Type 0) : Type 0 where
  pub read_card : Act S Card
  pub mifare_select : Bytes → Act S (Unit {0})
  pub mifare_set_key : ℕ → Bytes → Act S (Unit {0})
  pub mifare_authenticate : ℕ → Bytes → ℕ → Act S (Unit {0})
  pub mifare_read_block : Bytes → ℕ → Act S Bytes
  pub felica_transact : Bytes → ℕ → ℕ → Act S Bytes
  pub radio_set : Bool → Act S (Unit {0})

-- What the clients rely on: the sizes of what the operations return.
pub record ReaderLaws {S : Type 0} (reader : ReaderOps S) : Type 0 where
  pub block_size :
      (uid : Bytes) (number : ℕ) (s : S) (block : Bytes)
      → (reader.mifare_read_block uid number s).0 ≡ ok block
      → length block ≡ 16
  pub felica_size :
      (request : Bytes) (n capacity : ℕ) (s : S) (response : Bytes)
      → (reader.felica_transact request n capacity s).0 ≡ ok response
      → length response ≤ capacity
