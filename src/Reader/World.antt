-- ===== src/Reader/World.antt =====
-- What every operation of pn532.c keeps of the world, every operation of reader.c keeps.
use pareader.Base.{
  ℕ, Bool, true, false, not, ◌||◌, Bytes, ◌!=◌, if◌then◌else◌, copy_at, Result, ok, err, Act,
  and_then, ◌>>=◌, ◌>>◌,
}
use pareader.Pn532.{TypeATarget, FelicaTarget, Pn532Ops}
use pareader.Reader.State.{Reader, Machine, on_world, mifare_key}
use pareader.Reader.ReadCard.{
  Reading, calling, store_block, mark_blocks, without_blocks, read_mifare_with_key, after_aime,
  read_mifare, after_type_a, read_type_a, after_felica, scan, reader_read_card,
}
use pareader.Reader.Operations.{
  reader_mifare_select, reader_mifare_set_key, reader_mifare_authenticate, read_active_block,
  auth_command, reader_mifare_read_block, reader_felica_transact, reader_radio_set,
}

-- Every operation that is called after the start keeps `P`.
pub record Pn532Keeps {W : Type 0} (pn532 : Pn532Ops W) (P : W → Type 0) : Type 0 where
  pub set_radio : (on : Bool) (w : W) → P w → P (pn532.set_radio on w).1
  pub poll_type_a :
      (t : TypeATarget) (found : Bool) (w : W) → P w → P (pn532.poll_type_a t found w).1
  pub poll_felica :
      (code : ℕ) (t : FelicaTarget) (found : Bool) (w : W)
      → P w
      → P (pn532.poll_felica code t found w).1
  pub authenticate :
      (target auth_command block : ℕ) (key uid : Bytes) (w : W)
      → P w
      → P (pn532.mifare_authenticate target auth_command block key uid w).1
  pub read_block : (target block : ℕ) (w : W) → P w → P (pn532.mifare_read_block target block w).1
  pub transact :
      (target : ℕ) (request : Bytes) (n capacity : ℕ) (w : W)
      → P w
      → P (pn532.felica_transact target request n capacity w).1

abbrev Preserves : {S A : Type 0} → (S → Type 0) → Act S A → Type 0
Preserves {S = S} Q m = (s : S) → Q s → Q (m s).1

-- A bind preserves what both its parts preserve.
bind_keeps :
    {S A B : Type 0} (Q : S → Type 0) (m : Act S A) (f : A → Act S B)
    → Preserves Q m
    → ((a : A) → Preserves Q (f a))
    → Preserves Q (m >>= f)
bind_keeps {S} {A} {B} Q m f h k s q = after (m s).0 (m s).1 (h s q)
  where
    after : (r : Result A) (t : S) → Q t → Q (and_then r t f).1
    after (ok a) t p = k a t p
    after (err e) t p = p

branch_keeps :
    {S A : Type 0} (Q : S → Type 0) (b : Bool) (x y : A × S)
    → Q x.1
    → Q y.1
    → Q (if b then x else y).1
branch_keeps Q true x y hx hy = hx
branch_keeps Q false x y hx hy = hy

module _ {W : Type 0} (pn532 : Pn532Ops W) (P : W → Type 0) (keeps : Pn532Keeps pn532 P) where
  abbrev Holds : Machine W → Type 0
  Holds s = P s.world

  abbrev HoldsReading : Reading W → Type 0
  HoldsReading r = P r.world

  read_mifare_with_key-keeps :
      (target : TypeATarget) (auth_command block : ℕ) (key : Bytes) (r : Reading W)
      → P r.world
      → P (read_mifare_with_key pn532 target auth_command block key r).1.world
  unfolding read_mifare_with_key
  read_mifare_with_key-keeps t c b key =
      let authenticate : Act (Reading W) (Unit {0}) =
        calling (pn532.mifare_authenticate t.target c b key t.uid) in
      let read_1 : Act (Reading W) Bytes = calling (pn532.mifare_read_block t.target 1) in
      let read_2 : Act (Reading W) Bytes = calling (pn532.mifare_read_block t.target 2) in
      let store_2 : Bytes → Act (Reading W) (Unit {0}) =
        λ block. store_block 16 block >> mark_blocks in
      let store_1 : Bytes → Act (Reading W) (Unit {0}) =
        λ block. store_block 0 block >> (read_2 >>= store_2) in
      let rest =
        bind_keeps HoldsReading read_2 store_2 (λ r h. keeps.read_block t.target 2 r.world h)
          (λ block r h. h) in
      bind_keeps HoldsReading authenticate (λ _. read_1 >>= store_1)
        (λ r h. keeps.authenticate t.target c b key t.uid r.world h)
        (λ _.
          bind_keeps HoldsReading read_1 store_1 (λ r h. keeps.read_block t.target 1 r.world h)
            (λ block r h.
              rest
                (record r { card = record (r.card) { blocks = copy_at r.card.blocks 0 block 16 } })
                h))

  after_aime-keeps :
      (reader : Reader) (x : Result (Unit {0}) × Reading W)
      → P x.1.world
      → P (after_aime pn532 reader x).1.world
  unfolding after_aime
  after_aime-keeps reader (ok _, r) h = h
  after_aime-keeps reader (err e, r) h =
      read_mifare_with_key-keeps reader.active_mifare 0x60 1 _ (without_blocks r) h

  after_type_a-keeps :
      (status : Result (Unit {0})) (found : Bool) (s : Machine W)
      → P s.world
      → P (after_type_a pn532 status found s).1.world
  unfolding after_type_a read_mifare
  after_type_a-keeps (err e) found s h = h
  after_type_a-keeps (ok _) found s h =
      branch_keeps Holds (not found || s.reader.active_mifare.uid_size != 4) _ _ h (
        after_aime-keeps s.reader _
          (read_mifare_with_key-keeps s.reader.active_mifare 0x61 2 _ _ h))

  read_type_a-keeps :
      (found : Bool) (s : Machine W) → P s.world → P (read_type_a pn532 found s).1.world
  unfolding read_type_a
  read_type_a-keeps found s h =
      let x = pn532.poll_type_a s.reader.active_mifare found s.world in
      after_type_a-keeps x.0.status x.0.found
        (record { reader = record (s.reader) { active_mifare = x.0.target }; world = x.1 })
        (keeps.poll_type_a s.reader.active_mifare found s.world h)

  after_felica-keeps :
      (status : Result (Unit {0})) (found : Bool) (s : Machine W)
      → P s.world
      → P (after_felica pn532 status found s).1.world
  unfolding after_felica
  after_felica-keeps (ok _) true s h = h
  after_felica-keeps (ok _) false s h = read_type_a-keeps false _ h
  after_felica-keeps (err e) found s h = read_type_a-keeps found s h

  pub reader_read_card-keeps : (s : Machine W) → P s.world → P (reader_read_card pn532 s).1.world
  unfolding reader_read_card scan
  reader_read_card-keeps s h =
      let code = s.reader.felica_system_code in
      let x = pn532.poll_felica code s.reader.active_felica false s.world in
      branch_keeps Holds (not s.reader.radio_enabled) _ _ h (
        after_felica-keeps x.0.status x.0.found
          (record { reader = record (s.reader) { active_felica = x.0.target }; world = x.1 })
          (keeps.poll_felica s.reader.felica_system_code s.reader.active_felica false s.world h))

  pub mifare_select-keeps :
      (uid : Bytes) (s : Machine W) → P s.world → P (reader_mifare_select pn532 uid s).1.world
  unfolding reader_mifare_select
  mifare_select-keeps uid s h = branch_keeps Holds _ _ _ h h

  pub set_key-keeps :
      (t : ℕ) (key : Bytes) (s : Machine W)
      → P s.world
      → P (reader_mifare_set_key pn532 t key s).1.world
  unfolding reader_mifare_set_key
  set_key-keeps t key s h = branch_keeps Holds _ _ _ h h

  pub authenticate-keeps :
      (t : ℕ) (payload : Bytes) (n : ℕ) (s : Machine W)
      → P s.world
      → P (reader_mifare_authenticate pn532 t payload n s).1.world
  unfolding reader_mifare_authenticate
  authenticate-keeps t payload n s h = branch_keeps Holds _ _ _ h h

  active_block-keeps : (number : ℕ) → Preserves Holds (read_active_block pn532 number)
  active_block-keeps number s h =
      let target = s.reader.active_mifare in
      let authenticate : Act (Machine W) (Unit {0}) = on_world (
        pn532.mifare_authenticate target.target (auth_command pn532 s.reader.active_key_type) number
          (mifare_key s.reader s.reader.active_key_type) target.uid) in
      let read : Act (Machine W) Bytes = on_world (pn532.mifare_read_block target.target number) in
      bind_keeps Holds authenticate (λ _. read)
        (λ t k. keeps.authenticate target.target _ number _ target.uid t.world k)
        (λ _ t k. keeps.read_block target.target number t.world k) s h

  pub read_block-keeps :
      (uid : Bytes) (number : ℕ) (s : Machine W)
      → P s.world
      → P (reader_mifare_read_block pn532 uid number s).1.world
  unfolding reader_mifare_read_block
  read_block-keeps uid number =
      bind_keeps Holds (reader_mifare_select pn532 uid) (λ _. read_active_block pn532 number)
        (mifare_select-keeps uid) (λ _. active_block-keeps number)

  pub felica_transact-keeps :
      (request : Bytes) (n capacity : ℕ) (s : Machine W)
      → P s.world
      → P (reader_felica_transact pn532 request n capacity s).1.world
  unfolding reader_felica_transact
  felica_transact-keeps request n capacity s h =
      keeps.transact s.reader.active_felica.target request n capacity s.world h

  pub radio_set-keeps :
      (on : Bool) (s : Machine W) → P s.world → P (reader_radio_set pn532 on s).1.world
  unfolding reader_radio_set
  radio_set-keeps on =
      let enable : Act (Machine W) (Unit {0}) =
        λ s. (ok tt, record s { reader = record (s.reader) { radio_enabled = on } }) in
      bind_keeps Holds (on_world (pn532.set_radio on)) (λ _. enable)
        (λ s h. keeps.set_radio on s.world h) (λ _ s h. h)
