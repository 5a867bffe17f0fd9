-- ===== src/Reader/Operations/Laws.antt =====
-- What the operations of reader.c keep and return.
use pareader.Base.{
  ℕ, zero, suc, ◌≤◌, ◌≡◌, ◌↔◌, refl, ◌∙◌, Bool, true, false, not, ◌||◌, inl, inr, Bytes, [], take,
  length, length-set, get_or-set_self, equal, equal_iff, ◌==◌, ◌!=◌, if◌then◌else◌, ◌>>◌,
  Bool-cases, arith, ok, err, exec, and_then-eq-ok, not_found,
}
use pareader.Pn532.{Pn532Ops, Pn532Laws}
use pareader.Reader.{ReaderLaws}
use pareader.Reader.State.{Machine, mifare_key, on_world}
use pareader.Reader.Operations.{
  reader_mifare_select, reader_mifare_set_key, reader_mifare_authenticate, auth_command,
  read_active_block, reader_mifare_read_block, reader_felica_transact, reader_ops,
}

-- A tag is selected exactly when the target of the last Type A poll has a UID of four bytes, and
-- they are the ones asked for.
pub reader_mifare_select_iff :
    {W : Type 0} (pn532 : Pn532Ops W) (uid : Bytes) (s : Machine W)
    → ((reader_mifare_select pn532 uid s).0 ≡ ok tt)
      ↔ ((s.reader.active_mifare.uid_size ≡ 4) × (take 4 s.reader.active_mifare.uid ≡ take 4 uid))
unfolding reader_mifare_select
reader_mifare_select_iff pn532 uid s =
    let same = equal_iff (take 4 s.reader.active_mifare.uid) (take 4 uid) in
    (ground (arith, same), ground (arith, same))

if_state :
    {A S : Type 0} (s : S) (b : Bool) (x y : A) → (if◌then◌else◌ {A = A × S} b (x, s) (y, s)).1 ≡ s
if_state s true x y = refl
if_state s false x y = refl

module _ {W : Type 0} (pn532 : Pn532Ops W) where
  pub select_state : (uid : Bytes) (s : Machine W) → (reader_mifare_select pn532 uid s).1 ≡ s
  unfolding reader_mifare_select
  select_state uid s = if_state s _ (err not_found) (ok tt)

  read_block_size :
      Pn532Laws pn532
      → (uid : Bytes) (number : ℕ) (s : Machine W) (block : Bytes)
      → (reader_mifare_read_block pn532 uid number s).0 ≡ ok block
      → length block ≡ 16
  unfolding reader_mifare_read_block
  read_block_size laws uid number s block h =
      let x = reader_mifare_select pn532 uid s in
      let (_, _, k) = and_then-eq-ok x.0 x.1 (λ _. read_active_block pn532 number) h in
      let target = x.1.reader.active_mifare in
      let y =
        on_world
          (pn532.mifare_authenticate target.target (auth_command pn532 x.1.reader.active_key_type)
            number (mifare_key x.1.reader x.1.reader.active_key_type) target.uid)
          x.1 in
      let (_, _, l) =
        and_then-eq-ok y.0 y.1 (λ _. on_world (pn532.mifare_read_block target.target number)) k in
      laws.block_size target.target number y.1.world block l

  -- The interface that the protocols use has the sizes that they rely on.
  pub reader_ops-ReaderLaws : Pn532Laws pn532 → ReaderLaws (reader_ops pn532)
  unfolding reader_felica_transact
  reader_ops-ReaderLaws laws = record {
    block_size = read_block_size laws;
    felica_size = λ request n capacity s response h.
        laws.response_size s.reader.active_felica.target request n capacity s.world response h;
  }

  -- The test of `reader_mifare_select`.
  abbrev mismatch : Bytes → Machine W → Bool
  mismatch uid s =
      s.reader.active_mifare.uid_size != 4
      || not (equal (take 4 s.reader.active_mifare.uid) (take 4 uid))

  -- The state after `reader_mifare_set_key` and `reader_mifare_authenticate` for one key type.
  abbrev pub keyed : ℕ → Bytes → Bytes → ℕ → Machine W → Machine W
  keyed key_type key payload payload_size s =
      exec (reader_mifare_authenticate pn532 key_type payload payload_size)
        (exec (reader_mifare_set_key pn532 key_type key) s)

  -- A block read after a key was set and chosen, for either key type, of the selected tag:
  -- authenticates to the tag with that key and the command of its type (0x61 for Aime, 0x60 for
  -- Bana), and then reads the block. The keys stay two.
  pub reader_mifare_read_block-keyed :
      (key_type : ℕ) (key payload : Bytes) (payload_size : ℕ) (uid : Bytes) (number : ℕ)
      (s : Machine W)
      → key_type ≤ 1
      → length s.reader.mifare_keys ≡ 2
      → (reader_mifare_select pn532 uid s).0 ≡ ok tt
      → let t = keyed key_type key payload payload_size s in
        let target = s.reader.active_mifare in
        (length t.reader.mifare_keys ≡ 2)
        × (reader_mifare_read_block pn532 uid number t
            ≡ (do
              on_world (
                  pn532.mifare_authenticate target.target
                    (if key_type == 0 then 0x61 else 0x60)
                    number
                    (take 6 key)
                    target.uid)
              on_world (pn532.mifare_read_block target.target number))
                t)
  unfolding reader_mifare_read_block reader_mifare_set_key reader_mifare_authenticate
  reader_mifare_read_block-keyed zero key payload n uid number s small two selected =
      let own = get_or-set_self s.reader.mifare_keys 0 (take 6 key) [] (omega arith) in
      (
        length-set s.reader.mifare_keys 0 (take 6 key) ∙ two,
        elim (Bool-cases (mismatch uid s)) [
          | inl bad ↦ let h = simp bad at selected in cc
          | inr good ↦ simp (good, own)
        ],
      )
  reader_mifare_read_block-keyed (suc zero) key payload n uid number s small two selected =
      let own = get_or-set_self s.reader.mifare_keys 1 (take 6 key) [] (omega arith) in
      (
        length-set s.reader.mifare_keys 1 (take 6 key) ∙ two,
        elim (Bool-cases (mismatch uid s)) [
          | inl bad ↦ let h = simp bad at selected in cc
          | inr good ↦ simp (good, own)
        ],
      )
  reader_mifare_read_block-keyed (suc (suc k)) key payload n uid number s small two selected =
      absurd (omega arith)
