-- ===== src/Reader/Operations/Keep.antt =====
-- What the operations of reader.c keep of its statics.
use pareader.Base.{
  ℕ, ◌≡◌, refl, ap, ◌∙◌, Bool, true, false, Bytes, length-set, take, ltb, if◌then◌else◌, arith,
  Result, ok, err, exec, Act, and_then,
}
use pareader.Card.{Card}
use pareader.Pn532.{Pn532Ops}
use pareader.Reader.State.{Machine, IsReader, on_world}
use pareader.Reader.ReadCard.Valid.{Returns}
use pareader.Reader.Operations.{
  reader_mifare_select, reader_mifare_set_key, reader_mifare_authenticate, read_active_block,
  reader_mifare_read_block, reader_radio_set,
}
use pareader.Reader.Operations.Laws.{select_state}

-- A chain of calls of pn532.c leaves the statics alone.
and_then-reader :
    {W A B : Type 0} (r : Result A) (s : Machine W) (f : A → Act (Machine W) B)
    → ((a : A) → (f a s).1.reader ≡ s.reader)
    → (and_then r s f).1.reader ≡ s.reader
and_then-reader (ok a) s f h = h a
and_then-reader (err e) s f h = refl

pub Returns-reader : {W : Type 0} (x : Result Card × Machine W) → Returns x → IsReader x.1.reader
Returns-reader (ok c, s) h = h.0
Returns-reader (err e, s) h = h

-- A test of the code, with both branches.
branch_IsReader :
    {W : Type 0} (b : Bool) (x y : Result (Unit {0}) × Machine W)
    → IsReader x.1.reader
    → (b ≡ false → IsReader y.1.reader)
    → IsReader (if b then x else y).1.reader
branch_IsReader true x y hx hy = hx
branch_IsReader false x y hx hy = hy refl

module _ {W : Type 0} (pn532 : Pn532Ops W) where
  pub read_block_reader :
      (uid : Bytes) (number : ℕ) (s : Machine W)
      → (reader_mifare_read_block pn532 uid number s).1.reader ≡ s.reader
  unfolding reader_mifare_read_block
  read_block_reader uid number s =
      let x = reader_mifare_select pn532 uid s in
      let same : x.1 ≡ s = select_state pn532 uid s in
      and_then-reader x.0 x.1 (λ _. read_active_block pn532 number)
        (λ _. and_then-reader _ _ (λ _. on_world (pn532.mifare_read_block _ number)) (λ _. refl))
      ∙ ap (λ (m : Machine W). m.reader) same

  pub set_key-IsReader :
      (key_type : ℕ) (key : Bytes) (s : Machine W)
      → IsReader s.reader
      → IsReader (exec (reader_mifare_set_key pn532 key_type key) s).reader
  unfolding reader_mifare_set_key
  set_key-IsReader t key s h = branch_IsReader (ltb 1 t) _ _ h (λ good. record {
    keys = length-set s.reader.mifare_keys t (take 6 key) ∙ h.keys;
    key_type = h.key_type;
    mifare = h.mifare;
    felica = h.felica;
    system_code = h.system_code;
  })

  pub authenticate-IsReader :
      (key_type : ℕ) (payload : Bytes) (n : ℕ) (s : Machine W)
      → IsReader s.reader
      → IsReader (exec (reader_mifare_authenticate pn532 key_type payload n) s).reader
  unfolding reader_mifare_authenticate
  authenticate-IsReader t payload n s h = branch_IsReader (ltb 1 t) _ _ h (λ good. record {
    keys = h.keys;
    key_type = ground arith;
    mifare = h.mifare;
    felica = h.felica;
    system_code = h.system_code;
  })

  radio_result-IsReader :
      (enabled : Bool) (x : Result (Unit {0}) × Machine W)
      → IsReader x.1.reader
      → IsReader
          (and_then x.0 x.1 (λ _ s.
            (ok tt, record s { reader = record (s.reader) { radio_enabled = enabled } }))).1.reader
  radio_result-IsReader enabled (err e, s) h = h
  radio_result-IsReader enabled (ok _, s) h = record {
    keys = h.keys;
    key_type = h.key_type;
    mifare = h.mifare;
    felica = h.felica;
    system_code = h.system_code;
  }

  pub radio_set-IsReader :
      (enabled : Bool) (s : Machine W)
      → IsReader s.reader
      → IsReader (exec (reader_radio_set pn532 enabled) s).reader
  unfolding reader_radio_set
  radio_set-IsReader enabled s h =
      radio_result-IsReader enabled (on_world (pn532.set_radio enabled) s) h
