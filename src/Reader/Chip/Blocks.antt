-- ===== src/Reader/Chip/Blocks.antt =====
-- The two blocks of a MIFARE tag, from `read_mifare_with_key` to the card.
use pareader.Base.{
  ℕ, ◌≡◌, refl, sym, ap, ◌∙◌, true, arith, [], ◌++◌, Bytes, take, drop, copy, copy_at, replicate,
  length, length-append, take_all, take_prefix, drop_prefix, drop-drop, if◌then◌else◌, Result, ok,
  Act, ◌>>=◌, ◌>>◌, append-nil,
}
use pareader.Card.{Card, card_mifare, zero_card}
use pareader.Pn532.{TypeATarget, Pn532Ops}
use pareader.Pn532.Commands.Exchange.{then_run}
use pareader.Reader.Luid.{valid_luid}
use pareader.Reader.ReadCard.{
  Reading, calling, store_block, mark_blocks, with_luid, read_mifare_with_key,
}

calling_run :
    {W A : Type 0} (m : Act W A) (r : Reading W) (a : A) (w' : W)
    → m r.world ≡ (ok a, w')
    → calling m r ≡ (ok a, record r { world = w' })
calling_run {W} {A} m r a w' h = ap (λ (x : Result A × W). (x.0, record r { world = x.1 })) h

-- A tag that accepts the key has its two blocks stored.
pub read_mifare_with_key-stores :
    {W : Type 0} (pn532 : Pn532Ops W) (t : TypeATarget) (auth_command block : ℕ) (key : Bytes)
    (r : Reading W) (block_1 block_2 : Bytes) (w1 w2 w3 : W)
    → pn532.mifare_authenticate t.target auth_command block key t.uid r.world ≡ (ok tt, w1)
    → pn532.mifare_read_block t.target 1 w1 ≡ (ok block_1, w2)
    → pn532.mifare_read_block t.target 2 w2 ≡ (ok block_2, w3)
    → read_mifare_with_key pn532 t auth_command block key r ≡ (
      ok tt,
      record {
        card = record (r.card) {
          blocks = copy_at (copy_at r.card.blocks 0 block_1 16) 16 block_2 16;
          has_blocks = true;
        };
        world = w3;
      },
    )
unfolding read_mifare_with_key
read_mifare_with_key-stores {W} pn532 t auth_command block key r block_1 block_2 w1 w2 w3 ha h1 h2 =
    let authenticate : Act (Reading W) (Unit {0}) =
      calling (pn532.mifare_authenticate t.target auth_command block key t.uid) in
    let read_1 : Act (Reading W) Bytes = calling (pn532.mifare_read_block t.target 1) in
    let read_2 : Act (Reading W) Bytes = calling (pn532.mifare_read_block t.target 2) in
    let store_2 : Bytes → Act (Reading W) (Unit {0}) =
      λ content. store_block 16 content >> mark_blocks in
    let store_1 : Bytes → Act (Reading W) (Unit {0}) =
      λ content. store_block 0 content >> (read_2 >>= store_2) in
    let r1 = record r { world = w1 } in
    let r2 = record r { world = w2 } in
    let half = record r2 {
      card = record (r.card) { blocks = copy_at r.card.blocks 0 block_1 16 };
    } in
    then_run authenticate (λ _. read_1 >>= store_1) r r1 tt
      (calling_run (pn532.mifare_authenticate t.target auth_command block key t.uid) r tt w1 ha)
    ∙ then_run read_1 store_1 r1 r2 block_1
        (calling_run (pn532.mifare_read_block t.target 1) r1 block_1 w2 h1)
    ∙ then_run read_2 store_2 half (record half { world = w3 }) block_2
        (calling_run (pn532.mifare_read_block t.target 2) half block_2 w3 h2)

-- The card that a tag with this UID and these blocks is.
abbrev pub tag_card : Bytes → Bytes → Bytes → Card
tag_card uid block_1 block_2 =
    let luid = take 10 (drop 6 block_2) in
    record zero_card {
      type = card_mifare;
      mifare_uid = uid;
      luid = if valid_luid luid then luid else replicate 10 0;
      blocks = block_1 ++ block_2;
      has_blocks = true;
    }

stored_blocks :
    (block_1 block_2 : Bytes)
    → length block_1 ≡ 16
    → length block_2 ≡ 16
    → copy_at (copy_at zero_card.blocks 0 block_1 16) 16 block_2 16 ≡ block_1 ++ block_2
stored_blocks block_1 block_2 sixteen_1 sixteen_2 =
    let zeros : Bytes = replicate 16 0 in
    let size : length (block_1 ++ zeros) ≡ 32 =
      omega (arith, sixteen_1, length-append block_1 zeros) in
    let nothing : drop 32 (block_1 ++ zeros) ≡ [] =
      sym (ap (λ (xs : Bytes). drop 32 xs) (append-nil (block_1 ++ zeros)))
      ∙ drop_prefix (block_1 ++ zeros) [] 32 size in
    rw
      (
        take_all block_1 16 sixteen_1,
        take_prefix block_1 zeros 16 sixteen_1,
        take_all block_2 16 sixteen_2,
        nothing,
        append-nil,
      )
      refl

pub with_luid-tag_card :
    (stored uid block_1 block_2 : Bytes)
    → take 4 stored ≡ uid
    → length block_1 ≡ 16
    → length block_2 ≡ 16
    → with_luid (record zero_card {
      type = card_mifare;
      mifare_uid = copy (replicate 4 0) stored 4;
      blocks = copy_at (copy_at zero_card.blocks 0 block_1 16) 16 block_2 16;
      has_blocks = true;
    })
      ≡ tag_card uid block_1 block_2
with_luid-tag_card stored uid block_1 block_2 used sixteen_1 sixteen_2 =
    let blocks = block_1 ++ block_2 in
    let behind : drop 22 blocks ≡ drop 6 block_2 =
      sym (drop-drop 6 16 blocks)
      ∙ ap (λ (xs : Bytes). drop 6 xs) (drop_prefix block_1 block_2 16 sixteen_1) in
    rw
      (
        stored_blocks block_1 block_2 sixteen_1 sixteen_2,
        behind,
        used,
        append-nil uid,
        append-nil (take 10 (drop 6 block_2)),
      )
      refl
