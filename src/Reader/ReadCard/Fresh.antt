-- ===== src/Reader/ReadCard/Fresh.antt =====
-- A MIFARE card while its blocks are read.
use pareader.Base.{
  ℕ, ◌≡◌, refl, sym, ◌∙◌, ◌⊎◌, inl, inr, true, arith, Bytes, length, replicate, copy_at,
  length-copy_at, Result, Result-cases, ok, exec,
}
use mathlib.Core.Path.{subst}
use pareader.Card.{Card, card_mifare, IsSized}
use pareader.Pn532.{TypeATarget, Pn532Ops, Pn532Laws}
use pareader.Reader.ReadCard.{Reading, read_mifare_with_key, without_blocks}

-- What `read_mifare_with_key` from `r` leaves: only the blocks and their flag may change.
pub record Reads {W : Type 0} (r : Reading W) (x : Result (Unit {0}) × Reading W) : Type 0 where
  pub kept :
      x.1.card ≡ record (r.card) { blocks = x.1.card.blocks; has_blocks = x.1.card.has_blocks }
  pub size : length x.1.card.blocks ≡ 32
  pub flag : (x.1.card.has_blocks ≡ true) ⊎ (x.1.card.has_blocks ≡ r.card.has_blocks)
  pub done : (x.0 ≡ ok tt) → x.1.card.has_blocks ≡ true

-- While the blocks of a MIFARE card are read, its LUID is zero.
pub record IsFresh (c : Card) : Type 0 where
  pub sized : IsSized c
  pub type : c.type ≡ card_mifare
  pub luid : c.luid ≡ replicate 10 0

pub Reads-IsFresh :
    {W : Type 0} {r : Reading W} (x : Result (Unit {0}) × Reading W)
    → Reads r x
    → IsFresh r.card
    → IsFresh x.1.card
Reads-IsFresh {r} x reads fresh = subst IsFresh (sym reads.kept) (record {
  sized = record {
    uid_size = fresh.sized.uid_size;
    luid_size = fresh.sized.luid_size;
    blocks_size = reads.size;
    idm_size = fresh.sized.idm_size;
    pmm_size = fresh.sized.pmm_size;
  };
  type = fresh.type;
  luid = fresh.luid;
})

pub without_blocks-IsFresh :
    {W : Type 0} (r : Reading W) → IsFresh r.card → IsFresh (without_blocks r).card
without_blocks-IsFresh r fresh = record {
  sized = record {
    uid_size = fresh.sized.uid_size;
    luid_size = fresh.sized.luid_size;
    blocks_size = refl;
    idm_size = fresh.sized.idm_size;
    pmm_size = fresh.sized.pmm_size;
  };
  type = fresh.type;
  luid = fresh.luid;
}

module _ {W : Type 0} (pn532 : Pn532Ops W) (laws : Pn532Laws pn532) where
  pub read_mifare_with_key-Reads :
      (target : TypeATarget) (auth_command auth_block : ℕ) (key : Bytes) (r : Reading W)
      → length r.card.blocks ≡ 32
      → Reads r (read_mifare_with_key pn532 target auth_command auth_block key r)
  unfolding read_mifare_with_key
  read_mifare_with_key-Reads target c b key r size =
      let w1 = exec (pn532.mifare_authenticate target.target c b key target.uid) r.world in
      let w2 = exec (pn532.mifare_read_block target.target 1) w1 in
      elim (Result-cases (pn532.mifare_authenticate target.target c b key target.uid r.world).0) [
        | inr (e, h) ↦ rw h (record { kept = refl; size = size; flag = inr refl; done = λ x. cc })
        | inl (_, h) ↦ rw h (elim (Result-cases (pn532.mifare_read_block target.target 1 w1).0) [
          | inr (e, h1) ↦
              rw h1 (record { kept = refl; size = size; flag = inr refl; done = λ x. cc })
          | inl (block_1, h1) ↦
              let full_1 = laws.block_size target.target 1 w1 block_1 h1 in
              let size_1 = length-copy_at r.card.blocks block_1 0 16 (omega arith) (omega arith) in
              rw h1 (elim (Result-cases (pn532.mifare_read_block target.target 2 w2).0) [
                | inr (e, h2) ↦
                    rw h2 (record {
                      kept = refl;
                      size = size_1 ∙ size;
                      flag = inr refl;
                      done = λ x. cc;
                    })
                | inl (block_2, h2) ↦
                    let full_2 = laws.block_size target.target 2 w2 block_2 h2 in
                    rw h2 (record {
                      kept = refl;
                      size =
                          length-copy_at (copy_at r.card.blocks 0 block_1 16) block_2 16 16
                            (omega arith) (omega arith)
                          ∙ size_1
                          ∙ size;
                      flag = inl refl;
                      done = λ x. refl;
                    })
              ])
        ])
      ]
