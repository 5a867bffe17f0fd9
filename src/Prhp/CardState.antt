-- ===== src/Prhp/CardState.antt =====
-- The card-state signal, read by a Host, gives the card back.
use pareader.Base.{
  ◌≡◌, refl, sym, ◌∙◌, ap, Bool, true, false, some, [], ◌∷◌, ◌++◌, arith, Bytes, take, drop, length,
  length-append, length-drop, replicate, copy_at, copy_at_lem, take_prefix, drop_prefix,
  take_within, drop_within, drop-drop, exec,
}
use mathlib.Core.Path.{subst}
use pareader.Usb.{UsbDevice}
use pareader.Card.{Card, CardType, card_none, card_mifare, card_felica, IsSized}
use pareader.Prhp.Spec.{CardState, none_state, mifare_state, felica_state, decode_card_state}
use pareader.Prhp.{card_state_signal, prhp_publish_card_state}

-- What the signal is to tell of a card. A MIFARE tag whose blocks were not read is no PRHP card.
abbrev pub view_of : CardType → Bool → Card → CardState
view_of card_none has_blocks c = none_state
view_of card_mifare true c = mifare_state c.luid (take 16 c.blocks) (drop 16 c.blocks)
view_of card_mifare false c = none_state
view_of card_felica has_blocks c = felica_state c.idm

abbrev pub view : Card → CardState
view c = view_of c.type c.has_blocks c

-- A Host reads `state` from the report, which has 64 bytes.
abbrev pub Tells : Bytes → CardState → Type 0
Tells report state = (length report ≡ 64) × (decode_card_state report ≡ some state)

mifare_report : Bytes → Bytes → Bytes
mifare_report luid blocks = 3 ∷ 2 ∷ 0 ∷ 0 ∷ 0 ∷ 1 ∷ (luid ++ (blocks ++ replicate 16 0))

mifare_report-Tells :
    (luid blocks : Bytes)
    → length luid ≡ 10
    → length blocks ≡ 32
    → Tells (mifare_report luid blocks) (mifare_state luid (take 16 blocks) (drop 16 blocks))
unfolding mifare_report decode_card_state
mifare_report-Tells luid blocks hl hb =
    let rest = blocks ++ replicate 16 0 in
    (
      omega (arith, length-append luid rest, length-append blocks (replicate 16 0)),
      rw
          (
            ← drop-drop 16 10 (luid ++ rest),
            take_prefix luid rest 10 hl,
            drop_prefix luid rest 10 hl,
            take_within 16 blocks (replicate 16 0) (omega arith),
            drop_within 16 blocks (replicate 16 0) (omega arith),
            take_prefix (drop 16 blocks) (replicate 16 0) 16 (omega (arith, length-drop 16 blocks)),
          )
          refl,
    )

copied_mifare :
    (luid blocks : Bytes)
    → length luid ≡ 10
    → length blocks ≡ 32
    → copy_at (copy_at (3 ∷ 2 ∷ 0 ∷ 0 ∷ 0 ∷ 1 ∷ replicate 58 0) 6 luid 10) 16 blocks 32
      ≡ mifare_report luid blocks
unfolding mifare_report
copied_mifare luid blocks hl hb =
    ap (λ (t : Bytes). copy_at t 16 blocks 32)
      (copy_at_lem (3 ∷ 2 ∷ 0 ∷ 0 ∷ 0 ∷ 1 ∷ []) (replicate 58 0) luid 6 10 refl hl)
    ∙ copy_at_lem (3 ∷ 2 ∷ 0 ∷ 0 ∷ 0 ∷ 1 ∷ luid) (replicate 48 0) blocks 16 32 (omega arith) hb

felica_report-Tells :
    (idm : Bytes)
    → length idm ≡ 8
    → Tells (3 ∷ 2 ∷ 0 ∷ 0 ∷ 0 ∷ 2 ∷ (idm ++ replicate 50 0)) (felica_state idm)
unfolding decode_card_state
felica_report-Tells idm h = (
  omega (arith, length-append idm (replicate 50 0)),
  rw (take_prefix idm (replicate 50 0) 8 h) refl,
)

felica-Tells :
    (idm : Bytes)
    → length idm ≡ 8
    → Tells (copy_at (3 ∷ 2 ∷ 0 ∷ 0 ∷ 0 ∷ 2 ∷ replicate 58 0) 6 idm 8) (felica_state idm)
felica-Tells idm h =
    subst (λ t. Tells t (felica_state idm))
      (sym (copy_at_lem (3 ∷ 2 ∷ 0 ∷ 0 ∷ 0 ∷ 2 ∷ []) (replicate 58 0) idm 6 8 refl h))
      (felica_report-Tells idm h)

card_state_signal-Tells :
    (type : CardType) (has_blocks : Bool) (uid luid blocks idm pmm : Bytes)
    → length luid ≡ 10
    → length blocks ≡ 32
    → length idm ≡ 8
    → let c : Card = record {
      type = type;
      mifare_uid = uid;
      luid = luid;
      blocks = blocks;
      idm = idm;
      pmm = pmm;
      has_blocks = has_blocks;
    } in
      Tells (card_state_signal c) (view_of type has_blocks c)
unfolding card_state_signal decode_card_state
card_state_signal-Tells card_none has_blocks uid luid blocks idm pmm hl hb hi = (refl, refl)
card_state_signal-Tells card_mifare true uid luid blocks idm pmm hl hb hi =
    subst (λ t. Tells t (mifare_state luid (take 16 blocks) (drop 16 blocks)))
      (sym (copied_mifare luid blocks hl hb)) (mifare_report-Tells luid blocks hl hb)
card_state_signal-Tells card_mifare false uid luid blocks idm pmm hl hb hi = (refl, refl)
card_state_signal-Tells card_felica has_blocks uid luid blocks idm pmm hl hb hi =
    felica-Tells idm hi

module _ {S : Type 0} (usb : UsbDevice S) where
  -- Publishing a card sends one report of 64 bytes, and a Host that decodes it as the
  -- specification says has the LUID and both blocks of a MIFARE card, the IDm of a FeliCa card,
  -- and no card for a MIFARE tag whose blocks were not read or where there is none.
  pub prhp_publish_card_state-Tells :
      (card : Card) (s : S)
      → IsSized card
      → (report : Bytes) × (prhp_publish_card_state usb card s ≡ exec (usb.send_prhp report) s)
        × Tells report (view card)
  unfolding prhp_publish_card_state
  prhp_publish_card_state-Tells c s sized = (
    card_state_signal c,
    refl,
    card_state_signal-Tells c.type c.has_blocks c.mifare_uid c.luid c.blocks c.idm c.pmm
        sized.luid_size sized.blocks_size sized.idm_size,
  )
