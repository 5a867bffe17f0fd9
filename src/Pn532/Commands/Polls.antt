-- ===== src/Pn532/Commands/Polls.antt =====
-- What the commands of pn532.c return when the chip answers them.
use pareader.Base.{
  ℕ, suc, ◌+◌, ◌/◌, ◌%◌, ◌≤◌, ◌<◌, ◌≡◌, refl, Bool, true, false, ◌||◌, arith, [], ◌∷◌, ◌++◌, Bytes,
  take, drop, copy_all, length, length-append, length-take, take-append, take_all, take_prefix,
  drop_prefix, bit_or_word, u8, ◌>>>◌, ltb, ok,
}
use pareader.Pn532.{TypeATarget, FelicaTarget, IsFelica}
use pareader.Pn532.Bus.{Bus}
use pareader.Pn532.Bus.Clock.{ClockLaws}
use pareader.Pn532.Commands.{
  type_a_response, felica_response, block_response, pn532_poll_type_a, pn532_poll_felica,
  pn532_mifare_authenticate, pn532_mifare_read_block,
}
use pareader.Pn532.Commands.Exchange.{Exchange, command-Exchange}

-- A Type A target as the chip lists it, with what may follow the UID.
abbrev pub type_a_content : ℕ → ℕ → ℕ → Bytes → Bytes → Bytes
type_a_content target atqa sak uid rest =
    1 ∷ target ∷ atqa / 256 ∷ atqa % 256 ∷ sak ∷ length uid ∷ (uid ++ rest)

-- A FeliCa target as the chip lists it: the response is eighteen bytes, and the system code
-- follows.
abbrev pub felica_content : ℕ → Bytes → Bytes → ℕ → Bytes
felica_content target idm pmm system_code =
    1 ∷ target ∷ 20 ∷ 1 ∷ (idm ++ (pmm ++ system_code / 256 ∷ system_code % 256 ∷ []))

-- The request of a FeliCa poll.
abbrev pub felica_poll : ℕ → Bytes
felica_poll code = 0x01 ∷ 0x01 ∷ 0x00 ∷ u8 (code >>> 8) ∷ u8 code ∷ 0x01 ∷ 0x00 ∷ []

type_a_response-content :
    (target atqa sak : ℕ) (uid rest : Bytes) (old : TypeATarget)
    → atqa < 65536
    → length uid ≤ 10
    → type_a_response old (type_a_content target atqa sak uid rest) ≡ record {
      status = ok tt;
      found = true;
      target = record {
        target = target;
        uid = uid ++ drop (length uid) old.uid;
        uid_size = length uid;
        sak = sak;
        atqa = atqa;
      };
    }
unfolding type_a_response
type_a_response-content target atqa sak uid rest old word short =
    let n = length uid in
    let size = suc (suc (suc (suc (suc (suc (length (uid ++ rest))))))) in
    let whole : (ltb size 6 || ltb 10 n || ltb size (6 + n)) ≡ false =
      ground (arith, length-append uid rest) in
    let any : ltb 0 size ≡ true = ground arith in
    rw (any, whole, bit_or_word atqa word, take-append uid rest) refl

felica_response-content :
    (target : ℕ) (idm pmm : Bytes) (system_code : ℕ) (old : FelicaTarget)
    → IsFelica old
    → length idm ≡ 8
    → length pmm ≡ 8
    → felica_response old (felica_content target idm pmm system_code) ≡ record {
      status = ok tt;
      found = true;
      target = record { target = target; idm = idm; pmm = pmm };
    }
unfolding felica_response
felica_response-content target idm pmm system_code old arrays eight_idm eight_pmm =
    let code : Bytes = system_code / 256 ∷ system_code % 256 ∷ [] in
    let n = length (idm ++ (pmm ++ code)) in
    let size : n ≡ 18 =
      omega
        (arith, eight_idm, eight_pmm, length-append idm (pmm ++ code), length-append pmm code) in
    let any : ltb 0 (suc (suc (suc (suc n)))) ≡ true = ground arith in
    let room : ltb (suc (suc (suc (suc n)))) 21 ≡ false = ground arith in
    rw
      (
        any,
        room,
        copy_all old.idm (idm ++ (pmm ++ code)) 8 arrays.idm_array,
        copy_all old.pmm (drop 8 (idm ++ (pmm ++ code))) 8 arrays.pmm_array,
        take_prefix idm (pmm ++ code) 8 eight_idm,
        drop_prefix idm (pmm ++ code) 8 eight_idm,
        take_prefix pmm code 8 eight_pmm,
      )
      refl

module _ {W : Type 0} (bus : Bus W) (clock : ClockLaws bus) where
  pub poll_type_a-finds :
      (target atqa sak : ℕ) (uid rest : Bytes) (old : TypeATarget) (found : Bool) (w w' : W)
      → atqa < 65536
      → length uid ≤ 10
      → length (uid ++ rest) ≤ 58
      → Exchange bus 0x4A (1 ∷ 0 ∷ []) (type_a_content target atqa sak uid rest) w w'
      → pn532_poll_type_a bus old found w ≡ (
        record {
          status = ok tt;
          found = true;
          target = record {
            target = target;
            uid = uid ++ drop (length uid) old.uid;
            uid_size = length uid;
            sak = sak;
            atqa = atqa;
          };
        },
        w',
      )
  unfolding pn532_poll_type_a
  poll_type_a-finds target atqa sak uid rest old found w w' word short fits x =
      rw
        (
          command-Exchange bus clock 0x4A (1 ∷ 0 ∷ []) (type_a_content target atqa sak uid rest) 64
              w w' (omega arith) (omega arith) x,
          type_a_response-content target atqa sak uid rest old word short,
        )
        refl

  pub poll_felica-finds :
      (code target : ℕ) (idm pmm : Bytes) (system_code : ℕ) (old : FelicaTarget) (found : Bool)
      (w w' : W)
      → IsFelica old
      → length idm ≡ 8
      → length pmm ≡ 8
      → Exchange bus 0x4A (felica_poll code) (felica_content target idm pmm system_code) w w'
      → pn532_poll_felica bus code old found w ≡ (
        record {
          status = ok tt;
          found = true;
          target = record { target = target; idm = idm; pmm = pmm };
        },
        w',
      )
  unfolding pn532_poll_felica
  poll_felica-finds code target idm pmm system_code old found w w' arrays eight_idm eight_pmm x =
      let rest : Bytes = system_code / 256 ∷ system_code % 256 ∷ [] in
      rw
        (
          command-Exchange bus clock 0x4A (felica_poll code)
              (felica_content target idm pmm system_code) 64 w w' (omega arith)
              (omega (
                arith,
                eight_idm,
                eight_pmm,
                length-append idm (pmm ++ rest),
                length-append pmm rest,
              ))
              x,
          felica_response-content target idm pmm system_code old arrays eight_idm eight_pmm,
        )
        refl

  -- No card of the kind that was asked for.
  pub poll_felica-none :
      (code : ℕ) (old : FelicaTarget) (found : Bool) (w w' : W)
      → Exchange bus 0x4A (felica_poll code) (0 ∷ []) w w'
      → pn532_poll_felica bus code old found w
        ≡ (record { status = ok tt; found = false; target = old }, w')
  unfolding pn532_poll_felica felica_response
  poll_felica-none code old found w w' x =
      rw
        (command-Exchange bus clock 0x4A (felica_poll code) (0 ∷ []) 64 w w' (omega arith)
          (omega arith) x)
        refl

  pub authenticate-accepted :
      (target auth_command block : ℕ) (key uid : Bytes) (w w' : W)
      → Exchange bus 0x40 (target ∷ auth_command ∷ block ∷ (take 6 key ++ take 4 uid)) (0 ∷ []) w w'
      → pn532_mifare_authenticate bus target auth_command block key uid w ≡ (ok tt, w')
  unfolding pn532_mifare_authenticate
  authenticate-accepted target auth_command block key uid w w' x =
      let request : Bytes = target ∷ auth_command ∷ block ∷ (take 6 key ++ take 4 uid) in
      let short : length request ≤ 252 =
        omega
          (arith, length-append (take 6 key) (take 4 uid), length-take 6 key, length-take 4 uid) in
      rw (command-Exchange bus clock 0x40 request (0 ∷ []) 8 w w' short (omega arith) x) refl

  pub read_block-returns :
      (target block : ℕ) (content : Bytes) (w w' : W)
      → length content ≡ 16
      → Exchange bus 0x40 (target ∷ 0x30 ∷ block ∷ []) (0 ∷ content) w w'
      → pn532_mifare_read_block bus target block w ≡ (ok content, w')
  unfolding pn532_mifare_read_block block_response
  read_block-returns target block content w w' sixteen x =
      let room : ltb (suc (length content)) 17 ≡ false = ground arith in
      rw
        (
          command-Exchange bus clock 0x40 (target ∷ 0x30 ∷ block ∷ []) (0 ∷ content) 20 w w'
              (omega arith) (omega arith) x,
          room,
          take_all content 16 sixteen,
        )
        refl
