-- ===== src/Tests/Script.antt =====
-- A bus on which the chip follows a script, and the witnesses for the exchanges with it.
use pareader.Base.{
  ℕ, ◌+◌, ◌*◌, ◌-◌, ◌≤◌, ◌≡◌, refl, arith, List, [], ◌∷◌, ◌++◌, Bytes, replicate, length, drop,
  Result, ok, err, timeout, u8,
}
use pareader.Card.{card_felica, zero_card}
use pareader.Pn532.Bus.{Bus}
use pareader.Pn532.Bus.Clock.{ClockLaws}
use pareader.Pn532.Frame.Normal.{normal_frame}
use pareader.Pn532.Commands.{command, pn532_ops}
use pareader.Pn532.Commands.Exchange.{Exchange, command-Exchange}
use pareader.Pn532.Commands.Polls.{felica_poll, felica_content, type_a_content}
use pareader.Reader.State.{Machine, reader_statics}
use pareader.Reader.ReadCard.{reader_read_card}
use pareader.Reader.Chip.Blocks.{tag_card}
use pareader.Reader.Chip.Tag.{TagSession, reader_read_card-tag}
use pareader.Reader.Chip.{reader_read_card-felica}

-- The transfers still to come, and the time.
pub record Script : Type 0 where
  pub transfers : List Bytes
  pub time : ℕ

abbrev first : List Bytes → Result Bytes
first [] = err timeout
first (bytes ∷ rest) = ok bytes

abbrev pub script : Bus Script
script = record {
  sda_gpio = 2;
  scl_gpio = 3;
  new_master_bus = λ config w. (ok tt, w);
  add_device = λ config w. (ok tt, w);
  probe = λ address timeout_ms w. (ok tt, w);
  transmit = λ bytes w. (ok tt, record w { time = w.time + 1 });
  receive =
      λ n w. (first w.transfers, record { transfers = drop 1 w.transfers; time = w.time + 1 });
  get_time = λ w. (w.time, w);
  delay_ms = λ ms w. record w { time = w.time + ms * 1000 };
}

pub script-ClockLaws : ClockLaws script
script-ClockLaws = record {
  reading = λ w. omega arith;
  receiving = λ n w. omega arith;
  waiting = λ ms w. omega arith;
}

-- The answer to a command, filled up with zeros.
abbrev answer_frame : ℕ → Bytes → Bytes
answer_frame code content =
    normal_frame 0xD5 (u8 (code + 1)) content ++ replicate (271 - length content) 0

-- Ready, acknowledged, ready, answered; then the rest of the script.
abbrev then_transfers : ℕ → Bytes → List Bytes → List Bytes
then_transfers code content rest =
    (1 ∷ [])
    ∷ (1 ∷ 0x00 ∷ 0x00 ∷ 0xFF ∷ 0x00 ∷ 0xFF ∷ 0x00 ∷ [])
    ∷ (1 ∷ [])
    ∷ (1 ∷ answer_frame code content)
    ∷ rest

exchange :
    (code : ℕ) (request content : Bytes) (rest : List Bytes) (t : ℕ)
    → length content ≤ 252
    → length (answer_frame code content) ≡ 280
    → Exchange script code request content
        (record { transfers = then_transfers code content rest; time = t })
        (record { transfers = rest; time = t + 1 + 1 + 1 + 1 + 1 })
exchange code request content rest t short size = record {
  written = refl;
  first_polls = 0;
  acknowledging = _;
  ready_to_acknowledge = (omega arith, refl, refl);
  acknowledges = record { status = 1; is_ready = refl; returned = refl };
  second_polls = 0;
  answering = _;
  ready_to_answer = (omega arith, refl, refl);
  frame = answer_frame code content;
  frame_size = size;
  answers = record { status = 1; is_ready = refl; returned = refl };
  answer = record { rest = replicate (271 - length content) 0; starts = refl; short = short };
  after = refl;
}

-- The FeliCa poll of the start, answered with a card.
abbrev idm : Bytes
idm = 0x01 ∷ 0x2E ∷ 0x4C ∷ 0x11 ∷ 0x22 ∷ 0x33 ∷ 0x44 ∷ 0x55 ∷ []

abbrev pmm : Bytes
pmm = 0x00 ∷ 0xF1 ∷ 0x00 ∷ 0x00 ∷ 0x00 ∷ 0x01 ∷ 0x43 ∷ 0x00 ∷ []

abbrev felica_start : Script
felica_start = record {
  transfers = then_transfers 0x4A (felica_content 1 idm pmm 0x88B4) [];
  time = 0;
}

abbrev felica_end : Script
felica_end = record { transfers = []; time = 5 }

felica_exchange :
    Exchange script 0x4A (felica_poll 3) (felica_content 1 idm pmm 0x88B4) felica_start felica_end
felica_exchange =
    exchange 0x4A (felica_poll 3) (felica_content 1 idm pmm 0x88B4) [] 0 (omega arith) refl

command-Exchange_example :
    command script 0x4A (felica_poll 3) 64 felica_start
    ≡ (ok (felica_content 1 idm pmm 0x88B4), felica_end)
command-Exchange_example =
    command-Exchange script script-ClockLaws 0x4A (felica_poll 3) (felica_content 1 idm pmm 0x88B4)
      64 felica_start felica_end (omega arith) (omega arith) felica_exchange

abbrev pub machine_at : Script → Machine Script
machine_at w = record { reader = reader_statics; world = w }

reader_read_card-felica_example : reader_read_card (pn532_ops script) (machine_at felica_start) ≡ (
  ok (record zero_card { type = card_felica; idm = idm; pmm = pmm }),
  record {
    reader = record reader_statics { active_felica = record { target = 1; idm = idm; pmm = pmm } };
    world = felica_end;
  },
)
reader_read_card-felica_example =
    reader_read_card-felica script script-ClockLaws (machine_at felica_start) felica_end 1 idm pmm
      0x88B4 refl (record { idm_array = refl; pmm_array = refl }) refl refl felica_exchange

-- A tag in the field, with its blocks.
abbrev pub uid : Bytes
uid = 1 ∷ 2 ∷ 3 ∷ 4 ∷ []

abbrev pub block_1 : Bytes
block_1 = replicate 16 0x11

abbrev pub block_2 : Bytes
block_2 = replicate 16 0x22

abbrev blank_key : Bytes
blank_key = replicate 6 0

abbrev after_authentication : List Bytes
after_authentication = then_transfers 0x40 (0 ∷ block_1) (then_transfers 0x40 (0 ∷ block_2) [])

abbrev after_poll : List Bytes
after_poll =
    then_transfers 0x4A (type_a_content 1 4 8 uid [])
      (then_transfers 0x40 (0 ∷ []) after_authentication)

abbrev pub tag_start : Script
tag_start = record { transfers = then_transfers 0x4A (0 ∷ []) after_poll; time = 0 }

abbrev pub tag_end : Script
tag_end = record { transfers = []; time = 25 }

pub tag_session : TagSession script 3 1 4 8 uid blank_key block_1 block_2 tag_start tag_end
tag_session = record {
  rest = [];
  short = omega arith;
  no_felica = _;
  listed = _;
  authenticated = _;
  between = _;
  felica_poll = exchange 0x4A (felica_poll 3) (0 ∷ []) after_poll 0 (omega arith) refl;
  type_a_poll =
      exchange 0x4A (1 ∷ 0 ∷ []) (type_a_content 1 4 8 uid [])
        (then_transfers 0x40 (0 ∷ []) after_authentication) 5 (omega arith) refl;
  authentication =
      exchange 0x40 (1 ∷ 0x61 ∷ 2 ∷ (blank_key ++ uid)) (0 ∷ []) after_authentication 10
        (omega arith) refl;
  first_block =
      exchange 0x40 (1 ∷ 0x30 ∷ 1 ∷ []) (0 ∷ block_1) (then_transfers 0x40 (0 ∷ block_2) []) 15
        (omega arith) refl;
  second_block = exchange 0x40 (1 ∷ 0x30 ∷ 2 ∷ []) (0 ∷ block_2) [] 20 (omega arith) refl;
}

reader_read_card-tag_example : reader_read_card (pn532_ops script) (machine_at tag_start) ≡ (
  ok (tag_card uid block_1 block_2),
  record {
    reader = record reader_statics {
      active_mifare = record {
        target = 1;
        uid = uid ++ replicate 6 0;
        uid_size = 4;
        sak = 8;
        atqa = 4;
      };
      felica_system_code = 0xFFFF;
    };
    world = tag_end;
  },
)
reader_read_card-tag_example =
    reader_read_card-tag script script-ClockLaws (machine_at tag_start) tag_end 1 4 8 uid block_1
      block_2 refl (omega arith) refl refl refl tag_session
