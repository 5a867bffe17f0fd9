-- ===== src/Tests/Setup.antt =====
-- A firmware that records what it sends, with a MIFARE tag or a FeliCa card in the field.
use pareader.Base.{
  ℕ, ◌+◌, ◌*◌, ◌≡◌, ◌==◌, ◌++◌, byte_at, if◌then◌else◌, refl, inl, inr, true, false, List, [], ◌∷◌,
  Bytes, length-replicate, replicate, arith, Option, none, some, IsBytes, ltb, ok,
}
use mathlib.Core.Path.{subst}
use pareader.Card.{Card, card_mifare, zero_card, IsSized}
use pareader.Usb.{UsbDevice}
use pareader.Usb.Device.{TinyUsb}
use pareader.Usb.Messages.{cdc, UsbMessage, Queue}
use pareader.Pn532.{TypeATarget, Pn532Ops, Pn532Laws}
use pareader.Pn532.Bus.{Bus}
use pareader.Pn532.Bus.Clock.{ClockLaws}
use pareader.Reader.{ReaderOps, ReaderLaws}
use pareader.Reader.State.{Reader, Machine, reader_statics, IsReader}
use pareader.Reader.Operations.{reader_ops}
use pareader.Reader.Operations.Laws.{reader_ops-ReaderLaws}
use pareader.Sega.Parser.{Parser}
use pareader.App.{App}
use pareader.App.Log.{Sent, prhp, cardio}
use pareader.Reader.World.{Pn532Keeps}
use pareader.App.Invariant.{IsApp, QueueLaws}
use pareader.Reader.ReadCard.Valid.{zero_card-IsValid}
use pareader.Sega.Parser.Invariant.{IsWellFormed}

-- What was sent on each interface, the last first, the signals and CardIO reports in the order of
-- the sends, and the time.
pub record World : Type 0 where
  pub prhp : List Bytes
  pub cardio : List (ℕ × Bytes)
  pub cdc_sent : List Bytes
  pub sent : List Sent
  pub time : ℕ

abbrev pub start : World
start = record { prhp = []; cardio = []; cdc_sent = []; sent = []; time = 0 }

-- A PRHP report goes to the log if it is a signal.
abbrev with_signal : ℕ → Bytes → List Sent → List Sent
with_signal type report sent = if type == 3 then sent ++ prhp report ∷ [] else sent

abbrev pub recorder : UsbDevice World
recorder = record {
  send_prhp = λ report w. (
    ok tt,
    record w { prhp = report ∷ w.prhp; sent = with_signal (byte_at report 0) report w.sent },
  );
  send_cardio = λ report_id card_id w. (
    ok tt,
    record w {
      cardio = (report_id, card_id) ∷ w.cardio;
      sent = w.sent ++ cardio report_id card_id ∷ [];
    },
  );
  send_cdc = λ bytes w. (ok tt, record w { cdc_sent = bytes ∷ w.cdc_sent });
}

abbrev pub tag : TypeATarget
tag = record {
  target = 1;
  uid = 1 ∷ 2 ∷ 3 ∷ 4 ∷ 0 ∷ 0 ∷ 0 ∷ 0 ∷ 0 ∷ 0 ∷ [];
  uid_size = 4;
  sak = 8;
  atqa = 4;
}

-- A MIFARE tag whose blocks hold 0x11, and no FeliCa card but one that answers with 250 bytes.
abbrev pub field_in : {W : Type 0} → Pn532Ops W
field_in = record {
  init = λ w. (ok tt, w);
  set_radio = λ on w. (ok tt, w);
  poll_type_a = λ target found w. (record { status = ok tt; found = true; target = tag }, w);
  poll_felica =
      λ code target found w. (record { status = ok tt; found = false; target = target }, w);
  mifare_authenticate = λ target auth_command block key uid w. (ok tt, w);
  mifare_read_block = λ target block w. (ok (replicate 16 0x11), w);
  felica_transact = λ target request n capacity w. (ok (replicate capacity 0), w);
}

abbrev pub field : Pn532Ops World
field = field_in

abbrev pub sent_log : World → List Sent
sent_log w = w.sent

pub field-LogKeeps : (l : List Sent) → Pn532Keeps field (λ w. sent_log w ≡ l)
field-LogKeeps l = record {
  set_radio = λ on w h. h;
  poll_type_a = λ target found w h. h;
  poll_felica = λ code target found w h. h;
  authenticate = λ target auth_command block key uid w h. h;
  read_block = λ target block w h. h;
  transact = λ target request n capacity w h. h;
}

pub field_in-Pn532Laws : {W : Type 0} → Pn532Laws (field_in {W = W})
field_in-Pn532Laws = record {
  type_a_sizes = λ t found w h. record { uid_array = refl };
  felica_sizes = λ code t found w h. h;
  block_size = λ target number w block h. ground arith;
  response_size =
      λ target request n capacity w response h. ground (arith, length-replicate {A = ℕ} capacity 0);
}

pub field-Pn532Laws : Pn532Laws field
field-Pn532Laws = field_in-Pn532Laws

abbrev pub with_tag : Reader
with_tag = record reader_statics { active_mifare = tag }

pub with_tag-IsReader : IsReader with_tag
with_tag-IsReader = record {
  keys = refl;
  key_type = omega arith;
  mifare = record { uid_array = refl };
  felica = record { idm_array = refl; pmm_array = refl };
  system_code = inl refl;
}

abbrev pub machine : Machine World
machine = record { reader = with_tag; world = start }

abbrev pub field_reader : ReaderOps (Machine World)
field_reader = reader_ops field

pub field_reader-ReaderLaws : ReaderLaws field_reader
field_reader-ReaderLaws = reader_ops-ReaderLaws field field-Pn532Laws

abbrev pub idle_parser : Parser
idle_parser = record { synchronized = false; escaped = false; bytes = replicate 257 0; size = 0 }

abbrev pub app : App World
app = record { current = zero_card; next_scan = 0; parser = idle_parser; machine = machine }

pub idle_parser-IsWellFormed : IsWellFormed idle_parser
idle_parser-IsWellFormed = record {
  array = refl;
  head_byte = inl refl;
  pending = inl refl;
  quiet = inr (refl, refl);
}

pub app-IsApp : IsApp app
app-IsApp = record {
  reader = with_tag-IsReader;
  current = zero_card-IsValid;
  parser = idle_parser-IsWellFormed;
}

-- A poll request of the SEGA protocol.
abbrev pub poll_request : Bytes
poll_request = 5 ∷ 0 ∷ 7 ∷ 0x42 ∷ 0 ∷ []

-- A host that sends the frame of that request over and over.
abbrev pub polling_queue : Queue World
polling_queue = record {
  send = λ message w. (true, w);
  receive = λ timeout_ms w. (
    some (record { type = cdc; size = 7; content = 0xE0 ∷ 5 ∷ 0 ∷ 7 ∷ 0x42 ∷ 0 ∷ 0x4E ∷ [] }),
    record w { time = w.time + 1 },
  );
  cdc_read = λ interface_id size w. (ok [], w);
}

abbrev pub get_time : World → ℕ × World
get_time w = (w.time, w)

abbrev AreOctets : Option UsbMessage → Type 0
AreOctets none = Unit {0}
AreOctets (some message) = IsBytes message.content

poll_message-AreOctets : AreOctets (polling_queue.receive 0 start).0
poll_message-AreOctets = ground arith

pub polling_queue-QueueLaws : QueueLaws polling_queue
polling_queue-QueueLaws = record {
  octets = λ timeout_ms w message h. subst AreOctets h poll_message-AreOctets;
}

-- A bus on which each transfer takes a microsecond and the chip is never ready.
abbrev pub busy_bus : Bus World
busy_bus = record {
  sda_gpio = 2;
  scl_gpio = 3;
  new_master_bus = λ config w. (ok tt, w);
  add_device = λ config w. (ok tt, w);
  probe = λ address timeout_ms w. (ok tt, w);
  transmit = λ bytes w. (ok tt, record w { time = w.time + 1 });
  receive = λ n w. (ok (replicate n 0), record w { time = w.time + 1 });
  get_time = get_time;
  delay_ms = λ ms w. record w { time = w.time + ms * 1000 };
}

pub busy_bus-ClockLaws : ClockLaws busy_bus
busy_bus-ClockLaws = record {
  reading = λ w. omega arith;
  receiving = λ n w. omega arith;
  waiting = λ ms w. omega arith;
}

-- An endpoint that is ready from the third millisecond on.
abbrev pub endpoint : TinyUsb World
endpoint = record {
  mounted = λ w. (true, w);
  hid_ready = λ instance_id w. (ltb 2 w.time, w);
  hid_report = λ instance_id report_id report size w. (true, record w { prhp = report ∷ w.prhp });
  delay_ms = λ ms w. record w { time = w.time + ms };
  cdc_write_queue = λ bytes w. (ok tt, record w { cdc_sent = bytes ∷ w.cdc_sent });
  cdc_write_flush = λ w. (ok tt, w);
}

abbrev pub mifare : Card
mifare = record zero_card { type = card_mifare; mifare_uid = 1 ∷ 2 ∷ 3 ∷ 4 ∷ []; has_blocks = true }

pub mifare-IsSized : IsSized mifare
mifare-IsSized = record {
  uid_size = refl;
  luid_size = refl;
  blocks_size = refl;
  idm_size = refl;
  pmm_size = refl;
}
