-- ===== src/App.antt =====
-- impl/firmware/main/app_main.c: the start and the main loop.
pub mod Scan
pub mod World
pub mod Schedule
pub mod Events
pub mod Log
pub mod History
pub mod Invariant
pub mod Cdc
pub mod Tap
pub mod Start
use pareader.Base.{
  ℕ, zero, suc, ◌+◌, Bool, true, false, ◌&&◌, List, Bytes, equal, take, ltb, ◌==◌, if◌then◌else◌,
  Option, none, some, Result, ok, err, Act, ◌>>=◌, ◌>>◌, exec,
}
use pareader.Card.{Card, is_type, zero_card}
use pareader.Usb.{UsbDevice}
use pareader.Usb.Descriptors.{TusbMacros}
use pareader.Usb.Init.{UsbDriver, usb_device_init}
use pareader.Usb.Messages.{MessageType, hid, cdc, UsbMessage, Queue, usb_device_receive}
use pareader.Pn532.{Pn532Ops}
use pareader.Reader.State.{Reader, Machine, reader_init, reader_statics, on_world}
use pareader.Reader.ReadCard.{reader_read_card}
use pareader.Reader.Operations.{reader_ops}
use pareader.Sega.Parser.{Parser, sega_init, sega_receive}
use pareader.Prhp.{prhp_report_size, prhp_dispatch, prhp_publish_card_state}
use pareader.Cardio.{cardio_publish_card_state}

abbrev pub card_scan_interval_us : ℕ
card_scan_interval_us = 200000

-- The locals of `app_main`, and the statics of the modules.
pub record App (W : Type 0) : Type 0 where
  pub current : Card
  pub next_scan : ℕ
  pub parser : Parser
  pub machine : Machine W

abbrev bool_eq : Bool → Bool → Bool
bool_eq true b = b
bool_eq false true = false
bool_eq false false = true

-- `memcmp(&current, &observed, sizeof(current)) == 0`, field by field: the padding of the struct
-- is not modelled.
unfoldable pub same_card : Card → Card → Bool
same_card a b =
    is_type a.type b.type
    && equal a.mifare_uid b.mifare_uid
    && equal a.luid b.luid
    && equal a.blocks b.blocks
    && equal a.idm b.idm
    && equal a.pmm b.pmm
    && bool_eq a.has_blocks b.has_blocks

-- The send functions, in the state of the whole firmware.
abbrev pub machine_usb : {W : Type 0} → UsbDevice W → UsbDevice (Machine W)
machine_usb usb = record {
  send_prhp = λ report. on_world (usb.send_prhp report);
  send_cardio = λ report_id card_id. on_world (usb.send_cardio report_id card_id);
  send_cdc = λ bytes. on_world (usb.send_cdc bytes);
}

-- After `usb_device_init`, with the state that the loop starts from.
abbrev pub started : {W : Type 0} → Parser → Reader → Result (Unit {0}) × W → Result (App W) × W
started parser reader (ok _, world) = (
  ok (record {
    current = zero_card;
    next_scan = 0;
    parser = sega_init parser;
    machine = record { reader = reader; world = world };
  }),
  world,
)
started parser reader (err e, world) = (err e, world)

-- After `reader_init`; an error in it aborts, as one in `usb_device_init` does.
abbrev pub reader_started :
    {W : Type 0} → Act W (Unit {0}) → Parser → Result (Unit {0}) × Machine W → Result (App W) × W
reader_started usb_init parser (ok _, machine) =
    started parser machine.reader (usb_init machine.world)
reader_started usb_init parser (err e, machine) = (err e, machine.world)

-- Up to the loop.
unfoldable pub app_start :
    {W : Type 0} → Pn532Ops W → TusbMacros → UsbDriver W → Queue W → Parser → Act W (App W)
app_start pn532 tusb driver queue parser w =
    reader_started (usb_device_init tusb driver queue) parser
      (reader_init pn532 (record { reader = reader_statics; world = w }))

-- Both publications of a changed card.
abbrev pub publish : {W : Type 0} → UsbDevice W → Card → Machine W → Machine W
publish usb card m =
    cardio_publish_card_state (machine_usb usb) card
      (prhp_publish_card_state (machine_usb usb) card m)

-- The time that a call of `esp_timer_get_time` returns, and the state after it.
abbrev pub now : {W : Type 0} → (W → ℕ × W) → App W → ℕ
now get_time a = (get_time a.machine.world).0

abbrev pub clocked : {W : Type 0} → (W → ℕ × W) → App W → App W
clocked get_time a = record a {
  machine = record (a.machine) { world = (get_time a.machine.world).1 };
}

module _ {W : Type 0} (pn532 : Pn532Ops W) (usb : UsbDevice W) where
  unfoldable pub handle : MessageType → UsbMessage → App W → App W
  handle hid message a =
      if message.size == prhp_report_size
      then record a { machine = prhp_dispatch (machine_usb usb) message.content a.machine }
      else a
  handle cdc message a =
      let (parser, machine) =
        sega_receive (machine_usb usb) (reader_ops pn532) a.parser
          (take message.size message.content) a.machine in
      record a { parser = parser; machine = machine }

  abbrev pub handle_received : Option UsbMessage → App W → App W
  handle_received none a = a
  handle_received (some message) a = handle message.type message a

  unfoldable pub observe : Result Card × Machine W → App W → App W
  observe (err e, machine) a = record a { machine = machine }
  observe (ok observed, machine) a =
      if same_card a.current observed
      then record a { machine = machine }
      else record a { current = observed; machine = publish usb observed machine }

  unfoldable pub scan_card : App W → App W
  unfolding observe
  scan_card a = observe (reader_read_card pn532 a.machine) a

  module _ (queue : Queue W) where
    unfoldable pub receive_message : App W → App W
    unfolding handle
    receive_message a =
        let (message, world) = usb_device_receive queue 50 a.machine.world in
        handle_received message (record a { machine = record (a.machine) { world = world } })

    module _ (get_time : W → ℕ × W) where
      -- One round of the loop; the time is read after the message is handled.
      unfoldable pub round : App W → App W
      round a =
          let received = receive_message a in
          if ltb (now get_time received) received.next_scan
          then clocked get_time received
          else scan_card (record (clocked get_time received) {
            next_scan = now get_time received + card_scan_interval_us;
          })

      unfoldable pub run : ℕ → App W → App W
      run zero a = a
      run (suc n) a = run n (round a)
