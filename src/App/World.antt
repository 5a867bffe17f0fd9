-- ===== src/App/World.antt =====
-- What every call of a driver keeps of the world, the main loop keeps: only the calls of the queue
-- and of the clock are left to the caller.
use pareader.Base.{
  ℕ, refl, sym, ◌⊎◌, inl, inr, byte_at, drop, set, ◌≡◌, Bool, true, false, Bytes, take,
  if◌then◌else◌, Option, none, some, Result, ok, err, exec, arith,
}
use mathlib.Core.Path.{subst}
use pareader.Card.{Card}
use pareader.Usb.{UsbDevice}
use pareader.Usb.Messages.{MessageType, hid, cdc, UsbMessage}
use pareader.Pn532.{Pn532Ops, Pn532Laws}
use pareader.Reader.State.{Machine}
use pareader.Reader.ReadCard.{reader_read_card}
use pareader.Reader.Operations.{reader_ops}
use pareader.Reader.Operations.Laws.{reader_ops-ReaderLaws}
use pareader.Reader.World.{
  Pn532Keeps, reader_read_card-keeps, mifare_select-keeps, set_key-keeps, authenticate-keeps,
  read_block-keeps, felica_transact-keeps, radio_set-keeps,
}
use pareader.Sega.Dispatch.Replies.{
  ReaderCall, read_card, mifare_select, mifare_set_key, mifare_authenticate, mifare_read_block,
  felica_transact, radio_set, call,
}
use pareader.Sega.Parser.Preserve.{sega_receive-keeps}
use pareader.Prhp.{read_le16, begin_response, prhp_dispatch, prhp_publish_card_state, send_error}
use pareader.Cardio.{cardio_publish_card_state}
use pareader.App.{App, machine_usb, publish, handle, handle_received, observe, scan_card}

-- Every send keeps `P`.
pub record UsbKeeps {W : Type 0} (usb : UsbDevice W) (P : W → Type 0) : Type 0 where
  pub prhp : (report : Bytes) (w : W) → P w → P (usb.send_prhp report w).1
  pub cardio :
      (report_id : ℕ) (card_id : Bytes) (w : W) → P w → P (usb.send_cardio report_id card_id w).1
  pub cdc : (bytes : Bytes) (w : W) → P w → P (usb.send_cdc bytes w).1

-- Every report of a PRHP response, and every send on CDC, keeps `P`.
pub record AnswersKeep {W : Type 0} (usb : UsbDevice W) (P : W → Type 0) : Type 0 where
  pub prhp : (report : Bytes) (w : W) → byte_at report 0 ≡ 2 → P w → P (usb.send_prhp report w).1
  pub cdc : (bytes : Bytes) (w : W) → P w → P (usb.send_cdc bytes w).1

pub answers_of :
    {W : Type 0} (usb : UsbDevice W) (P : W → Type 0) → UsbKeeps usb P → AnswersKeep usb P
answers_of usb P sends = record { prhp = λ report w e. sends.prhp report w; cdc = sends.cdc }

either_keeps :
    {S : Type 0} (Q : S → Type 0) (b : Bool) {x y : S} → Q x → Q y → Q (if b then x else y)
either_keeps Q true hx hy = hx
either_keeps Q false hx hy = hy

-- At most one report is sent, and it is one of three.
prhp_dispatch-cases :
    {S : Type 0} (usb : UsbDevice S) (request : Bytes) (s : S)
    → let opcode = byte_at request 1 in
      let sequence = read_le16 (drop 2 request) in
      let version = set (set (begin_response opcode 0x00 sequence) 5 0) 6 1 in
      (prhp_dispatch usb request s ≡ s)
      ⊎ (prhp_dispatch usb request s ≡ exec (usb.send_prhp (begin_response opcode 0x02 sequence)) s)
      ⊎ (prhp_dispatch usb request s ≡ exec (usb.send_prhp version) s)
      ⊎ (prhp_dispatch usb request s ≡ exec (usb.send_prhp (begin_response opcode 0x01 sequence)) s)
unfolding prhp_dispatch send_error
prhp_dispatch-cases usb request s = ground arith

module _ {W : Type 0} (pn532 : Pn532Ops W) (usb : UsbDevice W) (laws : Pn532Laws pn532)
    (P : W → Type 0) (driver : Pn532Keeps pn532 P) (answers : AnswersKeep usb P) where
  abbrev Holds : Machine W → Type 0
  Holds s = P s.world

  prhp_dispatch-keeps :
      (request : Bytes) (s : Machine W)
      → P s.world
      → P (prhp_dispatch (machine_usb usb) request s).world
  unfolding begin_response
  prhp_dispatch-keeps request s h = elim (prhp_dispatch-cases (machine_usb usb) request s) [
    | inl e ↦ subst Holds (sym e) h
    | inr (inl e) ↦ subst Holds (sym e) (answers.prhp _ s.world refl h)
    | inr (inr (inl e)) ↦ subst Holds (sym e) (answers.prhp _ s.world refl h)
    | inr (inr (inr e)) ↦ subst Holds (sym e) (answers.prhp _ s.world refl h)
  ]

  call-keeps :
      (c : ReaderCall) (s : Machine W)
      → P s.world
      → P (call (machine_usb usb) (reader_ops pn532) c s).world
  call-keeps read_card s h = reader_read_card-keeps pn532 P driver s h
  call-keeps (mifare_select uid) s h = mifare_select-keeps pn532 P driver uid s h
  call-keeps (mifare_set_key t key) s h = set_key-keeps pn532 P driver t key s h
  call-keeps (mifare_authenticate t payload n) s h =
      authenticate-keeps pn532 P driver t payload n s h
  call-keeps (mifare_read_block uid number) s h = read_block-keeps pn532 P driver uid number s h
  call-keeps (felica_transact request n capacity) s h =
      felica_transact-keeps pn532 P driver request n capacity s h
  call-keeps (radio_set on) s h = radio_set-keeps pn532 P driver on s h

  handle-keeps :
      (t : MessageType) (m : UsbMessage) (a : App W)
      → P a.machine.world
      → P (handle pn532 usb t m a).machine.world
  unfolding handle
  handle-keeps hid m a h =
      either_keeps (λ (b : App W). P b.machine.world) _ (prhp_dispatch-keeps m.content a.machine h)
        h
  handle-keeps cdc m a h =
      sega_receive-keeps (machine_usb usb) (reader_ops pn532) (reader_ops-ReaderLaws pn532 laws)
        Holds (λ bytes s k. answers.cdc bytes s.world k) call-keeps a.parser (take m.size m.content)
        a.machine h

  -- Handling what was received keeps what the drivers and the answers keep.
  pub handle_received-world :
      (o : Option UsbMessage) (a : App W)
      → P a.machine.world
      → P (handle_received pn532 usb o a).machine.world
  handle_received-world none a h = h
  handle_received-world (some m) a h = handle-keeps m.type m a h

module _ {W : Type 0} (pn532 : Pn532Ops W) (usb : UsbDevice W) (P : W → Type 0)
    (driver : Pn532Keeps pn532 P) (sends : UsbKeeps usb P) where
  publish-keeps : (card : Card) (s : Machine W) → P s.world → P (publish usb card s).world
  unfolding prhp_publish_card_state cardio_publish_card_state
  publish-keeps card s h = sends.cardio _ _ _ (sends.prhp _ s.world h)

  observe-keeps :
      (x : Result Card × Machine W) (a : App W)
      → P x.1.world
      → P (observe pn532 usb x a).machine.world
  unfolding observe
  observe-keeps (err e, m) a h = h
  observe-keeps (ok card, m) a h =
      either_keeps (λ (b : App W). P b.machine.world) _ h (publish-keeps card m h)

  -- A scan keeps what the drivers keep.
  pub scan_card-world : (a : App W) → P a.machine.world → P (scan_card pn532 usb a).machine.world
  unfolding scan_card
  scan_card-world a h =
      observe-keeps (reader_read_card pn532 a.machine) a
        (reader_read_card-keeps pn532 P driver a.machine h)
