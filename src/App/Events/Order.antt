-- ===== src/App/Events/Order.antt =====
-- The messages that the loop handles, those that the queue took, and their order.
use pareader.Base.{
  ℕ, ◌+◌, ◌≡◌, inl, inr, refl, sym, ap, ◌∙◌, ◌&&◌, Bool, true, false, List, [], ◌∷◌, ◌++◌,
  append_assoc, append-nil, Bytes, length, ltb, ◌==◌, if◌then◌else◌, Result, ok, err, arith,
}
use mathlib.Core.Path.{subst}
use pareader.Usb.{UsbDevice}
use pareader.Usb.Messages.{UsbMessage, Queue, after_read, cdc_receive_callback}
use pareader.Usb.Messages.Queued.{stream_message, tud_hid_set_report_cb-Queues}
use pareader.Pn532.{Pn532Ops, Pn532Laws}
use pareader.App.{App, round, receive_message, now, clocked}
use pareader.App.World.{answers_of, handle_received-world, scan_card-world}
use pareader.App.Events.{
  Event, hid_report, cdc_bytes, turn, list_of, head_of, tail_of, taken, stream_of, FifoLaws, happen,
  happen_all, offered, handled, taken_all,
}
use pareader.App.Events.Turns.{Runs, done, report_called, cdc_called, turned, round-Turns}

taken-nil : (waiting : List UsbMessage) → taken waiting [] ≡ []
taken-nil waiting = ground arith

uncons : (ms : List UsbMessage) → ms ≡ list_of (head_of ms) ++ tail_of ms
uncons [] = refl
uncons (m ∷ ms) = refl

module _ {W : Type 0} (pn532 : Pn532Ops W) (usb : UsbDevice W) (queue : Queue W)
    (get_time : W → ℕ × W) (contents : W → List UsbMessage) (laws : Pn532Laws pn532)
    (fifo : FifoLaws pn532 usb queue get_time contents) where
  abbrev waiting : App W → List UsbMessage
  waiting a = contents a.machine.world

  abbrev after : Event → App W → App W
  after = happen pn532 usb queue get_time contents

  abbrev offers : Event → App W → List UsbMessage
  offers = offered pn532 usb queue get_time contents

  abbrev handles : Event → App W → List UsbMessage
  handles = handled pn532 usb queue get_time contents

  hid_contents :
      (i r t : ℕ) (buffer : Bytes) (a : App W)
      → waiting (after (hid_report i r t buffer) a)
        ≡ waiting a ++ taken (waiting a) (offers (hid_report i r t buffer) a)
  hid_contents i r t buffer a =
      let w = a.machine.world in
      elim (tud_hid_set_report_cb-Queues queue i r t buffer w) [
        | inl (whole, _, sent) ↦
            let test : (i == 0 && r == 0 && length buffer == 64) ≡ true = ground (arith, whole) in
            ap contents sent ∙ rw test (fifo.sending _ w)
        | inr (other, kept) ↦
            let test : (i == 0 && r == 0 && length buffer == 64) ≡ false = ground (arith, other) in
            ap contents kept ∙ rw (test, taken-nil (waiting a), append-nil) refl
      ]

  read_contents :
      (x : Result Bytes × W)
      → contents (after_read queue x) ≡ contents x.1 ++ taken (contents x.1) (stream_of x.0)
  read_contents (err e, w) = rw (taken-nil (contents w), append-nil) refl
  read_contents (ok [], w) = rw (taken-nil (contents w), append-nil) refl
  read_contents (ok (b ∷ bytes), w) =
      let some_bytes : ltb 0 (length (b ∷ bytes)) ≡ true = ground arith in
      rw some_bytes (fifo.sending (stream_message (b ∷ bytes)) w)

  cdc_contents :
      (i : ℕ) (a : App W)
      → waiting (after (cdc_bytes i) a) ≡ waiting a ++ taken (waiting a) (offers (cdc_bytes i) a)
  unfolding cdc_receive_callback
  cdc_contents i a =
      let x = queue.cdc_read i 512 a.machine.world in
      subst
        (λ (ms : List UsbMessage). contents (after_read queue x) ≡ ms ++ taken ms (stream_of x.0))
        (fifo.reading i 512 a.machine.world) (read_contents x)

  pick_contents :
      (b : Bool) (ms : List UsbMessage) (x y : App W)
      → waiting x ≡ ms
      → waiting y ≡ ms
      → waiting (if b then x else y) ≡ ms
  pick_contents true ms x y hx hy = hx
  pick_contents false ms x y hx hy = hy

  received_contents :
      (a : App W) → waiting (receive_message pn532 usb queue a) ≡ tail_of (waiting a)
  unfolding receive_message
  received_contents a =
      let ms = tail_of (waiting a) in
      handle_received-world pn532 usb laws (λ w. contents w ≡ ms) (fifo.driver ms)
        (answers_of usb (λ w. contents w ≡ ms) (fifo.sends ms)) (queue.receive 50 a.machine.world).0
        _ (fifo.receiving 50 a.machine.world)

  turn_contents : (a : App W) → waiting (after turn a) ≡ tail_of (waiting a)
  unfolding round
  turn_contents a =
      let ms = tail_of (waiting a) in
      let b = receive_message pn532 usb queue a in
      let read = fifo.clock b.machine.world ∙ received_contents a in
      pick_contents (ltb (now get_time b) b.next_scan) ms (clocked get_time b) _ read (
        scan_card-world pn532 usb (λ w. contents w ≡ ms) (fifo.driver ms) (fifo.sends ms)
          (record (clocked get_time b) { next_scan = now get_time b + 200000 }) read)

  -- What is handled and what still waits is what waited and what is taken.
  event_flow :
      (e : Event) (a : App W)
      → handles e a ++ waiting (after e a) ≡ waiting a ++ taken (waiting a) (offers e a)
  event_flow (hid_report i r t buffer) a = hid_contents i r t buffer a
  event_flow (cdc_bytes i) a = cdc_contents i a
  event_flow turn a =
      rw (fifo.received 50 a.machine.world, turn_contents a, taken-nil (waiting a), append-nil)
        (sym (uncons (waiting a)))

  -- One more event in front.
  flow :
      (e : Event) (a : App W) (ms still later : List UsbMessage)
      → ms ++ still ≡ waiting (after e a) ++ later
      → (handles e a ++ ms) ++ still ≡ waiting a ++ (taken (waiting a) (offers e a) ++ later)
  flow e a ms still later h =
      append_assoc (handles e a) ms still
      ∙ ap (λ (l : List UsbMessage). handles e a ++ l) h
      ∙ sym (append_assoc (handles e a) (waiting (after e a)) later)
      ∙ ap (λ (l : List UsbMessage). l ++ later) (event_flow e a)
      ∙ append_assoc (waiting a) (taken (waiting a) (offers e a)) later

  -- Whatever the order of the callbacks and the rounds: in each round the loop hands the message
  -- that it receives to `prhp_dispatch`, if it is a HID report of 64 bytes, or its bytes to
  -- `sega_receive`, if it came on CDC, then reads the clock, and scans if the time has come. The
  -- messages handled in this way, and then those that still wait, are those that waited before,
  -- and then those that the queue took, in that order. A message that a callback brings is taken
  -- unless sixteen are waiting. The queue is first in, first out, and only its own operations
  -- change it.
  pub happen_all-Runs :
      (es : List Event) (a : App W)
      → (ms : List UsbMessage) × Runs pn532 usb queue get_time es a ms
          (happen_all pn532 usb queue get_time contents es a)
        × (ms ++ contents (happen_all pn532 usb queue get_time contents es a).machine.world
            ≡ contents a.machine.world ++ taken_all pn532 usb queue get_time contents es a)
  unfolding happen_all
  happen_all-Runs [] a = ([], done, sym (append-nil _))
  happen_all-Runs (hid_report i r t buffer ∷ es) a =
      let (ms, runs, order) = happen_all-Runs es (after (hid_report i r t buffer) a) in
      (ms, report_called runs, flow (hid_report i r t buffer) a ms _ _ order)
  happen_all-Runs (cdc_bytes i ∷ es) a =
      let (ms, runs, order) = happen_all-Runs es (after (cdc_bytes i) a) in
      (ms, cdc_called runs, flow (cdc_bytes i) a ms _ _ order)
  happen_all-Runs (turn ∷ es) a =
      let (ms, runs, order) = happen_all-Runs es (after turn a) in
      let o = (queue.receive 50 a.machine.world).0 in
      (
        list_of o ++ ms,
        turned (round-Turns pn532 usb queue get_time a) runs,
        flow turn a ms _ _ order,
      )
