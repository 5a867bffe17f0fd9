-- ===== src/App/Events.antt =====
-- The USB callbacks and the rounds of the main loop, in any order.
pub mod Turns
pub mod Order
use pareader.Base.{
  ℕ, ◌≡◌, ◌&&◌, Bool, List, [], ◌∷◌, ◌++◌, Bytes, length, ltb, ◌==◌, if◌then◌else◌, Option, none,
  some, Result, ok, err,
}
use pareader.Usb.{UsbDevice}
use pareader.Usb.Messages.{hid, UsbMessage, Queue, tud_hid_set_report_cb, cdc_receive_callback}
use pareader.Usb.Messages.Queued.{stream_message}
use pareader.Usb.Init.{messages_length}
use pareader.Pn532.{Pn532Ops}
use pareader.Reader.World.{Pn532Keeps}
use pareader.App.{App, round}
use pareader.App.World.{UsbKeeps}

-- What may happen next: a HID report, bytes on CDC, or a round of the loop.
pub data Event : Type 0 where
  hid_report : ℕ → ℕ → ℕ → Bytes → Event
  cdc_bytes : ℕ → Event
  turn : Event

abbrev pub list_of : Option UsbMessage → List UsbMessage
list_of none = []
list_of (some m) = m ∷ []

abbrev pub head_of : List UsbMessage → Option UsbMessage
head_of [] = none
head_of (m ∷ ms) = some m

abbrev pub tail_of : List UsbMessage → List UsbMessage
tail_of [] = []
tail_of (m ∷ ms) = ms

-- What a queue that holds `waiting` takes of the messages: nothing if it is full.
abbrev pub taken : List UsbMessage → List UsbMessage → List UsbMessage
taken waiting ms = if ltb (length waiting) messages_length then ms else []

abbrev pub stream_of : Result Bytes → List UsbMessage
stream_of (err e) = []
stream_of (ok []) = []
stream_of (ok (b ∷ bs)) = stream_message (b ∷ bs) ∷ []

-- The call of a callback, on the world alone.
abbrev pub on_world_of : {W : Type 0} → (W → W) → App W → App W
on_world_of f a = record a { machine = record (a.machine) { world = f a.machine.world } }

module _ {W : Type 0} (pn532 : Pn532Ops W) (usb : UsbDevice W) (queue : Queue W)
    (get_time : W → ℕ × W) (contents : W → List UsbMessage) where
  -- A FreeRTOS queue of sixteen messages, first in, first out, that only its own operations
  -- change; `xQueueSend` does not wait, and drops the message when the queue is full.
  pub record FifoLaws : Type 0 where
    pub sending :
        (m : UsbMessage) (w : W)
        → contents (queue.send m w).1 ≡ contents w ++ taken (contents w) (m ∷ [])
    pub received : (timeout_ms : ℕ) (w : W) → (queue.receive timeout_ms w).0 ≡ head_of (contents w)
    pub receiving :
        (timeout_ms : ℕ) (w : W) → contents (queue.receive timeout_ms w).1 ≡ tail_of (contents w)
    pub reading :
        (interface_id n : ℕ) (w : W) → contents (queue.cdc_read interface_id n w).1 ≡ contents w
    pub clock : (w : W) → contents (get_time w).1 ≡ contents w
    pub driver : (ms : List UsbMessage) → Pn532Keeps pn532 (λ w. contents w ≡ ms)
    pub sends : (ms : List UsbMessage) → UsbKeeps usb (λ w. contents w ≡ ms)

  -- A callback runs between two rounds, and leaves the state of the loop alone.
  abbrev pub happen : Event → App W → App W
  happen (hid_report instance_id report_id report_type buffer) a =
      on_world_of
        (tud_hid_set_report_cb queue instance_id report_id report_type buffer (length buffer)) a
  happen (cdc_bytes interface_id) a = on_world_of (cdc_receive_callback queue interface_id) a
  happen turn a = round pn532 usb queue get_time a

  unfoldable pub happen_all : List Event → App W → App W
  happen_all [] a = a
  happen_all (e ∷ es) a = happen_all es (happen e a)

  -- The message that an event brings, if any.
  abbrev pub offered : Event → App W → List UsbMessage
  offered (hid_report instance_id report_id report_type buffer) a =
      if instance_id == 0 && report_id == 0 && length buffer == 64
      then record { type = hid; size = 64; content = buffer } ∷ []
      else []
  offered (cdc_bytes interface_id) a = stream_of (queue.cdc_read interface_id 512 a.machine.world).0
  offered turn a = []

  -- The message that an event hands to the main loop, if any.
  abbrev pub handled : Event → App W → List UsbMessage
  handled turn a = list_of (queue.receive 50 a.machine.world).0
  handled _ a = []

  -- The messages that the queue takes over the events.
  abbrev pub taken_all : List Event → App W → List UsbMessage
  taken_all [] a = []
  taken_all (e ∷ es) a = taken (contents a.machine.world) (offered e a) ++ taken_all es (happen e a)
