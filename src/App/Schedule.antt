-- ===== src/App/Schedule.antt =====
-- When the main loop scans: the times of its scans, and the clock that it reads.
pub mod Spacing
pub mod Progress
pub mod Settling
use pareader.Base.{
  ℕ, zero, suc, ◌+◌, ◌≤◌, ◌≡◌, Bool, true, false, not, List, [], ◌∷◌, Bytes, ltb, if◌then◌else◌,
  Option, none, some, Result, ok,
}
use pareader.Card.{Card}
use pareader.Usb.{UsbDevice}
use pareader.Usb.Messages.{UsbMessage, Queue}
use pareader.Pn532.{Pn532Ops}
use pareader.Reader.World.{Pn532Keeps}
use pareader.Reader.ReadCard.{reader_read_card}
use pareader.App.{App, receive_message, now, clocked, round}
use pareader.App.World.{UsbKeeps}

-- `cons` under a test.
abbrev pub cons_if : Bool → ℕ → List ℕ → List ℕ
cons_if true t ts = t ∷ ts
cons_if false t ts = ts

-- How long a `receive` with no message waits, at least.
abbrev pub wait_of : ℕ → Option UsbMessage → ℕ
wait_of wait none = wait
wait_of wait (some m) = 0

module _ {W : Type 0} (pn532 : Pn532Ops W) (usb : UsbDevice W) (queue : Queue W)
    (get_time : W → ℕ × W) where
  abbrev pub received : App W → App W
  received = receive_message pn532 usb queue

  abbrev pub next : App W → App W
  next = round pn532 usb queue get_time

  -- The time that a round reads, and whether it goes on to scan.
  abbrev pub read_time : App W → ℕ
  read_time a = now get_time (received a)

  abbrev pub is_due : App W → Bool
  is_due a = not (ltb (read_time a) (received a).next_scan)

  -- The times of the scans in `n` rounds, in order.
  abbrev pub scan_times : ℕ → App W → List ℕ
  scan_times zero a = []
  scan_times (suc n) a = cons_if (is_due a) (read_time a) (scan_times n (next a))

  -- The time on the clock.
  abbrev pub time : W → ℕ
  time w = (get_time w).0

  -- `esp_timer_get_time` does not go back, whatever driver is called, and `xQueueReceive` returns
  -- without a message only after its timeout, which is at least `wait` microseconds.
  pub record TimeLaws (wait : ℕ) : Type 0 where
    pub reading : (w : W) → time w ≤ time (get_time w).1
    pub receiving :
        (w : W) → time w + wait_of wait (queue.receive 50 w).0 ≤ time (queue.receive 50 w).1
    pub driver : (t : ℕ) → Pn532Keeps pn532 (λ w. t ≤ time w)
    pub sends : (t : ℕ) → UsbKeeps usb (λ w. t ≤ time w)

  -- How long `n` rounds wait for messages that do not come, at least.
  abbrev pub waited : ℕ → ℕ → App W → ℕ
  waited wait zero a = 0
  waited wait (suc n) a = wait_of wait (queue.receive 50 a.machine.world).0 + waited wait n (next a)

  -- The next scan is at most 200 ms away.
  abbrev pub IsPunctual : App W → Type 0
  IsPunctual a = a.next_scan ≤ time a.machine.world + 200000

  -- Each scan of `n` rounds reads this card.
  abbrev pub Reads : Card → ℕ → App W → Type 0
  Reads card zero a = Unit {0}
  Reads card (suc n) a =
      (is_due a ≡ true
        → (reader_read_card pn532 (clocked get_time (received a)).machine).0 ≡ ok card)
      × Reads card n (next a)
