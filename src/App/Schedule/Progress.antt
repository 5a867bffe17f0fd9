-- ===== src/App/Schedule/Progress.antt =====
-- The loop scans again: no stretch of rounds waits for 200 ms without a scan.
use pareader.Base.{
  ℕ, zero, suc, ◌+◌, ◌≤◌, ◌<◌, ◌≡◌, ◌≢◌, ◌⊎◌, inl, inr, refl, Bool, true, false, List, [], ltb,
  if◌then◌else◌, arith,
}
use pareader.Usb.{UsbDevice}
use pareader.Usb.Messages.{Queue}
use pareader.Pn532.{Pn532Ops, Pn532Laws}
use pareader.App.{App, scan_card, receive_message, round, clocked}
use pareader.App.World.{answers_of, handle_received-world, scan_card-world}
use pareader.App.Schedule.{
  cons_if, wait_of, received, next, read_time, is_due, scan_times, time, TimeLaws, waited,
  IsPunctual,
}
use pareader.App.Schedule.Spacing.{round-next_scan}

cons_if-none : (b : Bool) (t : ℕ) (ts : List ℕ) → cons_if b t ts ≡ [] → (b ≡ false) × (ts ≡ [])
cons_if-none true t ts h = cc
cons_if-none false t ts h = (refl, h)

module _ {W : Type 0} (pn532 : Pn532Ops W) (usb : UsbDevice W) (queue : Queue W)
    (get_time : W → ℕ × W) (wait : ℕ) (laws : Pn532Laws pn532)
    (clock : TimeLaws pn532 usb queue get_time wait) where
  abbrev step : App W → App W
  step = next pn532 usb queue get_time

  abbrev clock_of : W → ℕ
  clock_of = time pn532 usb queue get_time

  abbrev tick : App W → ℕ
  tick = read_time pn532 usb queue get_time

  abbrev wait_in : App W → ℕ
  wait_in a = wait_of wait (queue.receive 50 a.machine.world).0

  received_time :
      (a : App W)
      → clock_of a.machine.world + wait_in a
        ≤ clock_of (received pn532 usb queue get_time a).machine.world
  unfolding receive_message
  received_time a =
      let t = clock_of a.machine.world + wait_in a in
      handle_received-world pn532 usb laws (λ w. t ≤ clock_of w) (clock.driver t)
        (answers_of usb (λ w. t ≤ clock_of w) (clock.sends t)) (queue.receive 50 a.machine.world).0
        _ (clock.receiving a.machine.world)

  scan_time :
      (t : ℕ) (a : App W)
      → t ≤ clock_of a.machine.world
      → t ≤ clock_of (scan_card pn532 usb a).machine.world
  scan_time t a h =
      scan_card-world pn532 usb (λ w. t ≤ clock_of w) (clock.driver t) (clock.sends t) a h

  pick_time :
      (b : Bool) (t : ℕ) (x y : App W)
      → t ≤ clock_of x.machine.world
      → t ≤ clock_of y.machine.world
      → t ≤ clock_of (if b then x else y).machine.world
  pick_time true t x y hx hy = hx
  pick_time false t x y hx hy = hy

  -- A round reads the clock after it has waited, and does not turn it back.
  pub round-time :
      (a : App W)
      → (clock_of a.machine.world + wait_in a ≤ tick a) × (tick a ≤ clock_of (step a).machine.world)
  unfolding round
  round-time a =
      let b = received pn532 usb queue get_time a in
      let later = clock.reading b.machine.world in
      (
        received_time a,
        pick_time (ltb (tick a) b.next_scan) (tick a) (clocked get_time b) _ later (
            scan_time (tick a) (record (clocked get_time b) { next_scan = tick a + 200000 }) later),
      )

  -- A round keeps the next scan within 200 ms.
  pub round-IsPunctual :
      (a : App W)
      → IsPunctual pn532 usb queue get_time a
      → IsPunctual pn532 usb queue get_time (step a)
  round-IsPunctual a h =
      let (before, after) = round-time a in
      elim (round-next_scan pn532 usb queue get_time a) [
        | inl (_, _, e) ↦ omega arith
        | inr (_, _, e) ↦ omega arith
      ]

  -- While there is no scan, the rounds have waited for less than the time to the next one.
  no_scan_waited :
      (n : ℕ) (a : App W)
      → scan_times pn532 usb queue get_time n a ≡ []
      → (waited pn532 usb queue get_time wait n a ≡ 0)
        ⊎ (clock_of a.machine.world + waited pn532 usb queue get_time wait n a < a.next_scan)
  no_scan_waited zero a h = inl refl
  no_scan_waited (suc n) a h =
      let (quiet, rest) =
        cons_if-none (is_due pn532 usb queue get_time a) (tick a)
          (scan_times pn532 usb queue get_time n (step a)) h in
      let (before, after) = round-time a in
      let more = no_scan_waited n (step a) rest in
      elim (round-next_scan pn532 usb queue get_time a) [
        | inl (due, _, _) ↦ cc
        | inr (_, early, e) ↦ elim more [
          | inl none_left ↦ inr (omega arith)
          | inr some_left ↦ inr (omega arith)
        ]
      ]

  -- Among rounds that wait for 200 ms there is one that scans, if the next scan is within 200 ms.
  pub scan_times-nonempty :
      (n : ℕ) (a : App W)
      → IsPunctual pn532 usb queue get_time a
      → 200000 ≤ waited pn532 usb queue get_time wait n a
      → scan_times pn532 usb queue get_time n a ≢ []
  scan_times-nonempty n a punctual long h = elim (no_scan_waited n a h) [
    | inl nothing ↦ omega arith
    | inr less ↦ omega arith
  ]
