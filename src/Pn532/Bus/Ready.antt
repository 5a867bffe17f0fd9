-- ===== src/Pn532/Bus/Ready.antt =====
-- A chip that becomes ready before the deadline is found ready.
use pareader.Base.{
  ℕ, zero, suc, ◌+◌, ◌*◌, ◌<◌, ◌≡◌, refl, ◌∙◌, Bool, true, false, arith, Bytes, byte_at, bit_and,
  ltb, ◌==◌, ◌!=◌, invalid_state, Result, ok, err,
}
use pareader.Pn532.Bus.{Bus, after_status, wait_loop, wait_ready}
use pareader.Pn532.Bus.Clock.{ClockLaws}

-- A status transfer that succeeds with the ready bit, and one after which the chip is asked again:
-- without the bit, or not acknowledged.
abbrev pub is_ready : Result Bytes → Bool
is_ready (ok status) = bit_and (byte_at status 0) 0x01 != 0
is_ready (err e) = false

abbrev pub is_busy : Result Bytes → Bool
is_busy (ok status) = bit_and (byte_at status 0) 0x01 == 0
is_busy (err invalid_state) = true
is_busy (err e) = false

module _ {W : Type 0} (bus : Bus W) where
  abbrev pub status_at : W → Result Bytes × W
  status_at w = bus.receive 1 (bus.get_time w).1

  -- From `w` on the chip is busy for `n` status transfers and ready at the next one, which leaves
  -- `w'`; each starts before the deadline.
  abbrev pub ReadyAfter : ℕ → ℕ → W → W → Type 0
  ReadyAfter zero deadline w w' =
      ((bus.get_time w).0 < deadline) × (is_ready (status_at w).0 ≡ true) × (w' ≡ (status_at w).1)
  ReadyAfter (suc n) deadline w w' =
      ((bus.get_time w).0 < deadline)
      × (is_busy (status_at w).0 ≡ true)
      × ReadyAfter n deadline (bus.delay_ms 2 (status_at w).1) w'

  after_status-ready :
      (x : Result Bytes × W) (again : W → Result (Unit {0}) × W)
      → is_ready x.0 ≡ true
      → after_status bus x again ≡ (ok tt, x.1)
  unfolding after_status
  after_status-ready (ok status, w) again h = rw h refl
  after_status-ready (err e, w) again h = cc

  after_status-busy :
      (x : Result Bytes × W) (again : W → Result (Unit {0}) × W)
      → is_busy x.0 ≡ true
      → after_status bus x again ≡ again (bus.delay_ms 2 x.1)
  unfolding after_status
  after_status-busy (ok status, w) again h =
      let bit : (bit_and (byte_at status 0) 0x01 != 0) ≡ false = ground (arith, h) in rw bit refl
  after_status-busy (err invalid_state, w) again h = refl
  after_status-busy (err _, w) again h = cc

  wait_loop-ready :
      (n fuel deadline : ℕ) (w w' : W)
      → ReadyAfter n deadline w w'
      → n < fuel
      → wait_loop bus fuel deadline w ≡ (ok tt, w')
  unfolding wait_loop
  wait_loop-ready n zero deadline w w' h enough = elim enough [ ]
  wait_loop-ready zero (suc fuel) deadline w w' (early, ready, e) enough =
      let test : ltb (bus.get_time w).0 deadline ≡ true = ground arith in
      rw (test, wait_loop, e) (after_status-ready (status_at w) (wait_loop bus fuel deadline) ready)
  wait_loop-ready (suc n) (suc fuel) deadline w w' (early, busy, rest) enough =
      let test : ltb (bus.get_time w).0 deadline ≡ true = ground arith in
      rw (test, wait_loop)
        (after_status-busy (status_at w) (wait_loop bus fuel deadline) busy
          ∙ wait_loop-ready n fuel deadline (bus.delay_ms 2 (status_at w).1) w' rest (omega arith))

  module _ (clock : ClockLaws bus) where
    -- Each round takes a microsecond.
    rounds_left :
        (n deadline : ℕ) (w w' : W) → ReadyAfter n deadline w w' → (bus.get_time w).0 + n < deadline
    rounds_left zero deadline w w' (early, ready, e) = omega arith
    rounds_left (suc n) deadline w w' (early, busy, rest) =
        let v = (bus.get_time w).1 in
        omega (
          arith,
          rounds_left n deadline (bus.delay_ms 2 (status_at w).1) w' rest,
          clock.reading w,
          clock.receiving 1 v,
          clock.waiting 2 (status_at w).1,
        )

    -- `wait_ready` returns as soon as the chip is ready, if it is before the timeout.
    pub wait_ready-ready :
        (n timeout_ms : ℕ) (w w' : W)
        → ReadyAfter n ((bus.get_time w).0 + timeout_ms * 1000) (bus.get_time w).1 w'
        → wait_ready bus timeout_ms w ≡ (ok tt, w')
    unfolding wait_ready
    wait_ready-ready n timeout_ms w w' h =
        let deadline = (bus.get_time w).0 + timeout_ms * 1000 in
        let v = (bus.get_time w).1 in
        wait_loop-ready n (timeout_ms * 1000 + 1) deadline v w' h
          (omega (arith, rounds_left n deadline v w' h, clock.reading w))
