-- ===== src/Pn532/Bus/Clock.antt =====
-- The loop of `wait_ready` ends: the fuel of the model is never used up.
use pareader.Base.{
  ℕ, zero, suc, ◌+◌, ◌-◌, ◌*◌, ◌≤◌, ◌<◌, ◌≡◌, refl, inl, inr, arith, Bytes, byte_at, bit_and, ltb,
  ◌!=◌, Bool-cases, EspErr, Result, ok, err, exec, ltb→lt,
}
use pareader.Pn532.Bus.{Bus, after_status, wait_loop, wait_ready}

-- `esp_timer_get_time` counts microseconds and does not go back, and an I2C transfer, at 100 kHz,
-- takes more than one.
pub record ClockLaws {W : Type 0} (bus : Bus W) : Type 0 where
  pub reading : (w : W) → (bus.get_time w).0 ≤ (bus.get_time (bus.get_time w).1).0
  pub receiving : (n : ℕ) (w : W) → (bus.get_time w).0 < (bus.get_time (exec (bus.receive n) w)).0
  pub waiting : (ms : ℕ) (w : W) → (bus.get_time w).0 ≤ (bus.get_time (bus.delay_ms ms w)).0

module _ {W : Type 0} (bus : Bus W) (clock : ClockLaws bus) where
  -- Two continuations that agree from the time `t` on.
  abbrev Agree : ℕ → (W → Result (Unit {0}) × W) → (W → Result (Unit {0}) × W) → Type 0
  Agree t f g = (w : W) → t ≤ (bus.get_time w).0 → f w ≡ g w

  after_status-Agree :
      (t : ℕ) (x : Result Bytes × W) (f g : W → Result (Unit {0}) × W)
      → t ≤ (bus.get_time x.1).0
      → Agree t f g
      → after_status bus x f ≡ after_status bus x g
  unfolding after_status
  after_status-Agree t (err EspErr.invalid_state, w) f g h same =
      same (bus.delay_ms 2 w) (omega (arith, clock.waiting 2 w))
  after_status-Agree t (ok status, w) f g h same =
      elim (Bool-cases (bit_and (byte_at status 0) 0x01 != 0)) [
        | inl ready ↦ rw ready
        | inr busy ↦ rw busy (same (bus.delay_ms 2 w) (omega (arith, clock.waiting 2 w)))
      ]
  after_status-Agree t (err _, w) f g h same = refl

  -- Any two amounts of fuel above the time that is left give the same result.
  wait_loop_fuel :
      (n m deadline : ℕ) (w : W)
      → deadline - (bus.get_time w).0 < n
      → deadline - (bus.get_time w).0 < m
      → wait_loop bus n deadline w ≡ wait_loop bus m deadline w
  unfolding wait_loop
  wait_loop_fuel zero m deadline w hn hm = absurd (omega arith)
  wait_loop_fuel (suc n) zero deadline w hn hm = absurd (omega arith)
  wait_loop_fuel (suc n) (suc m) deadline w hn hm =
      elim (Bool-cases (ltb (bus.get_time w).0 deadline)) [
        | inr late ↦ rw (late, wait_loop)
        | inl early ↦
            rw (early, wait_loop)
              (after_status-Agree (suc (bus.get_time w).0) (bus.receive 1 (bus.get_time w).1)
                (wait_loop bus n deadline) (wait_loop bus m deadline)
                (omega (arith, clock.reading w, clock.receiving 1 (bus.get_time w).1))
                (λ w' later.
                  wait_loop_fuel n m deadline w'
                    (omega (arith, ltb→lt (bus.get_time w).0 deadline early))
                    (omega (arith, ltb→lt (bus.get_time w).0 deadline early))))
      ]

  -- With a clock that runs, `wait_ready` returns by its deadline test, an error or the ready bit:
  -- however much more fuel the loop is given, the result is the same.
  pub wait_ready_terminates :
      (timeout_ms fuel : ℕ) (w : W)
      → timeout_ms * 1000 < fuel
      → wait_ready bus timeout_ms w
        ≡ wait_loop bus fuel ((bus.get_time w).0 + timeout_ms * 1000) (bus.get_time w).1
  unfolding wait_ready
  wait_ready_terminates timeout_ms fuel w h =
      wait_loop_fuel (timeout_ms * 1000 + 1) fuel ((bus.get_time w).0 + timeout_ms * 1000)
        (bus.get_time w).1 (omega (arith, clock.reading w)) (omega (arith, clock.reading w))
