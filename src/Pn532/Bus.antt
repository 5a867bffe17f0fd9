-- ===== src/Pn532/Bus.antt =====
-- The I2C transfers of pn532.c: `wait_ready`, `read_data` and `read_ack`.
pub mod Clock
pub mod Ready
use pareader.Base.{
  ℕ, suc, zero, ◌+◌, ◌*◌, Bool, [], ◌∷◌, Bytes, byte_at, take, drop, copy, replicate, equal,
  bit_and, ltb, ◌==◌, ◌!=◌, if◌then◌else◌, EspErr, invalid_state, invalid_size, invalid_response,
  timeout, Result, ok, err, Act, pure, raise, ◌>>=◌, ◌>>◌,
}
use pareader.Pn532.Codes.{pn532_i2c_ready, pn532_frame_capacity}

-- What pn532.c sets of `i2c_master_bus_config_t`; the port is chosen by the driver, and the clock
-- source is the default.
pub record BusConfig : Type 0 where
  pub sda_io_num : ℕ
  pub scl_io_num : ℕ
  pub glitch_ignore_cnt : ℕ
  pub enable_internal_pullup : Bool

-- `i2c_device_config_t`
pub record DeviceConfig : Type 0 where
  pub dev_addr_length : ℕ
  pub device_address : ℕ
  pub scl_speed_hz : ℕ
  pub scl_wait_us : ℕ

-- What pn532.c uses of ESP-IDF, for its one device: the I2C driver, the timer in microseconds and
-- `vTaskDelay(pdMS_TO_TICKS(ms))`, and the two pins of the build configuration. A transfer that succeeds returns the bytes received.
pub record Bus (W : Type 0) : Type 0 where
  pub sda_gpio : ℕ
  pub scl_gpio : ℕ
  pub new_master_bus : BusConfig → Act W (Unit {0})
  pub add_device : DeviceConfig → Act W (Unit {0})
  pub probe : ℕ → ℕ → Act W (Unit {0})
  pub transmit : Bytes → Act W (Unit {0})
  pub receive : ℕ → Act W Bytes
  pub get_time : W → ℕ × W
  pub delay_ms : ℕ → W → W

module _ {W : Type 0} (bus : Bus W) where
  -- One status read; `again` is the rest of the loop.
  unfoldable pub after_status :
      Result Bytes × W → (W → Result (Unit {0}) × W) → Result (Unit {0}) × W
  after_status (err invalid_state, w) again = again (bus.delay_ms 2 w)
  after_status (err e, w) again = (err e, w)
  after_status (ok status, w) again =
      if bit_and (byte_at status 0) pn532_i2c_ready != 0
      then (ok tt, w)
      else again (bus.delay_ms 2 w)

  -- The loop of `wait_ready`, on fuel.
  unfoldable pub wait_loop : ℕ → ℕ → Act W (Unit {0})
  wait_loop zero deadline w = raise timeout w
  wait_loop (suc fuel) deadline w =
      let again = wait_loop fuel deadline in
      elim (ltb (bus.get_time w).0 deadline) [
        | Bool.true ↦ after_status (bus.receive 1 (bus.get_time w).1) again
        | Bool.false ↦ raise timeout (bus.get_time w).1
      ]

  -- A round of the loop takes a microsecond or more, so one round for each microsecond of the
  -- timeout is enough.
  unfoldable pub wait_ready : ℕ → Act W (Unit {0})
  wait_ready timeout_ms w =
      let (now, w') = bus.get_time w in
      wait_loop (timeout_ms * 1000 + 1) (now + timeout_ms * 1000) w'

  unfoldable pub read_data : ℕ → Act W Bytes
  read_data size w =
      if ltb pn532_frame_capacity size
      then raise invalid_size w
      else (do
        bytes ← bus.receive (size + 1)
        let rx = copy (replicate (pn532_frame_capacity + 1) 0) bytes (size + 1)
        (λ w'.
            if bit_and (byte_at rx 0) pn532_i2c_ready == 0
            then raise invalid_state w'
            else pure (take size (drop 1 rx)) w'))
          w

  abbrev pub ack_frame : Bytes
  ack_frame = 0x00 ∷ 0x00 ∷ 0xFF ∷ 0x00 ∷ 0xFF ∷ 0x00 ∷ []

  unfoldable pub read_ack : Act W (Unit {0})
  unfolding read_data
  read_ack = do ack ← read_data 6; if equal ack ack_frame then pure tt else raise invalid_response
