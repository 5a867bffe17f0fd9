-- ===== src/Pn532/Commands.antt =====
-- The commands of pn532.c.
pub mod Sizes
pub mod Answers
pub mod Exchange
pub mod Polls
pub mod Written
use pareader.Base.{
  ℕ, ◌+◌, ◌-◌, ◌%◌, Bool, true, false, ◌&&◌, ◌||◌, not, [], ◌∷◌, ◌++◌, Bytes, byte_at, take, drop,
  copy, length, u8, bit_or, ◌<<<◌, ◌>>>◌, ltb, leb, ◌==◌, ◌!=◌, if◌then◌else◌, invalid_size,
  invalid_response, Result, ok, err, Act, pure, raise, ◌>>=◌, ◌>>◌, exec,
}
use pareader.Pn532.{TypeATarget, FelicaTarget, Poll, Pn532Ops}
use pareader.Pn532.Bus.{BusConfig, DeviceConfig, Bus, wait_ready, read_data, read_ack}
use pareader.Pn532.Codes.{
  pn532_i2c_address, pn532_i2c_frequency_hz, pn532_i2c_transfer_timeout_ms,
  pn532_command_sam_configuration, pn532_command_rf_configuration, pn532_command_in_data_exchange,
  pn532_command_in_list_passive_target, pn532_frame_capacity, pn532_command_timeout_ms,
}
use pareader.Pn532.Frame.{command_frame, parse_response}

-- `*found` for the response of a poll.
abbrev pub any_target : Bytes → Bool
any_target response = ltb 0 (length response) && ltb 0 (byte_at response 0)

-- What `pn532_poll_type_a` does with the response.
unfoldable pub type_a_response : TypeATarget → Bytes → Poll TypeATarget
type_a_response target response =
    let size = length response in
    let uid_size = byte_at response 5 in
    if not (any_target response)
    then record { status = ok tt; found = any_target response; target = target }
    else if ltb size 6 || ltb 10 uid_size || ltb size (6 + uid_size)
    then record { status = err invalid_response; found = any_target response; target = target }
    else record {
      status = ok tt;
      found = any_target response;
      target = record {
        target = byte_at response 1;
        uid = copy target.uid (drop 6 response) uid_size;
        uid_size = uid_size;
        sak = byte_at response 4;
        atqa = bit_or (byte_at response 2 <<< 8 % 65536) (byte_at response 3);
      };
    }

-- What `pn532_poll_felica` does with the response.
unfoldable pub felica_response : FelicaTarget → Bytes → Poll FelicaTarget
felica_response target response =
    if not (any_target response)
    then record { status = ok tt; found = any_target response; target = target }
    else if ltb (length response) 21 || ltb (byte_at response 2) 18
    then record { status = err invalid_response; found = any_target response; target = target }
    else record {
      status = ok tt;
      found = any_target response;
      target = record {
        target = byte_at response 1;
        idm = copy target.idm (drop 4 response) 8;
        pmm = copy target.pmm (drop 12 response) 8;
      };
    }

-- What `pn532_mifare_read_block` does with the response.
unfoldable pub block_response : {W : Type 0} → Bytes → Act W Bytes
block_response response w =
    if ltb (length response) 17 || byte_at response 0 != 0
    then raise invalid_response w
    else pure (take 16 (drop 1 response)) w

-- What `pn532_felica_transact` does with the response.
unfoldable pub raw_felica_response : {W : Type 0} → ℕ → Bytes → Act W Bytes
raw_felica_response response_capacity raw_response w =
    if ltb (length raw_response) 1
      || byte_at raw_response 0 != 0
      || ltb response_capacity (length raw_response - 1)
    then raise invalid_response w
    else pure (take (length raw_response - 1) (drop 1 raw_response)) w

-- A failed command leaves the out parameters of a poll alone.
abbrev pub polled : {W T : Type 0} → (Bytes → Poll T) → T → Bool → Result Bytes × W → Poll T × W
polled read target found (ok response, w) = (read response, w)
polled read target found (err e, w) = (record { status = err e; found = found; target = target }, w)

module _ {W : Type 0} (bus : Bus W) where
  unfoldable pub write_frame : ℕ → Bytes → Act W (Unit {0})
  write_frame command payload w =
      if ltb 254 (length payload + 2)
      then raise invalid_size w
      else bus.transmit (command_frame command payload) w

  -- `response` never is `NULL`; the result holds the `*response_size` bytes that it gets.
  unfoldable pub command : ℕ → Bytes → ℕ → Act W Bytes
  command command_code request response_capacity = do
    write_frame command_code request
    wait_ready bus pn532_command_timeout_ms
    read_ack bus
    wait_ready bus pn532_command_timeout_ms
    frame ← read_data bus pn532_frame_capacity
    (λ w. (parse_response command_code response_capacity frame, w))

  -- The pins come from the build configuration.
  abbrev pub bus_config : BusConfig
  bus_config = record {
    sda_io_num = bus.sda_gpio;
    scl_io_num = bus.scl_gpio;
    glitch_ignore_cnt = 7;
    enable_internal_pullup = true;
  }

  abbrev pub device_config : DeviceConfig
  device_config = record {
    dev_addr_length = 7;
    device_address = pn532_i2c_address;
    scl_speed_hz = pn532_i2c_frequency_hz;
    scl_wait_us = 20000;
  }

  unfoldable pub pn532_init : Act W (Unit {0})
  pn532_init = do
    bus.new_master_bus bus_config
    bus.add_device device_config
    bus.probe pn532_i2c_address pn532_i2c_transfer_timeout_ms
    (λ w. (ok tt, bus.delay_ms 100 w))
    _ ← command pn532_command_sam_configuration (0x01 ∷ 0x14 ∷ 0x01 ∷ []) 8
    _ ← command pn532_command_rf_configuration (0x05 ∷ 0xFF ∷ 0x01 ∷ 0x00 ∷ []) 8
    pure tt

  unfoldable pub pn532_set_radio : Bool → Act W (Unit {0})
  pn532_set_radio enabled = do
    _ ← command pn532_command_rf_configuration (0x01 ∷ (if enabled then 0x01 else 0x00) ∷ []) 8
    pure tt

  unfoldable pub pn532_poll_type_a : TypeATarget → Bool → W → Poll TypeATarget × W
  pn532_poll_type_a target found w =
      polled (type_a_response target) target found
        (command pn532_command_in_list_passive_target (0x01 ∷ 0x00 ∷ []) 64 w)

  unfoldable pub pn532_poll_felica : ℕ → FelicaTarget → Bool → W → Poll FelicaTarget × W
  pn532_poll_felica system_code target found w = polled (felica_response target) target found (
      command pn532_command_in_list_passive_target
        (0x01 ∷ 0x01 ∷ 0x00 ∷ u8 (system_code >>> 8) ∷ u8 system_code ∷ 0x01 ∷ 0x00 ∷ []) 64 w)

  unfoldable pub pn532_mifare_authenticate : ℕ → ℕ → ℕ → Bytes → Bytes → Act W (Unit {0})
  pn532_mifare_authenticate target mifare_command block key uid = do
    response ←
        command pn532_command_in_data_exchange
          (target ∷ mifare_command ∷ block ∷ (take 6 key ++ take 4 uid)) 8
    if leb 1 (length response) && byte_at response 0 == 0 then pure tt else raise invalid_response

  unfoldable pub pn532_mifare_read_block : ℕ → ℕ → Act W Bytes
  pn532_mifare_read_block target block = do
    response ← command pn532_command_in_data_exchange (target ∷ 0x30 ∷ block ∷ []) 20
    block_response response

  unfoldable pub pn532_felica_transact : ℕ → Bytes → ℕ → ℕ → Act W Bytes
  pn532_felica_transact target request request_size response_capacity w =
      if ltb 254 (request_size + 1)
      then raise invalid_size w
      else (do
        raw_response ←
            command pn532_command_in_data_exchange (target ∷ take request_size request) 255
        raw_felica_response response_capacity raw_response)
          w

  abbrev pub pn532_ops : Pn532Ops W
  pn532_ops = record {
    init = pn532_init;
    set_radio = pn532_set_radio;
    poll_type_a = pn532_poll_type_a;
    poll_felica = pn532_poll_felica;
    mifare_authenticate = pn532_mifare_authenticate;
    mifare_read_block = pn532_mifare_read_block;
    felica_transact = pn532_felica_transact;
  }
