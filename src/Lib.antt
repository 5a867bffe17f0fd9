-- ===== src/Lib.antt =====
-- The pareader firmware: an ESP32 that reads cards with a PN532 over I2C and presents them to a
-- host over USB, as PRHP reports, as CardIO reports, and as the SEGA reader protocol on a CDC
-- port. All paths below are in impl/firmware/main.
--
-- The parts and their files:
--   Base      C idioms: arrays of bytes as lists, `uint8_t` arithmetic with its wrap-around
--             written out, `esp_err_t` as Result, and fallible code on a state as Act S A, in
--             which a bind is ESP_RETURN_ON_ERROR.
--   Card      reader_card_t of reader.h, the key types, and reader_set_led, which does nothing.
--   Usb       usb_device.h as the record UsbDevice. Usb/Device has send_hid and the send
--             functions of usb_device.c, over a parameter for TinyUSB; Usb/Messages has the two
--             receive callbacks, over a parameter for the queue; Usb/Descriptors the descriptors
--             and the callbacks that hand them out, over a parameter for the macros of TinyUSB,
--             with a reader of HID items in Usb/Descriptors/Hid; Usb/Init usb_device_init.
--   Pn532     pn532.h as the record Pn532Ops with its laws. Pn532/Bus has wait_ready, read_data
--             and read_ack of pn532.c, over a parameter for I2C and the clock; Pn532/Frame the
--             frames that write_frame builds and command accepts; Pn532/Codes the constants;
--             Pn532/Commands the commands and the I2C configuration, which fill the record.
--   Reader    reader.h as the record ReaderOps with its laws. Reader/State has the static
--             variables of reader.c, Reader/Luid valid_luid, Reader/ReadCard reader_read_card,
--             and Reader/Operations the rest, which fill the record over any Pn532Ops;
--             Reader/World has what they all keep of the world behind the driver, and
--             Reader/Chip a card that is read over the commands of pn532.c.
--   Sega      sega.c: Sega/Codes has the constants, Sega/Encode encode_byte and send_response,
--             Sega/Dispatch the commands, Sega/Parser sega_receive, over any UsbDevice and
--             ReaderOps. Sega/Spec describes the commands on their own, as a table.
--   Prhp      prhp.c; Prhp/Spec is spec/rfc-0001-prhp.md, sections 4 to 8, as functions.
--   Cardio    cardio.c.
--   App       app_main.c, which joins the parts: its state is the locals of app_main, the parser
--             and the Machine, which is the statics of reader.c and the world behind the drivers.
--             App/World has what a round keeps of that world, App/Log the reports that it
--             sends, App/History the cards that they are for, App/Schedule the times of the
--             scans, App/Events the loop and the USB callbacks interleaved in any order (a
--             callback runs in another task, but touches only the queue, so a round is one step),
--             App/Cdc the SEGA protocol with the reader of reader.c, and App/Tap a card from the
--             bus of the chip to the reports of the host.
--   Tests     the theorems at concrete devices, states and requests.
--
-- State is passed explicitly. A handler is a function from the state before to the state after,
-- and what it sends is a call of the UsbDevice, so an equation between states says which reports
-- were sent and in which order. A pointer with a size is the list of the bytes it spans.
--
-- Bounds and fuel: send_hid makes 100 attempts, counted down as in the source. wait_loop of
-- Pn532/Bus runs on fuel, one round for each microsecond of the timeout and one more: a round
-- contains an I2C transfer, which takes at least a microsecond, so the deadline comes first. All
-- other loops run over their input.
--
-- Not modelled: the padding of reader_card_t in the memcmp of app_main, and the logging. ESP-IDF,
-- FreeRTOS and TinyUSB, with its descriptor macros, are parameters. The host library in impl/dll
-- is another program.
pub mod Base
pub mod Usb
pub mod Card
pub mod Reader
pub mod Sega
pub mod Pn532
pub mod Prhp
pub mod Cardio
pub mod App
pub mod Tests
