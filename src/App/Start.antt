-- ===== src/App/Start.antt =====
-- What the firmware starts from.
use pareader.Base.{Act, ◌≡◌, refl, inl, inr, [], ◌∷◌, length, arith, Result, ok, err, EspErr, exec}
use pareader.Card.{zero_card}
use pareader.Pn532.{Pn532Ops}
use pareader.Reader.State.{Reader, reader_init, reader_statics, default_aime_key, default_bana_key}
use pareader.Reader.ReadCard.Valid.{zero_card-IsValid}
use pareader.Usb.Messages.{Queue}
use pareader.Usb.Descriptors.{TusbMacros}
use pareader.Usb.Init.{UsbDriver, usb_device_init}
use pareader.Sega.Parser.{Parser, capacity}
use pareader.App.{App, started, reader_started, app_start}
use pareader.App.Invariant.{IsApp}

module _ {W : Type 0} (pn532 : Pn532Ops W) (tusb : TusbMacros) (driver : UsbDriver W)
    (queue : Queue W) where
  abbrev usb_init : Act W (Unit {0})
  usb_init = usb_device_init tusb driver queue

  -- The world after `pn532_init`, and after `usb_device_init`.
  abbrev pub after_reader : W → W
  after_reader w = exec pn532.init w

  abbrev pub after_usb : W → W
  after_usb w = exec usb_init (after_reader w)

  -- The cases of a start from `w` that gives `result`.
  pub data Starts (w : W) (result : Result (App W) × W) : Type 0 where
    ready :
        (a : App W)
        → (pn532.init w).0 ≡ ok tt
        → (usb_init (after_reader w)).0 ≡ ok tt
        → result ≡ (ok a, after_usb w)
        → IsApp a
        → a.current ≡ zero_card
        → a.machine.reader.mifare_keys ≡ default_aime_key ∷ default_bana_key ∷ []
        → a.machine.world ≡ after_usb w
        → Starts w result
    no_reader :
        (e : EspErr) → (pn532.init w).0 ≡ err e → result ≡ (err e, after_reader w) → Starts w result
    no_usb :
        (e : EspErr)
        → (pn532.init w).0 ≡ ok tt
        → (usb_init (after_reader w)).0 ≡ err e
        → result ≡ (err e, after_usb w)
        → Starts w result

  -- The statics after `reader_init`.
  abbrev init_reader : Reader
  init_reader = record reader_statics { mifare_keys = default_aime_key ∷ default_bana_key ∷ [] }

  started-Starts :
      (parser : Parser) (w : W) (x : Result (Unit {0}))
      → length parser.bytes ≡ capacity
      → (pn532.init w).0 ≡ ok tt
      → (usb_init (after_reader w)).0 ≡ x
      → Starts w (started parser init_reader (x, after_usb w))
  started-Starts parser w (ok _) size good e =
      ready _ good e refl
        (record {
          reader = record {
            keys = refl;
            key_type = omega arith;
            mifare = record { uid_array = refl };
            felica = record { idm_array = refl; pmm_array = refl };
            system_code = inl refl;
          };
          current = zero_card-IsValid;
          parser = record {
            array = size;
            head_byte = inl refl;
            pending = inl refl;
            quiet = inr (refl, refl);
          };
        })
        refl refl refl
  started-Starts parser w (err x) size good e = no_usb x good e refl

  reader_started-Starts :
      (parser : Parser) (w : W) (x : Result (Unit {0}))
      → length parser.bytes ≡ capacity
      → (pn532.init w).0 ≡ x
      → Starts w (
          reader_started usb_init parser
            (x, record { reader = init_reader; world = after_reader w }))
  reader_started-Starts parser w (ok _) size e =
      started-Starts parser w (usb_init (after_reader w)).0 size e refl
  reader_started-Starts parser w (err x) size e = no_reader x e refl

  -- The start calls `pn532_init` and then, if that succeeds, `usb_device_init`, once each, and
  -- fails with the error of the first of them that fails. If both succeed, the loop starts from a
  -- state that has the invariants of all parts, with both default keys and no card, whatever was
  -- in the parser's array.
  pub app_start-Starts :
      (parser : Parser) (w : W)
      → length parser.bytes ≡ capacity
      → Starts w (app_start pn532 tusb driver queue parser w)
  unfolding app_start reader_init
  app_start-Starts parser w size = reader_started-Starts parser w (pn532.init w).0 size refl
