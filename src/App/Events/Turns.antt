-- ===== src/App/Events/Turns.antt =====
-- What the loop does with the messages of the queue: a relation between the events, the messages
-- and the states.
use pareader.Base.{
  ℕ, ◌+◌, ◌≤◌, ◌<◌, ◌≡◌, ◌≢◌, ◌⊎◌, inl, inr, refl, arith, Bool-cases, List, [], ◌∷◌, ◌++◌, Bytes,
  length, take, ltb, ◌==◌, Option, none, some,
}
use pareader.Usb.{UsbDevice}
use pareader.Usb.Messages.{
  MessageType, hid, cdc, UsbMessage, Queue, tud_hid_set_report_cb, cdc_receive_callback,
}
use pareader.Pn532.{Pn532Ops}
use pareader.Reader.Operations.{reader_ops}
use pareader.Sega.Parser.{sega_receive}
use pareader.Prhp.{prhp_dispatch}
use pareader.App.{
  App, machine_usb, handle, handle_received, receive_message, scan_card, now, clocked, round,
}
use pareader.App.Events.{Event, hid_report, cdc_bytes, turn, list_of, on_world_of}

module _ {W : Type 0} (pn532 : Pn532Ops W) (usb : UsbDevice W) where
  -- What becomes of the message `o` at `a`: a PRHP report goes to `prhp_dispatch`, one of another
  -- size nowhere, and the bytes of a CDC message to `sega_receive`.
  pub data Answers (o : Option UsbMessage) (a a' : App W) : Type 0 where
    no_message : o ≡ none → a' ≡ a → Answers o a a'
    ignored : (m : UsbMessage) → o ≡ some m → m.type ≡ hid → m.size ≢ 64 → a' ≡ a → Answers o a a'
    dispatched :
        (m : UsbMessage)
        → o ≡ some m
        → m.type ≡ hid
        → m.size ≡ 64
        → a' ≡ record a { machine = prhp_dispatch (machine_usb usb) m.content a.machine }
        → Answers o a a'
    streamed :
        (m : UsbMessage)
        → o ≡ some m
        → m.type ≡ cdc
        → (a'.parser, a'.machine)
          ≡ sega_receive
              (machine_usb usb)
              (reader_ops pn532)
              a.parser
              (take m.size m.content)
              a.machine
        → a'.current ≡ a.current
        → a'.next_scan ≡ a.next_scan
        → Answers o a a'

  handle_typed :
      (t : MessageType) (m : UsbMessage) (a : App W)
      → m.type ≡ t
      → Answers (some m) a (handle pn532 usb t m a)
  unfolding handle
  handle_typed hid m a e = elim (Bool-cases (m.size == 64)) [
    | inl whole ↦ dispatched m refl e (ground arith) (rw whole refl)
    | inr other ↦ ignored m refl e (ground arith) (rw other refl)
  ]
  handle_typed cdc m a e = streamed m refl e refl refl refl

  handle_received-Answers :
      (o : Option UsbMessage) (a : App W) → Answers o a (handle_received pn532 usb o a)
  handle_received-Answers none a = no_message refl refl
  handle_received-Answers (some m) a = handle_typed m.type m a refl

  module _ (queue : Queue W) (get_time : W → ℕ × W) where
    -- A round of the loop in which `o` is received: the message is handled, the clock is read, and
    -- if the time has come the field is scanned.
    pub record Turns (a : App W) (o : Option UsbMessage) (a' : App W) : Type 0 where
      pub after : App W
      pub message : o ≡ (queue.receive 50 a.machine.world).0
      pub answered : Answers o (on_world_of (λ w. (queue.receive 50 w).1) a) after
      pub rest :
          ((now get_time after < after.next_scan) × (a' ≡ clocked get_time after))
          ⊎ ((after.next_scan ≤ now get_time after)
              × (a'
                  ≡ scan_card pn532 usb (record (clocked get_time after) {
                    next_scan = now get_time after + 200000;
                  })))

    pub round-Turns :
        (a : App W)
        → Turns a (queue.receive 50 a.machine.world).0 (round pn532 usb queue get_time a)
    unfolding round receive_message
    round-Turns a =
        let taken = on_world_of (λ w. (queue.receive 50 w).1) a in
        let b = handle_received pn532 usb (queue.receive 50 a.machine.world).0 taken in
        record {
          after = b;
          message = refl;
          answered = handle_received-Answers (queue.receive 50 a.machine.world).0 taken;
          rest = elim (Bool-cases (ltb (now get_time b) b.next_scan)) [
            | inl early ↦ inl (ground arith, rw early refl)
            | inr due ↦ inr (ground arith, rw due refl)
          ];
        }

    -- The events lead from `a` to `a'`, and the loop receives and handles `ms` on the way. A
    -- callback only acts on the world.
    pub data Runs : List Event → App W → List UsbMessage → App W → Type 0 where
      done : {a : App W} → Runs [] a [] a
      report_called :
          {i r t : ℕ} {buffer : Bytes} {es : List Event} {a a' : App W} {ms : List UsbMessage}
          → Runs es (on_world_of (tud_hid_set_report_cb queue i r t buffer (length buffer)) a) ms a'
          → Runs (hid_report i r t buffer ∷ es) a ms a'
      cdc_called :
          {i : ℕ} {es : List Event} {a a' : App W} {ms : List UsbMessage}
          → Runs es (on_world_of (cdc_receive_callback queue i) a) ms a'
          → Runs (cdc_bytes i ∷ es) a ms a'
      turned :
          {o : Option UsbMessage} {es : List Event} {a b a' : App W} {ms : List UsbMessage}
          → Turns a o b
          → Runs es b ms a'
          → Runs (turn ∷ es) a (list_of o ++ ms) a'
