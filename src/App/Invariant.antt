-- ===== src/App/Invariant.antt =====
-- The invariants of all parts, kept by the main loop.
use pareader.Base.{
  ℕ, IsBytes-take, zero, suc, ◌+◌, ◌≡◌, refl, sym, Bool, true, false, Bytes, IsBytes, take, ltb,
  ◌==◌, if◌then◌else◌, arith, Option, none, some, Result, ok, err,
}
use mathlib.Core.Path.{subst}
use pareader.Card.{Card}
use pareader.Usb.{UsbDevice}
use pareader.Usb.Messages.{MessageType, hid, cdc, UsbMessage, Queue}
use pareader.Pn532.{Pn532Ops, Pn532Laws}
use pareader.Reader.State.{Machine, IsReader}
use pareader.Reader.ReadCard.{reader_read_card}
use pareader.Reader.ReadCard.Valid.{IsValid, Returns, reader_read_card-Returns}
use pareader.Reader.Operations.{reader_felica_transact, reader_ops}
use pareader.Reader.Operations.Laws.{select_state, reader_ops-ReaderLaws}
use pareader.Reader.Operations.Keep.{
  Returns-reader, read_block_reader, set_key-IsReader, authenticate-IsReader, radio_set-IsReader,
}
use pareader.Sega.Dispatch.Replies.{
  ReaderCall, read_card, mifare_select, mifare_set_key, mifare_authenticate, mifare_read_block,
  felica_transact, radio_set, call,
}
use pareader.Sega.Parser.Invariant.{IsWellFormed, sega_receive-IsWellFormed}
use pareader.Sega.Parser.Preserve.{sega_receive-keeps}
use pareader.Prhp.{prhp_dispatch, prhp_publish_card_state, send_error}
use pareader.Cardio.{cardio_publish_card_state}
use pareader.App.{
  App, machine_usb, same_card, publish, now, clocked, handle, handle_received, observe, scan_card,
  receive_message, round, run,
}

-- The statics of the reader, the stored card, and the parser are as their parts want them.
pub record IsApp {W : Type 0} (a : App W) : Type 0 where
  pub reader : IsReader a.machine.reader
  pub current : IsValid a.current
  pub parser : IsWellFormed a.parser

-- The content of a message is an array of `uint8_t`.
pub record QueueLaws {W : Type 0} (queue : Queue W) : Type 0 where
  pub octets :
      (timeout_ms : ℕ) (w : W) (message : UsbMessage)
      → (queue.receive timeout_ms w).0 ≡ some message
      → IsBytes message.content

prhp_dispatch-reader :
    {W : Type 0} (usb : UsbDevice W) (request : Bytes) (s : Machine W)
    → (prhp_dispatch (machine_usb usb) request s).reader ≡ s.reader
unfolding prhp_dispatch send_error
prhp_dispatch-reader usb request s = ground arith

publish-reader :
    {W : Type 0} (usb : UsbDevice W) (card : Card) (m : Machine W)
    → (publish usb card m).reader ≡ m.reader
unfolding prhp_publish_card_state cardio_publish_card_state
publish-reader usb card m = refl

module _ {W : Type 0} (pn532 : Pn532Ops W) (usb : UsbDevice W) (laws : Pn532Laws pn532) where
  pub call-IsReader :
      (c : ReaderCall) (s : Machine W)
      → IsReader s.reader
      → IsReader (call (machine_usb usb) (reader_ops pn532) c s).reader
  unfolding reader_felica_transact
  call-IsReader read_card s h =
      Returns-reader (reader_read_card pn532 s) (reader_read_card-Returns pn532 laws s h)
  call-IsReader (mifare_select uid) s h =
      subst (λ (m : Machine W). IsReader m.reader) (sym (select_state pn532 uid s)) h
  call-IsReader (mifare_set_key t key) s h = set_key-IsReader pn532 t key s h
  call-IsReader (mifare_authenticate t payload n) s h = authenticate-IsReader pn532 t payload n s h
  call-IsReader (mifare_read_block uid number) s h =
      subst IsReader (sym (read_block_reader pn532 uid number s)) h
  call-IsReader (felica_transact request n capacity) s h = h
  call-IsReader (radio_set on) s h = radio_set-IsReader pn532 on s h

  hid_message-IsApp :
      (b : Bool) (content : Bytes) (a : App W)
      → IsApp a
      → IsApp (
          if b then record a { machine = prhp_dispatch (machine_usb usb) content a.machine } else a)
  hid_message-IsApp true content a h = record {
    reader = subst IsReader (sym (prhp_dispatch-reader usb content a.machine)) h.reader;
    current = h.current;
    parser = h.parser;
  }
  hid_message-IsApp false content a h = h

  handle-IsApp :
      (t : MessageType) (m : UsbMessage) (a : App W)
      → IsBytes m.content
      → IsApp a
      → IsApp (handle pn532 usb t m a)
  unfolding handle
  handle-IsApp hid m a octets h = hid_message-IsApp (m.size == 64) m.content a h
  handle-IsApp cdc m a octets h =
      let bytes = take m.size m.content in
      record {
        reader =
            sega_receive-keeps (machine_usb usb) (reader_ops pn532)
              (reader_ops-ReaderLaws pn532 laws) (λ (s : Machine W). IsReader s.reader)
              (λ sent s k. k) call-IsReader a.parser bytes a.machine h.reader;
        current = h.current;
        parser =
            sega_receive-IsWellFormed (machine_usb usb) (reader_ops pn532) a.parser bytes a.machine
              h.parser (IsBytes-take m.size m.content octets);
      }

  handle_received-IsApp :
      (o : Option UsbMessage) (a : App W)
      → ((m : UsbMessage) → o ≡ some m → IsBytes m.content)
      → IsApp a
      → IsApp (handle_received pn532 usb o a)
  handle_received-IsApp none a octets h = h
  handle_received-IsApp (some m) a octets h = handle-IsApp m.type m a (octets m refl) h

  changed_card-IsApp :
      (b : Bool) (card : Card) (m : Machine W) (a : App W)
      → IsReader m.reader
      → IsValid card
      → IsApp a
      → IsApp (
          if b
          then record a { machine = m }
          else record a { current = card; machine = publish usb card m })
  changed_card-IsApp true card m a r v h = record {
    reader = r;
    current = h.current;
    parser = h.parser;
  }
  changed_card-IsApp false card m a r v h = record {
    reader = subst IsReader (sym (publish-reader usb card m)) r;
    current = v;
    parser = h.parser;
  }

  observe-IsApp :
      (x : Result Card × Machine W) (a : App W)
      → Returns x
      → IsApp a
      → IsApp (observe pn532 usb x a)
  unfolding observe
  observe-IsApp (err e, m) a r h = record { reader = r; current = h.current; parser = h.parser }
  observe-IsApp (ok card, m) a r h =
      changed_card-IsApp (same_card a.current card) card m a r.0 r.1 h

  scan_card-IsApp : (a : App W) → IsApp a → IsApp (scan_card pn532 usb a)
  unfolding scan_card
  scan_card-IsApp a h =
      observe-IsApp (reader_read_card pn532 a.machine) a
        (reader_read_card-Returns pn532 laws a.machine h.reader) h

  module _ (queue : Queue W) (octets : QueueLaws queue) (get_time : W → ℕ × W) where
    receive_message-IsApp : (a : App W) → IsApp a → IsApp (receive_message pn532 usb queue a)
    unfolding receive_message
    receive_message-IsApp a h =
        handle_received-IsApp (queue.receive 50 a.machine.world).0 _
          (octets.octets 50 a.machine.world)
          (record { reader = h.reader; current = h.current; parser = h.parser })

    due_IsApp : (b : Bool) (x y : App W) → IsApp x → IsApp y → IsApp (if b then x else y)
    due_IsApp true x y hx hy = hx
    due_IsApp false x y hx hy = hy

    round-IsApp : (a : App W) → IsApp a → IsApp (round pn532 usb queue get_time a)
    unfolding round
    round-IsApp a h =
        let b = receive_message pn532 usb queue a in
        let k = receive_message-IsApp a h in
        due_IsApp (ltb (now get_time b) b.next_scan) _ _
          (record { reader = k.reader; current = k.current; parser = k.parser })
          (scan_card-IsApp (record (clocked get_time b) { next_scan = now get_time b + 200000 })
            (record { reader = k.reader; current = k.current; parser = k.parser }))

    -- Any number of rounds, whatever messages arrive and whatever the cards and the drivers
    -- answer within their documented sizes, keep the statics of the reader within their ranges,
    -- the stored card valid and the parser well formed.
    pub run-IsApp : (n : ℕ) (a : App W) → IsApp a → IsApp (run pn532 usb queue get_time n a)
    unfolding run
    run-IsApp zero a h = h
    run-IsApp (suc n) a h = run-IsApp n (round pn532 usb queue get_time a) (round-IsApp a h)
