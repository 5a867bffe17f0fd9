-- ===== src/Tests/Loop.antt =====
-- Witnesses for the times and the messages of the main loop.
use pareader.Base.{
  ℕ, ◌+◌, ◌*◌, Bool, ◌≡◌, ◌≢◌, ◌⊎◌, refl, Bool-cases, inl, inr, true, false, List, [], ◌∷◌, ◌++◌,
  append-nil, length, replicate, ltb, arith, Option, none, ok, if◌then◌else◌,
}
use pareader.Card.{Card, card_mifare, zero_card}
use pareader.Usb.{UsbDevice}
use pareader.Usb.Messages.{UsbMessage, Queue}
use pareader.Usb.Init.{messages_length}
use pareader.Reader.ReadCard.{
  reader_read_card, scan, after_felica, read_type_a, after_type_a, read_mifare, after_aime,
  read_mifare_with_key,
}
use pareader.Reader.Luid.{valid_luid, luid_loop}
use pareader.Prhp.{prhp_publish_card_state}
use pareader.Cardio.{cardio_publish_card_state}
use pareader.App.{App, run, round, receive_message, handle, scan_card, observe, same_card}
use pareader.App.Log.{LogLaws, reports}
use pareader.App.Schedule.{TimeLaws, Reads}
use pareader.App.Schedule.Spacing.{Spaced, times, Steps, run-Spaced}
use pareader.App.Schedule.Settling.{run-settles}
use pareader.App.Events.{
  Event, hid_report, cdc_bytes, turn, head_of, tail_of, taken, FifoLaws, happen_all, taken_all,
}
use pareader.App.Events.Order.{happen_all-Runs}
use pareader.App.Events.Turns.{Runs}
use pareader.Tests.Setup.{
  World, recorder, field, field_in, field_in-Pn532Laws, field-Pn532Laws, with_tag, app, idle_parser,
  polling_queue, get_time, sent_log, field-LogKeeps,
}

run-Spaced_example :
    (rounds : List (Option ℕ)) × (length rounds ≡ 3)
    × Steps field recorder polling_queue get_time rounds app
        (run field recorder polling_queue get_time 3 app)
    × Spaced 0 (times rounds)
run-Spaced_example = run-Spaced field recorder polling_queue get_time 3 app

-- A host that sends nothing.
abbrev silent_queue : Queue World
silent_queue = record {
  send = λ message w. (true, w);
  receive = λ timeout_ms w. (none, record w { time = w.time + timeout_ms * 1000 });
  cdc_read = λ interface_id size w. (ok [], w);
}

silent_queue-TimeLaws : TimeLaws field recorder silent_queue get_time 50000
silent_queue-TimeLaws = record {
  reading = λ w. omega arith;
  receiving = λ w. omega arith;
  driver = λ t. record {
    set_radio = λ on w h. h;
    poll_type_a = λ target found w h. h;
    poll_felica = λ code target found w h. h;
    authenticate = λ target auth_command block key uid w h. h;
    read_block = λ target block w h. h;
    transact = λ target request n capacity w h. h;
  };
  sends = λ t. record {
    prhp = λ report w h. h;
    cardio = λ report_id card_id w h. h;
    cdc = λ bytes w h. h;
  };
}

-- The card that is read of the tag in the field.
abbrev seen : Card
seen = record zero_card {
  type = card_mifare;
  mifare_uid = 1 ∷ 2 ∷ 3 ∷ 4 ∷ [];
  luid = replicate 10 0x11;
  blocks = replicate 32 0x11;
  has_blocks = true;
}

seen-Reads : Reads field recorder silent_queue get_time seen 4 app
unfolding round receive_message handle scan_card observe same_card reader_read_card scan
    after_felica read_type_a after_type_a read_mifare after_aime read_mifare_with_key valid_luid
    luid_loop prhp_publish_card_state cardio_publish_card_state
seen-Reads = ((λ due. refl), ((λ due. refl), ((λ due. refl), ((λ due. refl), tt))))

silent_queue-LogLaws : LogLaws field recorder silent_queue get_time sent_log
silent_queue-LogLaws = record {
  signals = λ report w e. rw e refl;
  cards = λ report_id card_id w. refl;
  answers = λ l. record { prhp = λ report w e h. rw e h; cdc = λ bytes w h. h };
  driver = field-LogKeeps;
  receiving = λ timeout_ms w. refl;
  clock = λ w. refl;
}

run-settles_example :
    ((run field recorder silent_queue get_time 4 app).current ≡ seen)
    × (((seen ≡ zero_card)
          × (sent_log (run field recorder silent_queue get_time 4 app).machine.world ≡ []))
        ⊎ ((seen ≢ zero_card)
            × (sent_log (run field recorder silent_queue get_time 4 app).machine.world
                ≡ [] ++ reports seen)))
run-settles_example =
    run-settles field recorder silent_queue get_time sent_log field-Pn532Laws silent_queue-LogLaws
      50000 silent_queue-TimeLaws seen 4 app (omega arith) seen-Reads (omega arith)

-- A firmware whose world is the message queue.
record Mailbox : Type 0 where
  messages : List UsbMessage

abbrev post : UsbMessage → Mailbox → Bool × Mailbox
post message w =
    if ltb (length w.messages) messages_length
    then (true, record { messages = w.messages ++ (message ∷ []) })
    else (false, w)

abbrev mailbox : Queue Mailbox
mailbox = record {
  send = post;
  receive = λ timeout_ms w. (head_of w.messages, record { messages = tail_of w.messages });
  cdc_read = λ interface_id size w. (ok (0xE0 ∷ 5 ∷ []), w);
}

abbrev quiet : UsbDevice Mailbox
quiet = record {
  send_prhp = λ report w. (ok tt, w);
  send_cardio = λ report_id card_id w. (ok tt, w);
  send_cdc = λ bytes w. (ok tt, w);
}

abbrev no_time : Mailbox → ℕ × Mailbox
no_time w = (0, w)

abbrev contents : Mailbox → List UsbMessage
contents w = w.messages

post-taken :
    (message : UsbMessage) (w : Mailbox)
    → (post message w).1.messages ≡ w.messages ++ taken w.messages (message ∷ [])
post-taken message w = elim (Bool-cases (ltb (length w.messages) messages_length)) [
  | inl room ↦ rw room refl
  | inr full ↦ rw (full, append-nil) refl
]

mailbox-FifoLaws : FifoLaws field_in quiet mailbox no_time contents
mailbox-FifoLaws = record {
  sending = post-taken;
  received = λ timeout_ms w. refl;
  receiving = λ timeout_ms w. refl;
  reading = λ interface_id n w. refl;
  clock = λ w. refl;
  driver = λ ms. record {
    set_radio = λ on w h. h;
    poll_type_a = λ target found w h. h;
    poll_felica = λ code target found w h. h;
    authenticate = λ target auth_command block key uid w h. h;
    read_block = λ target block w h. h;
    transact = λ target request n capacity w h. h;
  };
  sends = λ ms. record {
    prhp = λ report w h. h;
    cardio = λ report_id card_id w h. h;
    cdc = λ bytes w h. h;
  };
}

abbrev waiting_app : App Mailbox
waiting_app = record {
  current = zero_card;
  next_scan = 0;
  parser = idle_parser;
  machine = record { reader = with_tag; world = record { messages = [] } };
}

-- A PRHP report and bytes on CDC arrive, the loop turns twice, and another report comes.
abbrev traffic : List Event
traffic =
    hid_report 0 0 2 (replicate 64 1)
    ∷ cdc_bytes 0
    ∷ turn
    ∷ turn
    ∷ hid_report 0 0 2 (replicate 64 2)
    ∷ []

happen_all-Runs_example :
    (ms : List UsbMessage) × Runs field_in quiet mailbox no_time traffic waiting_app ms
      (happen_all field_in quiet mailbox no_time contents traffic waiting_app)
    × (ms
          ++ (happen_all field_in quiet mailbox no_time contents traffic
              waiting_app).machine.world.messages
        ≡ [] ++ taken_all field_in quiet mailbox no_time contents traffic waiting_app)
happen_all-Runs_example =
    happen_all-Runs field_in quiet mailbox no_time contents field_in-Pn532Laws mailbox-FifoLaws
      traffic waiting_app
