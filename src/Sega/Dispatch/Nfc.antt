-- ===== src/Sega/Dispatch/Nfc.antt =====
-- The NFC commands of dispatch_nfc, one by one: the answer, or what is called without one.
use pareader.Base.{
  ℕ, ◌+◌, ◌≤◌, ◌≡◌, refl, inl, inr, Bool, true, false, ◌||◌, [], arith, Bytes, byte_at, drop, take,
  length, ltb, ◌==◌, ◌!=◌, if◌then◌else◌, ==_iff, dec_lt, sym, ap, ◌∙◌, Result, ok, err,
}
use pareader.Usb.{UsbDevice}
use pareader.Reader.{ReaderOps, ReaderLaws}
use pareader.Sega.Encode.{send_response}
use pareader.Sega.Dispatch.{finish, send_result, dispatch_nfc}
use pareader.Sega.Dispatch.Replies.{
  ReaderCall, read_card, mifare_select, mifare_set_key, mifare_authenticate, mifare_read_block,
  felica_transact, radio_set, call, Responds, Answers, send_response-Responds, finish-Responds,
  poll_result-Responds, send_result-Responds, send_response-oversize,
}

module _ {S : Type 0} (usb : UsbDevice S) (reader : ReaderOps S) where
  module _ (request payload : Bytes) (s : S) where
    at_once : {s' : S} → Responds usb reader request s s' → Answers usb reader request payload s s'
    at_once r = inl (record { between = s; called = inl refl; responds = r })

    after :
        (c : ReaderCall) {t s' : S}
        → t ≡ call usb reader c s
        → Responds usb reader request t s'
        → Answers usb reader request payload s s'
    after c {t} e r = inl (record { between = t; called = inr (c, e); responds = r })

    -- A test of the code, with both branches.
    branch :
        (b : Bool) {x y : S}
        → (b ≡ true → Answers usb reader request payload s x)
        → Answers usb reader request payload s y
        → Answers usb reader request payload s (if b then x else y)
    branch true hx hy = hx refl
    branch false hx hy = hy

    plain :
        (status : ℕ) (content : Bytes) (n : ℕ)
        → n ≤ 249
        → Answers usb reader request payload s (send_response usb request status content n s)
    plain status content n h =
        at_once (send_response-Responds usb reader request status content n s h)

    finished :
        (c : ReaderCall) (r : Result (Unit {0}) × S)
        → r.1 ≡ call usb reader c s
        → Answers usb reader request payload s (finish usb reader request r)
    finished c r e = after c e (finish-Responds usb reader request r)

    at_break :
        (r : Result (Unit {0}))
        → Answers usb reader request payload s (finish usb reader request (r, s))
    at_break r = at_once (finish-Responds usb reader request (r, s))

    felica_result :
        byte_at request 3 ≡ 0x71
        → (r : Result Bytes × S)
        → reader.felica_transact
            (take (byte_at payload 8) (drop 8 payload))
            (byte_at payload 8)
            250
            s
          ≡ r
        → ((response : Bytes) → r.0 ≡ ok response → length response ≤ 250)
        → Answers usb reader request payload s (send_result usb reader request r)
    unfolding send_result
    felica_result command (err e, t) h fits =
        after (felica_transact (take (byte_at payload 8) (drop 8 payload)) (byte_at payload 8) 250)
          (sym (ap (λ (r : Result Bytes × S). r.1) h))
          (finish-Responds usb reader request (err e, t))
    felica_result command (ok response, t) h fits = elim (dec_lt 249 (length response)) [
      | yes long ↦ inr (record {
        response = response;
        command = command;
        returned = ap (λ (r : Result Bytes × S). r.0) h;
        size = omega (arith, fits response refl);
        unsent =
            send_response-oversize usb reader request 0 response (length response) t long
            ∙ sym (ap (λ (r : Result Bytes × S). r.1) h);
      })
      | no short ↦
          after
            (felica_transact (take (byte_at payload 8) (drop 8 payload)) (byte_at payload 8) 250)
            (sym (ap (λ (r : Result Bytes × S). r.1) h))
            (send_response-Responds usb reader request 0 response (length response) t (omega arith))
    ]

    block_result :
        (uid : Bytes) (number : ℕ)
        → ReaderLaws reader
        → Answers usb reader request payload s
            (send_result usb reader request (reader.mifare_read_block uid number s))
    block_result uid number laws = after (mifare_read_block uid number) refl (
        send_result-Responds usb reader request (reader.mifare_read_block uid number s)
          (λ response h. omega (arith, laws.block_size uid number s response h)))

    -- An NFC request is answered once, whatever its command, after at most one operation of the
    -- reader; the only exception is a FeliCa response of 250 bytes, which is dropped.
    pub dispatch_nfc-Answers :
        (payload_size : ℕ)
        → ReaderLaws reader
        → Answers usb reader request payload s
            (dispatch_nfc usb reader request payload payload_size s)
    unfolding dispatch_nfc
    dispatch_nfc-Answers n laws =
        let command = byte_at request 3 in
        branch (command == 0x62) (λ _. plain 3 [] 0 (omega arith))
          (branch (command == 0x30) (λ _. plain 0 _ 1 (omega arith))
            (branch (command == 0x32) (λ _. plain 0 _ 9 (omega arith))
              (branch (command == 0x40) (λ _. finished (radio_set true) _ refl)
                (branch (command == 0x41) (λ _. finished (radio_set false) _ refl)
                  (branch (command == 0x42)
                    (λ _. after read_card refl (poll_result-Responds usb reader request _))
                    (branch (command == 0x43)
                      (λ _.
                        branch (n != 4) (λ _. at_break _)
                          (finished (mifare_select (take 4 payload)) _ refl))
                      (branch (command == 0x50 || command == 0x54)
                        (λ _.
                          branch (n != 6) (λ _. at_break _)
                            (finished (mifare_set_key _ (take 6 payload)) _ refl))
                        (branch (command == 0x51 || command == 0x55)
                          (λ _. finished (mifare_authenticate _ payload n) _ refl)
                          (branch (command == 0x52)
                            (λ _. branch (n != 5) (λ _. at_break _) (block_result _ _ laws))
                            (branch (command == 0x71)
                              (λ e.
                                branch (ltb n 9 || n != 8 + byte_at payload 8) (λ _. at_break _)
                                  (felica_result ((==_iff _ 0x71).0 e) _ refl
                                    (λ response h. laws.felica_size _ _ 250 s response h)))
                              (branch (command == 0x60) (λ _. at_break _)
                                (branch (command == 0x61) (λ _. plain _ [] 0 (omega arith))
                                  (plain 1 [] 0 (omega arith))))))))))))))
