-- ===== src/Sega/Spec/Nfc.antt =====
-- `dispatch_nfc` answers as the specification says.
use pareader.Base.{
  ℕ, ◌+◌, ◌≤◌, ◌≡◌, refl, ap, ◌∙◌, Bool, true, false, ◌&&◌, ◌||◌, [], ◌∷◌, ◌++◌, Bytes, byte_at,
  take, take_prefix, take_all, replicate, length, length-take, length-append, leb, ltb, ◌==◌, ◌!=◌,
  if◌then◌else◌, Option, Result, ok, err, exec, arith,
}
use pareader.Card.{Card, CardType, card_none, card_mifare, card_felica, IsSized}
use pareader.Usb.{UsbDevice}
use pareader.Reader.{ReaderOps}
use pareader.Sega.Encode.{encode_frame, decoded_response, send_response}
use pareader.Sega.Dispatch.{finish, send_card, poll_result, send_result, dispatch_nfc}
use pareader.Sega.Dispatch.Poll.{found_cards}
use pareader.Sega.Spec.{
  Command, command_table, lookup, Reply, failed, done, unit_reply, bytes_reply, card_reply, sized,
  serve, serve_code,
}

-- The arrays of a card that was read have their sizes.
abbrev pub SizedCard : Result Card → Type 0
SizedCard (ok card) = IsSized card
SizedCard (err e) = Unit {0}

-- A reply is sent in one frame, if its payload fits it, and dropped if not.
unfoldable pub deliver_reply : {S : Type 0} → UsbDevice S → Bytes → Reply × S → S
deliver_reply usb request (r, s) =
    if ltb 249 (length r.payload)
    then s
    else exec
        (usb.send_cdc
          (encode_frame (decoded_response request r.status r.payload (length r.payload))))
        s

-- A test of the code and of the table, with both branches.
pub choose :
    {A S : Type 0} (f : A → S) (b : Bool) {x y : S} {k l : A}
    → x ≡ f k
    → y ≡ f l
    → (if b then x else y) ≡ f (if b then k else l)
choose f true hx hy = hx
choose f false hx hy = hy

-- Two codes that the code tests together.
choose_two :
    {A S : Type 0} (f : A → S) (b c : Bool) {x y : S} {k l m : A}
    → (b ≡ true → x ≡ f k)
    → (b ≡ false → c ≡ true → x ≡ f l)
    → y ≡ f m
    → (if b || c then x else y) ≡ f (if b then k else (if c then l else m))
choose_two f true c hb hc hy = hb refl
choose_two f false true hb hc hy = hc refl refl
choose_two f false false hb hc hy = hy

take-take : (n : ℕ) (xs : Bytes) → take n (take n xs) ≡ take n xs
take-take ℕ.zero xs = refl
take-take (ℕ.suc n) [] = refl
take-take (ℕ.suc n) (x ∷ xs) = ap (◌∷◌ x) (take-take n xs)

module _ {S : Type 0} (usb : UsbDevice S) (reader : ReaderOps S) (request : Bytes) where
  -- What the code sends is the reply of its first bytes.
  pub send_deliver :
      (status : ℕ) (payload : Bytes) (n : ℕ) (s : S)
      → n ≤ length payload
      → send_response usb request status payload n s
        ≡ deliver_reply usb request (record { status = status; payload = take n payload }, s)
  unfolding send_response deliver_reply decoded_response
  send_deliver status payload n s h =
      let size : length (take n payload) ≡ n = omega (arith, length-take n payload) in
      rw (size, take-take n payload) refl

  finish_deliver :
      (r : Result (Unit {0}) × S)
      → finish usb reader request r ≡ deliver_reply usb request (unit_reply r.0, r.1)
  unfolding finish
  finish_deliver (ok _, s) = send_deliver 0 [] 0 s (omega arith)
  finish_deliver (err e, s) = send_deliver 1 [] 0 s (omega arith)

  result_deliver :
      (r : Result Bytes × S)
      → send_result usb reader request r ≡ deliver_reply usb request (bytes_reply r.0, r.1)
  unfolding send_result
  result_deliver (err e, s) = finish_deliver (err e, s)
  result_deliver (ok bytes, s) =
      send_deliver 0 bytes (length bytes) s (omega arith)
      ∙ ap (λ (t : Bytes). deliver_reply usb request (done t, s))
          (take_all bytes (length bytes) refl)

  card_deliver :
      (type : CardType) (card : Card) (s : S)
      → IsSized card
      → send_card usb reader request type card s
        ≡ deliver_reply usb request (done (found_cards type card), s)
  unfolding send_card
  card_deliver card_none card s h = send_deliver 0 (replicate 19 0) 1 s (omega arith)
  card_deliver card_mifare card s h =
      let uid = card.mifare_uid in
      let whole : take 4 (take 4 uid ++ replicate 12 0) ≡ uid =
        rw (take_all uid 4 h.uid_size) (take_prefix uid (replicate 12 0) 4 h.uid_size) in
      send_deliver 0 (1 ∷ 0x10 ∷ 4 ∷ (take 4 uid ++ replicate 12 0)) 7 s
        (omega (arith, length-append (take 4 uid) (replicate 12 0)))
      ∙ ap (λ (t : Bytes). deliver_reply usb request (done (1 ∷ 0x10 ∷ 4 ∷ t), s)) whole
  card_deliver card_felica card s h =
      let both = card.idm ++ card.pmm in
      let size : length both ≡ 16 =
        omega (arith, h.idm_size, h.pmm_size, length-append card.idm card.pmm) in
      let arrays : take 8 card.idm ++ take 8 card.pmm ≡ both =
        rw (take_all card.idm 8 h.idm_size, take_all card.pmm 8 h.pmm_size) refl in
      let whole : take 16 (take 8 card.idm ++ take 8 card.pmm) ≡ both =
        rw arrays (take_all both 16 size) in
      send_deliver 0 (1 ∷ 0x20 ∷ 16 ∷ (take 8 card.idm ++ take 8 card.pmm)) 19 s
        (rw arrays (omega (arith, size)))
      ∙ ap (λ (t : Bytes). deliver_reply usb request (done (1 ∷ 0x20 ∷ 16 ∷ t), s)) whole

  poll_deliver :
      (r : Result Card × S)
      → SizedCard r.0
      → poll_result usb reader request r ≡ deliver_reply usb request (card_reply r.0, r.1)
  unfolding poll_result
  poll_deliver (ok card, s) h = card_deliver card.type card s h
  poll_deliver (err e, s) h = finish_deliver (err e, s)

  -- A size test of the code against the one of the specification.
  size_deliver :
      (bad fits : Bool) (e : Result (Unit {0})) (s : S) {x : S} (answer : Reply × S)
      → unit_reply e ≡ failed
      → (bad ≡ true → fits ≡ false) × (bad ≡ false → fits ≡ true)
      → x ≡ deliver_reply usb request answer
      → (if bad then finish usb reader request (e, s) else x)
        ≡ deliver_reply usb request (sized fits s answer)
  size_deliver true fits e s answer fails (agree, _) h =
      rw (agree refl)
        (finish_deliver (e, s) ∙ ap (λ (r : Reply). deliver_reply usb request (r, s)) fails)
  size_deliver false fits e s answer fails (_, agree) h = rw (agree refl) h

  -- The size test of a FeliCa packet.
  packet_fits :
      (n size : ℕ)
      → (ltb n 9 || n != 8 + size ≡ true → leb 9 n && n == 8 + size ≡ false)
        × (ltb n 9 || n != 8 + size ≡ false → leb 9 n && n == 8 + size ≡ true)
  packet_fits n size = ((λ h. ground arith), (λ h. ground arith))

  not_fits : (n m : ℕ) → (n != m ≡ true → n == m ≡ false) × (n != m ≡ false → n == m ≡ true)
  not_fits n m = ((λ h. ground arith), (λ h. ground arith))

  -- An NFC request is answered as the table of commands says.
  pub dispatch_nfc-serves :
      (payload : Bytes) (n : ℕ) (s : S)
      → SizedCard (reader.read_card s).0
      → dispatch_nfc usb reader request payload n s
        ≡ deliver_reply usb request
            (serve_code reader (lookup command_table (byte_at request 3)) payload n s)
  unfolding dispatch_nfc serve
  dispatch_nfc-serves payload n s h =
      let command = byte_at request 3 in
      let f : Option Command → S =
        λ k. deliver_reply usb request (serve_code reader k payload n s) in
      choose f (command == 0x62) (send_deliver 3 [] 0 s (omega arith)) (
        choose f (command == 0x30) (send_deliver 0 _ 1 s (omega arith)) (
          choose f (command == 0x32) (send_deliver 0 _ 9 s (omega arith)) (
            choose f (command == 0x40) (finish_deliver _) (
              choose f (command == 0x41) (finish_deliver _) (
                choose f (command == 0x42) (poll_deliver _ h) (
                  choose f (command == 0x43)
                    (size_deliver (n != 4) (n == 4) _ s _ refl (not_fits n 4) (finish_deliver _))
                    (choose_two f (command == 0x50) (command == 0x54)
                      (λ e. rw e (
                        size_deliver (n != 6) (n == 6) _ s _ refl (not_fits n 6)
                          (finish_deliver _)))
                      (λ e d. rw e (
                        size_deliver (n != 6) (n == 6) _ s _ refl (not_fits n 6)
                          (finish_deliver _)))
                      (choose_two f (command == 0x51) (command == 0x55)
                        (λ e. rw e (finish_deliver _)) (λ e d. rw e (finish_deliver _))
                        (choose f (command == 0x52)
                          (size_deliver (n != 5) (n == 5) _ s _ refl (not_fits n 5)
                            (result_deliver _))
                          (choose f (command == 0x71)
                            (size_deliver _ _ _ s _ refl (packet_fits n _) (result_deliver _))
                            (choose f (command == 0x60) (finish_deliver _) (
                              choose f (command == 0x61) (send_deliver _ [] 0 s (omega arith))
                                (send_deliver 1 [] 0 s (omega arith))))))))))))))
