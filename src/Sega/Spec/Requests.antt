-- ===== src/Sega/Spec/Requests.antt =====
-- `dispatch` answers as the specification says, whatever the request.
use pareader.Base.{
  ℕ, suc, ◌+◌, ◌-◌, ◌≡◌, refl, ap, ◌∙◌, Bool, true, false, ◌&&◌, ◌||◌, [], ◌∷◌, Bytes, byte_at,
  length, ltb, ◌==◌, ◌!=◌, if◌then◌else◌, Option, none, some, arith,
}
use pareader.Usb.{UsbDevice}
use pareader.Reader.{ReaderOps}
use pareader.Sega.Dispatch.{dispatch_nfc, dispatch_led, dispatch}
use pareader.Sega.Spec.{
  lookup, Reply, command_table, serve_code, LedCommand, led_table, serve_led, Board, board_table,
  Request, request_of, serve_board, serve_request,
}
use pareader.Sega.Spec.Nfc.{SizedCard, deliver_reply, choose, send_deliver, dispatch_nfc-serves}

-- The test of the lengths in the code, and the one of the specification.
length_tests :
    (size n payload : ℕ)
    → let fits = size == 5 + n && n == payload in
      let whole = suc (suc (suc (suc (suc payload)))) in
      let bad = ltb whole 5 || size != whole || n != whole - 5 in
      (fits ≡ true → (bad ≡ false) × (n ≡ payload)) × (fits ≡ false → bad ≡ true)
length_tests size n payload = ((λ h. (ground arith, ground arith)), (λ h. ground arith))

same_branches : {A : Type 0} (b : Bool) (x : A) → (if b then x else x) ≡ x
same_branches true x = refl
same_branches false x = refl

-- A test that guards the code, against one that finds a request.
guarded :
    {A S : Type 0} (f : Option A → S) (bad good : Bool) (r : A) {s x : S}
    → (good ≡ true → (bad ≡ false) × (x ≡ f (some r)))
    → (good ≡ false → bad ≡ true)
    → s ≡ f none
    → (if bad then s else x) ≡ f (if good then some r else none)
guarded f bad true r accepted rejected h = let (fine, e) = accepted refl in rw fine e
guarded f bad false r accepted rejected h = rw (rejected refl) h

module _ {S : Type 0} (usb : UsbDevice S) (reader : ReaderOps S) where
  -- What is sent of an answer, if there is one.
  abbrev pub deliver : Bytes → Option Reply × S → S
  deliver body (none, s) = s
  deliver body (some reply, s) = deliver_reply usb body (reply, s)

  dispatch_led-serves :
      (body payload : Bytes) (n : ℕ) (s : S)
      → dispatch_led usb reader body payload n s
        ≡ deliver body (serve_led (lookup led_table (byte_at body 3)), s)
  unfolding dispatch_led
  dispatch_led-serves body payload n s =
      let code = byte_at body 3 in
      let f : Option LedCommand → S = λ k. deliver body (serve_led k, s) in
      choose f (code == 0x81) (same_branches (n == 3) s) (
        choose f (code == 0xF5) (send_deliver usb reader body 0 (0 ∷ []) 1 s (omega arith)) (
          choose f (code == 0xF0) (send_deliver usb reader body 0 _ 12 s (omega arith))
            (send_deliver usb reader body 1 [] 0 s (omega arith))))

  board-serves :
      (size address sequence code n : ℕ) (payload : Bytes) (s : S)
      → n ≡ length payload
      → SizedCard (reader.read_card s).0
      → let body : Bytes = size ∷ address ∷ sequence ∷ code ∷ n ∷ payload in
        (if address == 0x00
          then dispatch_nfc usb reader body payload n s
          else if address == 0x08
          then dispatch_led usb reader body payload n s
          else s)
        ≡ deliver body (serve_board reader (lookup board_table address) code payload s)
  board-serves size address sequence code n payload s e h =
      let body : Bytes = size ∷ address ∷ sequence ∷ code ∷ n ∷ payload in
      let f : Option Board → S = λ k. deliver body (serve_board reader k code payload s) in
      choose f (address == 0x00)
        (dispatch_nfc-serves usb reader body payload n s h
          ∙ ap
              (λ (k : ℕ).
                deliver_reply usb body (serve_code reader (lookup command_table code) payload k s))
              e)
        (choose f (address == 0x08) (dispatch_led-serves body payload n s) refl)

  -- `dispatch` does with every list of bytes what the specification says of the request that they
  -- are: the length bytes, the address and the command are looked up, the NFC command is carried
  -- out by the reader, and the answer, if there is one, is sent in one frame, or dropped if its
  -- payload is longer than 249 bytes. What is not a request, or is for another address, is
  -- dropped. A card that is read has arrays of their sizes.
  pub dispatch-serves :
      (body : Bytes) (s : S)
      → SizedCard (reader.read_card s).0
      → dispatch usb reader body (length body) s
        ≡ deliver body (serve_request reader (request_of body) s)
  unfolding dispatch
  dispatch-serves [] s h = refl
  dispatch-serves (a ∷ []) s h = refl
  dispatch-serves (a ∷ b ∷ []) s h = refl
  dispatch-serves (a ∷ b ∷ c ∷ []) s h = refl
  dispatch-serves (a ∷ b ∷ c ∷ d ∷ []) s h = refl
  dispatch-serves (size ∷ address ∷ sequence ∷ code ∷ n ∷ payload) s h =
      let (accepted, rejected) = length_tests size n (length payload) in
      let body : Bytes = size ∷ address ∷ sequence ∷ code ∷ n ∷ payload in
      let f : Option Request → S = λ k. deliver body (serve_request reader k s) in
      guarded f _ (size == 5 + n && n == length payload)
        (record { board = lookup board_table address; code = code; payload = payload })
        (λ good.
          let (fine, e) = accepted good in
          (fine, board-serves size address sequence code n payload s e h))
        rejected refl
