-- ===== src/Sega/Dispatch/Outcome.antt =====
-- What `dispatch` does with every request, and the FeliCa response that gets lost.
use pareader.Base.{
  ℕ, ◌+◌, ◌-◌, ◌≤◌, ◌<◌, ◌≡◌, ◌≢◌, refl, inl, inr, true, false, ◌||◌, [], ◌∷◌, arith, Bytes,
  byte_at, drop, take, length, ltb, ◌==◌, ◌!=◌, Bool-cases, exec, Result, ok, err, ==_iff, ne_of_==,
}
use pareader.Usb.{UsbDevice}
use pareader.Reader.{ReaderOps, ReaderLaws}
use pareader.Sega.Dispatch.{send_result, dispatch_nfc, dispatch_led, dispatch}
use pareader.Sega.Dispatch.Nfc.{dispatch_nfc-Answers}
use pareader.Sega.Dispatch.Replies.{
  Responds, send_response-Responds, send_response-oversize, Answers,
}

-- The length bytes of a request agree with its size.
abbrev pub IsRequest : Bytes → ℕ → Type 0
IsRequest request size = (5 ≤ size) × (byte_at request 0 ≡ size) × (byte_at request 4 + 5 ≡ size)

module _ {S : Type 0} (usb : UsbDevice S) (reader : ReaderOps S) where
  -- The cases of a dispatch from `s` to `s'`.
  pub data Outcome (request : Bytes) (size : ℕ) (s s' : S) : Type 0 where
    malformed : ¬ IsRequest request size → s' ≡ s → Outcome request size s s'
    nfc :
        IsRequest request size
        → byte_at request 1 ≡ 0x00
        → Answers usb reader request (drop 5 request) s s'
        → Outcome request size s s'
    led :
        IsRequest request size
        → byte_at request 1 ≡ 0x08
        → byte_at request 3 ≢ 0x81
        → Responds usb reader request s s'
        → Outcome request size s s'
    set_color :
        IsRequest request size
        → byte_at request 1 ≡ 0x08
        → byte_at request 3 ≡ 0x81
        → s' ≡ s
        → Outcome request size s s'
    foreign :
        IsRequest request size
        → byte_at request 1 ≢ 0x00
        → byte_at request 1 ≢ 0x08
        → s' ≡ s
        → Outcome request size s s'

  dispatch_led-Responds :
      (request payload : Bytes) (n : ℕ) (s : S)
      → byte_at request 3 ≢ 0x81
      → Responds usb reader request s (dispatch_led usb reader request payload n s)
  unfolding dispatch_led
  dispatch_led-Responds request payload n s other = elim (Bool-cases (byte_at request 3 == 0x81)) [
    | inl same ↦ absurd (other ((==_iff _ 0x81).0 same))
    | inr differs ↦ rw differs (elim (Bool-cases (byte_at request 3 == 0xF5)) [
      | inl reset ↦
          rw reset (send_response-Responds usb reader request 0 (0 ∷ []) 1 s (omega arith))
      | inr e ↦ rw e (elim (Bool-cases (byte_at request 3 == 0xF0)) [
        | inl info ↦ rw info (send_response-Responds usb reader request 0 _ 12 s (omega arith))
        | inr unknown ↦
            rw unknown (send_response-Responds usb reader request 1 [] 0 s (omega arith))
      ])
    ])
  ]

  set_color-same :
      (request payload : Bytes) (n : ℕ) (s : S)
      → byte_at request 3 ≡ 0x81
      → dispatch_led usb reader request payload n s ≡ s
  unfolding dispatch_led
  set_color-same request payload n s e = ground arith

  dispatch-malformed :
      (request : Bytes) (size : ℕ) (s : S)
      → (ltb size 5 || byte_at request 0 != size || byte_at request 4 != size - 5) ≡ true
      → (¬ IsRequest request size) × (dispatch usb reader request size s ≡ s)
  unfolding dispatch
  dispatch-malformed request size s e = (ground arith, ground arith)

  well_formed :
      (request : Bytes) (size : ℕ)
      → (ltb size 5 || byte_at request 0 != size || byte_at request 4 != size - 5) ≡ false
      → IsRequest request size
  well_formed request size e = ground arith

  -- A request whose length bytes are wrong, or for another address, changes nothing and gets no
  -- response. An NFC request is answered as `Answers` says. An LED request is answered once with
  -- no call of the reader, but for `SG_LED_SET_COLOR`, which does nothing.
  pub dispatch-Outcome :
      (request : Bytes) (size : ℕ) (s : S)
      → ReaderLaws reader
      → Outcome request size s (dispatch usb reader request size s)
  unfolding dispatch
  dispatch-Outcome request size s laws =
      elim (Bool-cases (ltb size 5 || byte_at request 0 != size || byte_at request 4 != size - 5)) [
        | inl bad ↦
            malformed (dispatch-malformed request size s bad).0
              (dispatch-malformed request size s bad).1
        | inr good ↦
            let fine = well_formed request size good in
            rw good (elim (Bool-cases (byte_at request 1 == 0x00)) [
              | inl is_nfc ↦ rw is_nfc (
                  nfc fine ((==_iff _ 0x00).0 is_nfc) (
                    dispatch_nfc-Answers usb reader request (drop 5 request) s (byte_at request 4)
                      laws))
              | inr not_nfc ↦ rw not_nfc (elim (Bool-cases (byte_at request 1 == 0x08)) [
                | inl is_led ↦ rw is_led (led_case fine ((==_iff _ 0x08).0 is_led))
                | inr not_led ↦
                    rw not_led
                      (foreign fine (ne_of_== _ 0x00 not_nfc) (ne_of_== _ 0x08 not_led) refl)
              ])
            ])
      ]
    where
      led_case :
          IsRequest request size
          → byte_at request 1 ≡ 0x08
          → Outcome request size s
              (dispatch_led usb reader request (drop 5 request) (byte_at request 4) s)
      led_case fine e = elim (Bool-cases (byte_at request 3 == 0x81)) [
        | inl color ↦ set_color fine e ((==_iff _ 0x81).0 color) (
            set_color-same request (drop 5 request) (byte_at request 4) s ((==_iff _ 0x81).0 color))
        | inr other ↦
            let differs : byte_at request 3 ≢ 0x81 = ne_of_== _ 0x81 other in
            led fine e differs
              (dispatch_led-Responds request (drop 5 request) (byte_at request 4) s differs)
      ]

  dropped :
      (request : Bytes) (r : Result Bytes × S) (response : Bytes)
      → r.0 ≡ ok response
      → 249 < length response
      → send_result usb reader request r ≡ r.1
  unfolding send_result
  dropped request (ok found, t) response e long =
      send_response-oversize usb reader request 0 found (length found) t (ground arith)
  dropped request (err x, t) response e long = cc

  -- A FeliCa command that is well formed, and that the card answers with more than 249 bytes,
  -- gets no response at all: the state is the one that the exchange with the card leaves.
  pub dispatch_nfc-drops :
      (request payload : Bytes) (payload_size : ℕ) (s : S) (response : Bytes)
      → byte_at request 3 ≡ 0x71
      → 9 ≤ payload_size
      → payload_size ≡ 8 + byte_at payload 8
      → (reader.felica_transact
          (take (byte_at payload 8) (drop 8 payload))
          (byte_at payload 8)
          250
          s).0
        ≡ ok response
      → 249 < length response
      → dispatch_nfc usb reader request payload payload_size s
        ≡ exec
            (reader.felica_transact
              (take (byte_at payload 8) (drop 8 payload))
              (byte_at payload 8)
              250)
            s
  unfolding dispatch_nfc
  dispatch_nfc-drops request payload n s response command room size found long = rw command (
      ground (
        arith,
        dropped request
            (reader.felica_transact (take (byte_at payload 8) (drop 8 payload)) (byte_at payload 8)
              250 s)
            response found long,
      ))
