-- ===== src/Sega/Dispatch/Replies.antt =====
-- A request, the operation of the reader that it causes, if any, and the answers.
use pareader.Base.{
  ℕ, ◌≤◌, ◌<◌, ◌≡◌, refl, ◌⊎◌, Bool, [], arith, Bytes, byte_at, drop, take, length, exec, Result,
  ok, err,
}
use pareader.Usb.{UsbDevice}
use pareader.Reader.{ReaderOps}
use pareader.Card.{Card, CardType, card_none, card_mifare, card_felica}
use pareader.Sega.Encode.{encode_frame, decoded_response, send_response}
use pareader.Sega.Dispatch.{finish, send_card, poll_result, send_result}

-- The calls that a request can make of the reader.
pub data ReaderCall : Type 0 where
  read_card : ReaderCall
  mifare_select : Bytes → ReaderCall
  mifare_set_key : ℕ → Bytes → ReaderCall
  mifare_authenticate : ℕ → Bytes → ℕ → ReaderCall
  mifare_read_block : Bytes → ℕ → ReaderCall
  felica_transact : Bytes → ℕ → ℕ → ReaderCall
  radio_set : Bool → ReaderCall

module _ {S : Type 0} (usb : UsbDevice S) (reader : ReaderOps S) where
  -- The state after a call.
  abbrev pub call : ReaderCall → S → S
  call read_card s = exec reader.read_card s
  call (mifare_select uid) s = exec (reader.mifare_select uid) s
  call (mifare_set_key t key) s = exec (reader.mifare_set_key t key) s
  call (mifare_authenticate t payload n) s = exec (reader.mifare_authenticate t payload n) s
  call (mifare_read_block uid b) s = exec (reader.mifare_read_block uid b) s
  call (felica_transact request n capacity) s = exec (reader.felica_transact request n capacity) s
  call (radio_set on) s = exec (reader.radio_set on) s

  -- `t` is `s` after at most one call of the reader.
  abbrev pub Called : S → S → Type 0
  Called s t = (t ≡ s) ⊎ ((c : ReaderCall) × (t ≡ call c s))

  -- `s'` is `t` after one response to the request was sent, of at most 249 bytes of payload.
  pub record Responds (request : Bytes) (t s' : S) : Type 0 where
    pub status : ℕ
    pub payload : Bytes
    pub size : ℕ
    pub fits : size ≤ 249
    pub sent :
        s' ≡ exec (usb.send_cdc (encode_frame (decoded_response request status payload size))) t

  -- At most one call of the reader, and then one response.
  pub record Replies (request : Bytes) (s s' : S) : Type 0 where
    pub between : S
    pub called : Called s between
    pub responds : Responds request between s'

  -- The FeliCa command, answered by the card with 250 bytes: the call was made, nothing was sent.
  pub record IsSilent (request payload : Bytes) (s s' : S) : Type 0 where
    pub response : Bytes
    pub command : byte_at request 3 ≡ 0x71
    pub returned :
        (reader.felica_transact
          (take (byte_at payload 8) (drop 8 payload))
          (byte_at payload 8)
          250
          s).0
        ≡ ok response
    pub size : length response ≡ 250
    pub unsent :
        s'
        ≡ call
            (felica_transact (take (byte_at payload 8) (drop 8 payload)) (byte_at payload 8) 250)
            s

  abbrev pub Answers : Bytes → Bytes → S → S → Type 0
  Answers request payload s s' = Replies request s s' ⊎ IsSilent request payload s s'

  pub send_response-Responds :
      (request : Bytes) (status : ℕ) (payload : Bytes) (n : ℕ) (t : S)
      → n ≤ 249
      → Responds request t (send_response usb request status payload n t)
  unfolding send_response
  send_response-Responds request status payload n t h = record {
    status = status;
    payload = payload;
    size = n;
    fits = h;
    sent = ground arith;
  }

  pub finish-Responds :
      (request : Bytes) (r : Result (Unit {0}) × S)
      → Responds request r.1 (finish usb reader request r)
  unfolding finish
  finish-Responds request (r, t) = send_response-Responds request _ [] 0 t (omega arith)

  pub send_card-Responds :
      (request : Bytes) (type : CardType) (card : Card) (t : S)
      → Responds request t (send_card usb reader request type card t)
  unfolding send_card
  send_card-Responds request card_none card t = send_response-Responds request 0 _ 1 t (omega arith)
  send_card-Responds request card_mifare card t =
      send_response-Responds request 0 _ 7 t (omega arith)
  send_card-Responds request card_felica card t =
      send_response-Responds request 0 _ 19 t (omega arith)

  pub poll_result-Responds :
      (request : Bytes) (r : Result Card × S)
      → Responds request r.1 (poll_result usb reader request r)
  unfolding poll_result
  poll_result-Responds request (ok card, t) = send_card-Responds request card.type card t
  poll_result-Responds request (err e, t) = finish-Responds request (err e, t)

  pub send_result-Responds :
      (request : Bytes) (r : Result Bytes × S)
      → ((response : Bytes) → r.0 ≡ ok response → length response ≤ 249)
      → Responds request r.1 (send_result usb reader request r)
  unfolding send_result
  send_result-Responds request (ok response, t) h =
      send_response-Responds request 0 response (length response) t (h response refl)
  send_result-Responds request (err e, t) h = finish-Responds request (err e, t)

  pub send_response-oversize :
      (request : Bytes) (status : ℕ) (payload : Bytes) (n : ℕ) (t : S)
      → 249 < n
      → send_response usb request status payload n t ≡ t
  unfolding send_response
  send_response-oversize request status payload n t h = ground arith
