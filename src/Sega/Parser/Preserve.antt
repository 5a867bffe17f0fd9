-- ===== src/Sega/Parser/Preserve.antt =====
-- What every reader call and every CDC send keeps, receiving keeps.
use pareader.Base.{
  ℕ, ◌+◌, ◌-◌, inl, inr, false, [], ◌∷◌, Bytes, byte_at, take, drop, set, u8, exec, arith, sym,
}
use mathlib.Core.Path.{subst}
use pareader.Usb.{UsbDevice}
use pareader.Reader.{ReaderOps, ReaderLaws}
use pareader.Sega.Dispatch.{dispatch}
use pareader.Sega.Dispatch.Replies.{ReaderCall, call, Called, felica_transact, Responds}
use pareader.Sega.Dispatch.Outcome.{
  Outcome, malformed, nfc, led, set_color, foreign, dispatch-Outcome,
}
use pareader.Sega.Parser.{Parser, complete, store_byte, receive_byte, sega_receive}

module _ {S : Type 0} (usb : UsbDevice S) (reader : ReaderOps S) (laws : ReaderLaws reader)
    (P : S → Type 0) (sends : (bytes : Bytes) (s : S) → P s → P (exec (usb.send_cdc bytes) s))
    (calls : (c : ReaderCall) (s : S) → P s → P (call usb reader c s)) where
  Responds-keeps : {request : Bytes} {t s' : S} → Responds usb reader request t s' → P t → P s'
  Responds-keeps r h = subst P (sym r.sent) (sends _ _ h)

  Called-keeps : {s t : S} → Called usb reader s t → P s → P t
  Called-keeps (inl e) h = subst P (sym e) h
  Called-keeps (inr (c, e)) h = subst P (sym e) (calls c _ h)

  Outcome-keeps :
      {request : Bytes} {size : ℕ} {s s' : S} → Outcome usb reader request size s s' → P s → P s'
  Outcome-keeps (malformed b e) h = subst P (sym e) h
  Outcome-keeps (nfc r a (inl replies)) h =
      Responds-keeps replies.responds (Called-keeps replies.called h)
  Outcome-keeps {request = request} (nfc r a (inr silent)) h =
      let payload = drop 5 request in
      let n = byte_at payload 8 in
      subst P (sym silent.unsent) (calls (felica_transact (take n (drop 8 payload)) n 250) _ h)
  Outcome-keeps (led r a b responds) h = Responds-keeps responds h
  Outcome-keeps (set_color r a b e) h = subst P (sym e) h
  Outcome-keeps (foreign r a b e) h = subst P (sym e) h

  pub dispatch-keeps :
      (request : Bytes) (size : ℕ) (s : S) → P s → P (dispatch usb reader request size s)
  dispatch-keeps request size s h =
      Outcome-keeps (dispatch-Outcome usb reader request size s laws) h

  complete-keeps : (p : Parser) (s : S) → P s → P (complete usb reader p s).1
  unfolding complete
  complete-keeps p s h = ground (arith, dispatch-keeps (take (p.size - 1) p.bytes) (p.size - 1) s h)

  store_byte-keeps : (p : Parser) (byte : ℕ) (s : S) → P s → P (store_byte usb reader p byte s).1
  unfolding store_byte
  store_byte-keeps p byte s h =
      ground (
        arith,
        complete-keeps (record p { bytes = set p.bytes p.size byte; size = p.size + 1 }) s h,
      )

  receive_byte-keeps :
      (p : Parser) (byte : ℕ) (s : S) → P s → P (receive_byte usb reader p byte s).1
  unfolding receive_byte
  receive_byte-keeps p byte s h = ground (
    arith,
    store_byte-keeps p byte s h,
    store_byte-keeps (record p { escaped = false }) (u8 (byte + 1)) s h,
  )

  -- An invariant that every operation of the reader and every CDC send keeps is kept by
  -- receiving any bytes from CDC.
  pub sega_receive-keeps :
      (p : Parser) (bytes : Bytes) (s : S) → P s → P (sega_receive usb reader p bytes s).1
  unfolding sega_receive
  sega_receive-keeps p [] s h = h
  sega_receive-keeps p (b ∷ bs) s h =
      sega_receive-keeps (receive_byte usb reader p b s).0 bs (receive_byte usb reader p b s).1
        (receive_byte-keeps p b s h)
