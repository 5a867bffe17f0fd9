-- ===== src/Usb/Device/Attempts.antt =====
-- What `send_hid` does, in terms of the polls that it makes.
use pareader.Base.{
  ℕ, zero, suc, ◌<◌, ◌≡◌, refl, Bool, true, false, Bytes, inl, inr, arith, Bool-cases,
  invalid_state, timeout, Result, err,
}
use pareader.Usb.Device.{TinyUsb, report_result, send_attempts, send_hid}

module _ {W : Type 0} (tud : TinyUsb W) (instance_id : ℕ) where
  -- The world after a poll that finds the endpoint busy.
  abbrev pub busy_poll : W → W
  busy_poll w = tud.delay_ms 1 (tud.hid_ready instance_id (tud.mounted w).1).1

  abbrev pub IsMounted : W → Type 0
  IsMounted w = (tud.mounted w).0 ≡ true

  abbrev pub IsReady : W → Bool → Type 0
  IsReady w b = (tud.hid_ready instance_id (tud.mounted w).1).0 ≡ b

  -- `n` polls in a row, from `w` to `w'`, find the device mounted and the endpoint busy.
  pub data Busy : ℕ → W → W → Type 0 where
    start : {w : W} → Busy zero w w
    poll :
        {n : ℕ} {w w' : W}
        → IsMounted w
        → IsReady w false
        → Busy n (busy_poll w) w'
        → Busy (suc n) w w'

  -- The ways in which a send of at most `n` polls ends.
  pub data Ends (n report_id : ℕ) (report : Bytes) (size : ℕ) (w : W)
      (result : Result (Unit {0}) × W) : Type 0 where
    unmounted :
        (k : ℕ) (w' : W)
        → k < n
        → Busy k w w'
        → (tud.mounted w').0 ≡ false
        → result ≡ (err invalid_state, (tud.mounted w').1)
        → Ends n report_id report size w result
    submitted :
        (k : ℕ) (w' : W)
        → k < n
        → Busy k w w'
        → IsMounted w'
        → IsReady w' true
        → result
          ≡ report_result tud (
              tud.hid_report instance_id report_id report size
                (tud.hid_ready instance_id (tud.mounted w').1).1)
        → Ends n report_id report size w result
    timed_out :
        (w' : W) → Busy n w w' → result ≡ (err timeout, w') → Ends n report_id report size w result

  later :
      {n report_id : ℕ} {report : Bytes} {size : ℕ} {w : W} {result : Result (Unit {0}) × W}
      → IsMounted w
      → IsReady w false
      → Ends n report_id report size (busy_poll w) result
      → Ends (suc n) report_id report size w result
  later m r (unmounted k w' h b gone e) = unmounted (suc k) w' (omega arith) (poll m r b) gone e
  later m r (submitted k w' h b mounted ready e) =
      submitted (suc k) w' (omega arith) (poll m r b) mounted ready e
  later m r (timed_out w' b e) = timed_out w' (poll m r b) e

  send_attempts-Ends :
      (n report_id : ℕ) (report : Bytes) (size : ℕ) (w : W)
      → Ends n report_id report size w (send_attempts tud n instance_id report_id report size w)
  unfolding send_attempts
  send_attempts-Ends zero report_id report size w = timed_out w start refl
  send_attempts-Ends (suc n) report_id report size w = elim (Bool-cases (tud.mounted w).0) [
    | inr gone ↦ unmounted 0 w (omega arith) start gone (rw (gone, send_attempts) refl)
    | inl m ↦ elim (Bool-cases (tud.hid_ready instance_id (tud.mounted w).1).0) [
      | inl ready ↦ submitted 0 w (omega arith) start m ready (rw (m, send_attempts, ready) refl)
      | inr busy ↦
          rw (m, send_attempts, busy)
            (later m busy (send_attempts-Ends n report_id report size (busy_poll w)))
    ]
  ]

  -- `send_hid` submits the report at the first of at most 100 polls that finds the endpoint ready,
  -- once, and returns what came of it; it gives up at once if the device is not mounted, and
  -- times out exactly after 100 polls of a mounted, busy device.
  pub send_hid-Ends :
      (report_id : ℕ) (report : Bytes) (size : ℕ) (w : W)
      → Ends 100 report_id report size w (send_hid tud instance_id report_id report size w)
  unfolding send_hid
  send_hid-Ends report_id report size w = send_attempts-Ends 100 report_id report size w
