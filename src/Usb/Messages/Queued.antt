-- ===== src/Usb/Messages/Queued.antt =====
-- The messages that the USB callbacks queue.
use pareader.Base.{
  ℕ, [], ◌∷◌, EspErr, ◌≤◌, ◌<◌, ◌≡◌, refl, ◌⊎◌, inl, inr, true, false, ◌||◌, Bytes, arith, length,
  take_all, ltb, ◌!=◌, Bool-cases, Result, ok, err,
}
use pareader.Usb.Messages.{
  hid, cdc, UsbMessage, Queue, tud_hid_set_report_cb, after_read, cdc_receive_callback,
}

-- `tinyusb_cdcacm_read` reads no more than the size of its array.
pub record CdcLaws {W : Type 0} (queue : Queue W) : Type 0 where
  pub read_size :
      (interface_id n : ℕ) (w : W) (bytes : Bytes)
      → (queue.cdc_read interface_id n w).0 ≡ ok bytes
      → length bytes ≤ n

-- A message that the main loop accepts, within the array of 512 bytes.
pub data IsMessage (m : UsbMessage) : Type 0 where
  report : m.type ≡ hid → m.size ≡ 64 → length m.content ≡ 64 → IsMessage m
  stream : m.type ≡ cdc → m.size ≡ length m.content → 0 < m.size → m.size ≤ 512 → IsMessage m

abbrev pub IsPrhpReport : ℕ → ℕ → Bytes → Type 0
IsPrhpReport instance_id report_id buffer =
    (instance_id ≡ 0) × (report_id ≡ 0) × (length buffer ≡ 64)

refused : (i r n : ℕ) → (i != 0 || r != 0 || n != 64) ≡ true → ¬ ((i ≡ 0) × (r ≡ 0) × (n ≡ 64))
refused i r n h = ground arith

accepted : (i r n : ℕ) → (i != 0 || r != 0 || n != 64) ≡ false → (i ≡ 0) × (r ≡ 0) × (n ≡ 64)
accepted i r n h = ground arith

abbrev pub stream_message : Bytes → UsbMessage
stream_message bytes = record { type = cdc; size = length bytes; content = bytes }

module _ {W : Type 0} (queue : Queue W) where
  -- A HID report is queued whole, as a message that the main loop accepts, if it is a PRHP report
  -- of 64 bytes on the first interface, and dropped if not.
  pub tud_hid_set_report_cb-Queues :
      (instance_id report_id report_type : ℕ) (buffer : Bytes) (w : W)
      → let w' =
          tud_hid_set_report_cb queue instance_id report_id report_type buffer (length buffer) w in
        let m : UsbMessage = record { type = hid; size = 64; content = buffer } in
        (IsPrhpReport instance_id report_id buffer × IsMessage m × (w' ≡ (queue.send m w).1))
        ⊎ ((¬ IsPrhpReport instance_id report_id buffer) × (w' ≡ w))
  unfolding tud_hid_set_report_cb
  tud_hid_set_report_cb-Queues instance_id report_id report_type buffer w =
      elim (Bool-cases (instance_id != 0 || report_id != 0 || length buffer != 64)) [
        | inl other ↦ inr (refused instance_id report_id (length buffer) other, rw other refl)
        | inr whole ↦
            let all = accepted instance_id report_id (length buffer) whole in
            inl (all, report refl refl all.2, rw (whole, take_all buffer 64 all.2) refl)
      ]

  -- The cases of a read `x` after which the state is `w'`.
  pub data Streams (x : Result Bytes × W) (w' : W) : Type 0 where
    failed : (e : EspErr) → x.0 ≡ err e → w' ≡ x.1 → Streams x w'
    empty : x.0 ≡ ok [] → w' ≡ x.1 → Streams x w'
    queued :
        (bytes : Bytes)
        → x.0 ≡ ok bytes
        → IsMessage (stream_message bytes)
        → w' ≡ (queue.send (stream_message bytes) x.1).1
        → Streams x w'

  after_read-Streams :
      (x : Result Bytes × W)
      → ((bytes : Bytes) → x.0 ≡ ok bytes → length bytes ≤ 512)
      → Streams x (after_read queue x)
  after_read-Streams (err e, v) fits = failed e refl refl
  after_read-Streams (ok [], v) fits = empty refl refl
  after_read-Streams (ok (b ∷ bytes), v) fits =
      let some_bytes : ltb 0 (length (b ∷ bytes)) ≡ true = ground arith in
      queued (b ∷ bytes) refl (stream refl refl (omega arith) (fits (b ∷ bytes) refl))
        (rw some_bytes refl)

  -- Bytes from CDC are queued whole, at most 512 of them in one message; nothing is queued when
  -- the read fails or gives no bytes.
  pub cdc_receive_callback-Streams :
      (interface_id : ℕ) (w : W)
      → CdcLaws queue
      → Streams (queue.cdc_read interface_id 512 w) (cdc_receive_callback queue interface_id w)
  unfolding cdc_receive_callback
  cdc_receive_callback-Streams interface_id w laws =
      after_read-Streams (queue.cdc_read interface_id 512 w)
        (λ bytes h. laws.read_size interface_id 512 w bytes h)
