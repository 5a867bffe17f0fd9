-- ===== src/Pn532/Commands/Answers.antt =====
-- What a command that succeeds has received.
use pareader.Base.{
  ℕ, [], ◌∷◌, ◌≤◌, ◌≡◌, refl, sym, ap, ◌∙◌, Bool, true, false, Bytes, IsBytes, IsBytes-take, arith,
  byte_at, bit_and, take, drop, copy, copy_all, take_all, bit_and-one, replicate, length,
  length-take, length-drop, ◌==◌, if◌then◌else◌, invalid_state, Result, ok, err, exec, Act,
  and_then, and_then-eq-ok, ◌>>=◌,
}
use mathlib.Core.Path.{subst}
use pareader.Pn532.Bus.{Bus, wait_ready, read_data, read_ack}
use pareader.Pn532.Frame.{parse_response}
use pareader.Pn532.Frame.Normal.{IsAnswer, parse_response_iff}
use pareader.Pn532.Commands.{write_frame, command}

-- A transfer that succeeds fills its array of `uint8_t`.
pub record ReceiveLaws {W : Type 0} (bus : Bus W) : Type 0 where
  pub octets : (n : ℕ) (w : W) (bytes : Bytes) → (bus.receive n w).0 ≡ ok bytes → IsBytes bytes
  pub size : (n : ℕ) (w : W) (bytes : Bytes) → (bus.receive n w).0 ≡ ok bytes → length bytes ≡ n

-- A transfer of 281 bytes from `w` starts with a status byte that has the ready bit, and goes on
-- with the frame.
pub record Receives {W : Type 0} (bus : Bus W) (w : W) (frame : Bytes) : Type 0 where
  pub transfer : Bytes
  pub returned : (bus.receive 281 w).0 ≡ ok transfer
  pub ready : bit_and (byte_at transfer 0) 1 ≡ 1
  pub starts : take 280 (drop 1 transfer) ≡ frame

IsBytes-drop : (n : ℕ) (xs : Bytes) → IsBytes xs → IsBytes (drop n xs)
IsBytes-drop ℕ.zero xs h = h
IsBytes-drop (ℕ.suc n) [] h = tt
IsBytes-drop (ℕ.suc n) (x ∷ xs) h = IsBytes-drop n xs h.1

checked :
    {W : Type 0} (b : Bool) (frame content : Bytes) (w : W)
    → (if◌then◌else◌ {A = Result Bytes × W} b (err invalid_state, w) (ok frame, w)).0 ≡ ok content
    → (b ≡ false) × (frame ≡ content)
checked true frame content w h = absurd (ground arith)
checked false frame content w h = (refl, ground arith)

then_ok :
    {S A B : Type 0} (m : Act S A) (f : A → Act S B) (s : S) {b : B}
    → ((m >>= f) s).0 ≡ ok b
    → (a : A) × ((m s).0 ≡ ok a) × ((f a (m s).1).0 ≡ ok b) × (((m >>= f) s).1 ≡ (f a (m s).1).1)
then_ok {S} {A} {B} m f s h =
    let (a, e, rest) = and_then-eq-ok (m s).0 (m s).1 f h in
    (a, e, rest, ap (λ (r : Result A). (and_then r (m s).1 f).1) e)

checked_state :
    {W : Type 0} (b : Bool) (x y : Result Bytes) (w : W)
    → (if◌then◌else◌ {A = Result Bytes × W} b (x, w) (y, w)).1 ≡ w
checked_state true x y w = refl
checked_state false x y w = refl

module _ {W : Type 0} (bus : Bus W) (laws : ReceiveLaws bus) where
  ready_bit : (b : ℕ) → (bit_and b 1 == 0) ≡ false → bit_and b 1 ≡ 1
  ready_bit b h = ground (arith, bit_and-one b)

  -- The array that the transfer fills, and the test of its first byte.
  abbrev received_array : Bytes → Bytes
  received_array bytes = copy (replicate 281 0) bytes 281

  abbrev checked_array : Bytes → Act W Bytes
  checked_array bytes v =
      if bit_and (byte_at (received_array bytes) 0) 0x01 == 0
      then (err invalid_state, v)
      else (ok (take 280 (drop 1 (received_array bytes))), v)

  read_data-Receives :
      (w : W) (frame : Bytes)
      → (read_data bus 280 w).0 ≡ ok frame
      → Receives bus w frame
        × (length frame ≡ 280)
        × IsBytes frame
        × ((read_data bus 280 w).1 ≡ exec (bus.receive 281) w)
  unfolding read_data
  read_data-Receives w frame h =
      let (bytes, found, rest, ends) = then_ok (bus.receive 281) checked_array w h in
      let size = laws.size 281 w bytes found in
      let whole : received_array bytes ≡ bytes =
        copy_all (replicate 281 0) bytes 281 refl ∙ take_all bytes 281 size in
      let (ready, content) = checked _ _ _ _ rest in
      let starts : take 280 (drop 1 bytes) ≡ frame =
        sym (ap (λ (t : Bytes). take 280 (drop 1 t)) whole) ∙ content in
      (
        record {
          transfer = bytes;
          returned = found;
          ready =
              ready_bit (byte_at bytes 0)
                (sym (ap (λ (t : Bytes). bit_and (byte_at t 0) 1 == 0) whole) ∙ ready);
          starts = starts;
        },
        omega (
          arith,
          ap (λ (t : Bytes). length t) starts,
          length-take 280 (drop 1 bytes),
          length-drop 1 bytes,
        ),
        subst IsBytes starts (
            IsBytes-take 280 (drop 1 bytes) (IsBytes-drop 1 bytes (laws.octets 281 w bytes found))),
        ends ∙ checked_state (bit_and (byte_at (received_array bytes) 0) 0x01 == 0) _ _ _,
      )

  -- A command that succeeds has written its frame, found the chip ready, read the
  -- acknowledgement, found the chip ready again, and ended with one transfer of 281 bytes from
  -- there. Its response is the content of a well-formed answer to the command, which that last
  -- transfer received behind a status byte with the ready bit, and fits the caller's array.
  pub command-Receives :
      (code : ℕ) (request : Bytes) (capacity : ℕ) (w : W) (response : Bytes)
      → (command bus code request capacity w).0 ≡ ok response
      → let written = write_frame bus code request w in
        let ready = wait_ready bus 600 written.1 in
        let acknowledged = read_ack bus ready.1 in
        let answering = wait_ready bus 600 acknowledged.1 in
        (written.0 ≡ ok tt)
        × (ready.0 ≡ ok tt)
        × (acknowledged.0 ≡ ok tt)
        × (answering.0 ≡ ok tt)
        × ((command bus code request capacity w).1 ≡ exec (bus.receive 281) answering.1)
        × (frame : Bytes) × Receives bus answering.1 frame
        × IsAnswer code response frame
        × (length response ≤ capacity)
  unfolding command
  command-Receives code request capacity w response h =
      let parsed : Bytes → Act W Bytes = λ frame v. (parse_response code capacity frame, v) in
      let last : Act W Bytes = read_data bus 280 >>= parsed in
      let answered : Act W Bytes = wait_ready bus 600 >>= λ _. last in
      let acknowledged : Act W Bytes = read_ack bus >>= λ _. answered in
      let ready : Act W Bytes = wait_ready bus 600 >>= λ _. acknowledged in
      let (_, written, h1, e1) = then_ok (write_frame bus code request) (λ _. ready) w h in
      let w1 = exec (write_frame bus code request) w in
      let (_, found_ready, h2, e2) = then_ok (wait_ready bus 600) (λ _. acknowledged) w1 h1 in
      let w2 = exec (wait_ready bus 600) w1 in
      let (_, found_ack, h3, e3) = then_ok (read_ack bus) (λ _. answered) w2 h2 in
      let w3 = exec (read_ack bus) w2 in
      let (_, found_answer, h4, e4) = then_ok (wait_ready bus 600) (λ _. last) w3 h3 in
      let w4 = exec (wait_ready bus 600) w3 in
      let (frame, received, h5, e5) = then_ok (read_data bus 280) parsed w4 h4 in
      let (receives, size, octets, e6) = read_data-Receives w4 frame received in
      let (answer, fits) = (parse_response_iff code capacity frame response size octets).0 h5 in
      (
        written,
        found_ready,
        found_ack,
        found_answer,
        e1 ∙ e2 ∙ e3 ∙ e4 ∙ e5 ∙ e6,
        frame,
        receives,
        answer,
        fits,
      )
