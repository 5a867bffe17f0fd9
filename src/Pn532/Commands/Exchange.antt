-- ===== src/Pn532/Commands/Exchange.antt =====
-- A command that the chip answers in time returns the answer.
use pareader.Base.{
  ℕ, suc, ◌+◌, ◌*◌, ◌≤◌, ◌≡◌, refl, sym, ap, ◌∙◌, false, arith, ◌∷◌, Bytes, byte_at, bit_and, take,
  drop, copy, replicate, length, take-length, take-append, equal, ltb, ◌==◌, invalid_state, pure,
  raise, if◌then◌else◌, Result, ok, exec, Act, ◌>>=◌,
}
use mathlib.Core.Path.{subst}
use pareader.Pn532.Codes.{pn532_frame_capacity}
use pareader.Pn532.Bus.{Bus, wait_ready, read_data, ack_frame, read_ack}
use pareader.Pn532.Bus.Clock.{ClockLaws}
use pareader.Pn532.Bus.Ready.{ReadyAfter, wait_ready-ready}
use pareader.Pn532.Frame.{command_frame, parse_response}
use pareader.Pn532.Frame.Normal.{IsAnswer, answer-parse}
use pareader.Pn532.Commands.{write_frame, command}

-- A transfer from `w` that returns a status byte with the ready bit, and then the bytes.
pub record Sends {W : Type 0} (bus : Bus W) (w : W) (bytes : Bytes) : Type 0 where
  pub status : ℕ
  pub is_ready : bit_and status 0x01 ≡ 1
  pub returned : (bus.receive (length bytes + 1) w).0 ≡ ok (status ∷ bytes)

-- What the chip does with a command from `w` on, up to `w'`: it takes the frame, is ready within
-- 600 ms, acknowledges, is ready within 600 ms again, and answers with the content, in a frame
-- that is filled up to 280 bytes.
pub record Exchange {W : Type 0} (bus : Bus W) (code : ℕ) (request content : Bytes) (w w' : W)
    : Type 0 where
  pub written : (bus.transmit (command_frame code request) w).0 ≡ ok tt
  pub first_polls : ℕ
  pub acknowledging : W
  pub ready_to_acknowledge :
      let t = bus.get_time (exec (bus.transmit (command_frame code request)) w) in
      ReadyAfter bus first_polls (t.0 + 600 * 1000) t.1 acknowledging
  pub acknowledges : Sends bus acknowledging (ack_frame bus)
  pub second_polls : ℕ
  pub answering : W
  pub ready_to_answer :
      let t = bus.get_time (exec (bus.receive 7) acknowledging) in
      ReadyAfter bus second_polls (t.0 + 600 * 1000) t.1 answering
  pub frame : Bytes
  pub frame_size : length frame ≡ pn532_frame_capacity
  pub answers : Sends bus answering frame
  pub answer : IsAnswer code content frame
  pub after : w' ≡ exec (bus.receive 281) answering

-- A bind whose first part is known to succeed.
pub then_run :
    {S A B : Type 0} (m : Act S A) (f : A → Act S B) (s t : S) (a : A)
    → m s ≡ (ok a, t)
    → (m >>= f) s ≡ f a t
then_run m f s t a h = rw h refl

result_of : {W A : Type 0} (x : Result A × W) (a : A) → x.0 ≡ ok a → x ≡ (ok a, x.1)
result_of (r, w) a h = rw h refl

module _ {W : Type 0} (bus : Bus W) where
  -- What `read_data` does with the transfer.
  abbrev checked : Bytes → Bytes → Act W Bytes
  checked bytes transfer v =
      let rx = copy (replicate (pn532_frame_capacity + 1) 0) transfer (length bytes + 1) in
      if bit_and (byte_at rx 0) 0x01 == 0
      then raise invalid_state v
      else pure (take (length bytes) (drop 1 rx)) v

  read_data-Sends :
      (w : W) (bytes : Bytes)
      → Sends bus w bytes
      → length bytes ≤ pn532_frame_capacity
      → read_data bus (length bytes) w ≡ (ok bytes, exec (bus.receive (length bytes + 1)) w)
  unfolding read_data
  read_data-Sends w bytes s fits =
      let room : ltb pn532_frame_capacity (length bytes) ≡ false = ground arith in
      let one : length bytes + 1 ≡ suc (length bytes) = omega arith in
      let bit : (bit_and s.status 0x01 == 0) ≡ false = ground (arith, s.is_ready) in
      rw room (
        then_run (bus.receive (length bytes + 1)) (checked bytes) w
          (exec (bus.receive (length bytes + 1)) w) (s.status ∷ bytes)
          (result_of (bus.receive (length bytes + 1) w) (s.status ∷ bytes) s.returned)
        ∙ rw (one, take-length bytes, bit, take-append bytes) refl)

  -- The acknowledgement is found to be one.
  read_ack-Sends :
      (w : W) → Sends bus w (ack_frame bus) → read_ack bus w ≡ (ok tt, exec (bus.receive 7) w)
  unfolding read_ack equal
  read_ack-Sends w s = rw (read_data-Sends w (ack_frame bus) s (omega arith)) refl

  module _ (clock : ClockLaws bus) where
    -- Whatever the chip does otherwise, a command of at most 252 bytes that it takes, acknowledges
    -- and answers in time returns the content of the answer, if the caller's array has room for
    -- it, in the state that the last transfer leaves. The clock does not go back, and a transfer
    -- takes time.
    pub command-Exchange :
        (code : ℕ) (request content : Bytes) (capacity : ℕ) (w w' : W)
        → length request ≤ 252
        → length content ≤ capacity
        → Exchange bus code request content w w'
        → command bus code request capacity w ≡ (ok content, w')
    unfolding command write_frame
    command-Exchange code request content capacity w w' h fits x =
        let parsed : Bytes → Act W Bytes = λ frame v. (parse_response code capacity frame, v) in
        let last : Act W Bytes = read_data bus 280 >>= parsed in
        let answered : Act W Bytes = wait_ready bus 600 >>= λ _. last in
        let acknowledged : Act W Bytes = read_ack bus >>= λ _. answered in
        let ready : Act W Bytes = wait_ready bus 600 >>= λ _. acknowledged in
        let w1 = exec (bus.transmit (command_frame code request)) w in
        let w3 = exec (bus.receive 7) x.acknowledging in
        let short : ltb 254 (length request + 2) ≡ false = ground arith in
        let write : write_frame bus code request w ≡ (ok tt, w1) =
          rw short (result_of (bus.transmit (command_frame code request) w) tt x.written) in
        let read : read_data bus 280 x.answering ≡ (ok x.frame, w') =
          subst
            (λ (n : ℕ).
              read_data bus n x.answering ≡ (ok x.frame, exec (bus.receive (n + 1)) x.answering))
            x.frame_size
            (read_data-Sends x.answering x.frame x.answers (omega (arith, x.frame_size)))
          ∙ ap (λ (v : W). (ok x.frame, v)) (sym x.after) in
        then_run (write_frame bus code request) (λ _. ready) w w1 tt write
        ∙ then_run (wait_ready bus 600) (λ _. acknowledged) w1 x.acknowledging tt
            (wait_ready-ready bus clock x.first_polls 600 w1 x.acknowledging x.ready_to_acknowledge)
        ∙ then_run (read_ack bus) (λ _. answered) x.acknowledging w3 tt
            (read_ack-Sends x.acknowledging x.acknowledges)
        ∙ then_run (wait_ready bus 600) (λ _. last) w3 x.answering tt
            (wait_ready-ready bus clock x.second_polls 600 w3 x.answering x.ready_to_answer)
        ∙ then_run (read_data bus 280) parsed x.answering w' x.frame read
        ∙ rw (x.answer.starts, answer-parse code capacity content x.answer.rest x.answer.short fits)
            refl
