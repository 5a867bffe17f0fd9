-- ===== src/Tests/Chip.antt =====
-- A chip that is ready, acknowledges, and finds no Type A target; the witness for a command.
use pareader.Base.{
  ℕ, equal, ◌+◌, ◌*◌, ◌≤◌, ◌≡◌, refl, ap, sym, ◌∙◌, Bool, true, false, [], ◌∷◌, Bytes, IsBytes,
  length, length-replicate, replicate, arith, ◌==◌, ==_iff, Result, exec, ok, err,
}
use mathlib.Core.Path.{subst}
use pareader.Pn532.Bus.{Bus, wait_ready, wait_loop, after_status, read_data, read_ack}
use pareader.Pn532.Frame.{parse_response}
use pareader.Pn532.Frame.Normal.{IsAnswer}
use pareader.Pn532.Commands.{write_frame, command}
use pareader.Pn532.Commands.Answers.{ReceiveLaws, Receives, command-Receives}
use pareader.Tests.Setup.{World, start, get_time}

abbrev choose : Bool → Bool → ℕ → Bytes
choose true b n =
    0x01 ∷ 0x00 ∷ 0x00 ∷ 0xFF ∷ 0x03 ∷ 0xFD ∷ 0xD5 ∷ 0x4B ∷ 0x00 ∷ 0xE0 ∷ 0x00 ∷ replicate 270 0
choose false true n = 0x01 ∷ 0x00 ∷ 0x00 ∷ 0xFF ∷ 0x00 ∷ 0xFF ∷ 0x00 ∷ []
choose false false n = replicate n 1

-- What a transfer of `n` bytes returns: the answer, the acknowledgement, or ready bytes.
abbrev reply : ℕ → Bytes
reply n = choose (n == 281) (n == 7) n

IsBytes-ones : (n : ℕ) → IsBytes (replicate n 1)
IsBytes-ones ℕ.zero = tt
IsBytes-ones (ℕ.suc n) = (omega arith, IsBytes-ones n)

length-choose :
    (a b : Bool) (n : ℕ) → (a ≡ true → n ≡ 281) → (b ≡ true → n ≡ 7) → length (choose a b n) ≡ n
length-choose true b n ha hb = sym (ha refl)
length-choose false true n ha hb = sym (hb refl)
length-choose false false n ha hb = length-replicate {A = ℕ} n 1

choose-IsBytes : (a b : Bool) (n : ℕ) → IsBytes (choose a b n)
choose-IsBytes true b n = ground arith
choose-IsBytes false true n = ground arith
choose-IsBytes false false n = IsBytes-ones n

abbrev chip : Bus World
chip = record {
  sda_gpio = 2;
  scl_gpio = 3;
  new_master_bus = λ config w. (ok tt, w);
  add_device = λ config w. (ok tt, w);
  probe = λ address timeout_ms w. (ok tt, w);
  transmit = λ bytes w. (ok tt, record w { time = w.time + 1 });
  receive = λ n w. (ok (reply n), record w { time = w.time + 1 });
  get_time = get_time;
  delay_ms = λ ms w. record w { time = w.time + ms * 1000 };
}

reply-eq : (n : ℕ) (bytes : Bytes) → ok (reply n) ≡ ok bytes → reply n ≡ bytes
reply-eq n bytes h = ap content h
  where
    content : Result Bytes → Bytes
    content (ok xs) = xs
    content (err e) = []

chip-ReceiveLaws : ReceiveLaws chip
chip-ReceiveLaws = record {
  octets = λ n w bytes h. subst IsBytes (reply-eq n bytes h) (choose-IsBytes (n == 281) (n == 7) n);
  size = λ n w bytes h.
      sym (ap (λ (t : Bytes). length t) (reply-eq n bytes h))
      ∙ length-choose (n == 281) (n == 7) n ((==_iff n 281).0) ((==_iff n 7).0);
}

succeeds : (command chip 0x4A (1 ∷ 0 ∷ []) 64 start).0 ≡ ok (0x00 ∷ [])
unfolding command write_frame wait_ready wait_loop after_status read_ack read_data parse_response
    equal
succeeds = refl

command-Receives_example :
    let written = write_frame chip 0x4A (1 ∷ 0 ∷ []) start in
    let ready = wait_ready chip 600 written.1 in
    let acknowledged = read_ack chip ready.1 in
    let answering = wait_ready chip 600 acknowledged.1 in
    (written.0 ≡ ok tt)
    × (ready.0 ≡ ok tt)
    × (acknowledged.0 ≡ ok tt)
    × (answering.0 ≡ ok tt)
    × ((command chip 0x4A (1 ∷ 0 ∷ []) 64 start).1 ≡ exec (chip.receive 281) answering.1)
    × (frame : Bytes) × Receives chip answering.1 frame
    × IsAnswer 0x4A (0x00 ∷ []) frame
    × (length {A = ℕ} (0x00 ∷ []) ≤ 64)
command-Receives_example =
    command-Receives chip chip-ReceiveLaws 0x4A (1 ∷ 0 ∷ []) 64 start (0x00 ∷ []) succeeds
