-- ===== src/App/Schedule/Spacing.antt =====
-- Two scans are 200 ms apart or more.
use pareader.Base.{
  ℕ, zero, suc, ◌+◌, ◌≤◌, ◌<◌, ◌≡◌, ◌⊎◌, inl, inr, refl, ap, ◌∙◌, Bool, true, false, List, [], ◌∷◌,
  length, ltb, Bool-cases, arith, Option, none, some, Result, ok, err,
}
use mathlib.Core.Path.{subst}
use pareader.Card.{Card}
use pareader.Usb.{UsbDevice}
use pareader.Usb.Messages.{Queue}
use pareader.Pn532.{Pn532Ops}
use pareader.Reader.State.{Machine}
use pareader.Reader.ReadCard.{reader_read_card}
use pareader.App.{App, observe, scan_card, now, clocked, round, run}
use pareader.App.History.{receive_message-keeps}
use pareader.App.Schedule.{received, next, read_time, is_due}

-- Each time is at least `earliest`, and 200 ms or more after the one before.
abbrev pub Spaced : ℕ → List ℕ → Type 0
Spaced earliest [] = Unit {0}
Spaced earliest (t ∷ ts) = (earliest ≤ t) × Spaced (t + 200000) ts

-- The times of the rounds that scan.
abbrev pub times : List (Option ℕ) → List ℕ
times [] = []
times (none ∷ rounds) = times rounds
times (some t ∷ rounds) = t ∷ times rounds

module _ {W : Type 0} (pn532 : Pn532Ops W) (usb : UsbDevice W) where
  observe-next_scan :
      (x : Result Card × Machine W) (a : App W) → (observe pn532 usb x a).next_scan ≡ a.next_scan
  unfolding observe
  observe-next_scan (err e, m) a = refl
  observe-next_scan (ok card, m) a = ground arith

  scan_card-next_scan : (a : App W) → (scan_card pn532 usb a).next_scan ≡ a.next_scan
  unfolding scan_card
  scan_card-next_scan a = observe-next_scan (reader_read_card pn532 a.machine) a

  module _ (queue : Queue W) (get_time : W → ℕ × W) where
    abbrev step : App W → App W
    step = next pn532 usb queue get_time

    abbrev tick : App W → ℕ
    tick = read_time pn532 usb queue get_time

    abbrev due : App W → Bool
    due = is_due pn532 usb queue get_time

    -- A round whose time has come sets the time of the next scan; another leaves it.
    pub round-next_scan :
        (a : App W)
        → ((due a ≡ true) × (a.next_scan ≤ tick a) × ((step a).next_scan ≡ tick a + 200000))
          ⊎ ((due a ≡ false) × (tick a < a.next_scan) × ((step a).next_scan ≡ a.next_scan))
    unfolding round
    round-next_scan a =
        let b = received pn532 usb queue get_time a in
        let (_, same) = receive_message-keeps pn532 usb queue get_time a in
        elim (Bool-cases (ltb (tick a) b.next_scan)) [
          | inl early ↦ inr (ground arith, ground arith, rw early same)
          | inr late ↦ inl (ground arith, ground arith, rw late (scan_card-next_scan _))
        ]

    -- The rounds from `a` to `a'`, each with the time of its scan, if it scans. After the message
    -- is handled, a round that does not scan only reads the clock, and one that scans reads the
    -- clock, sets the time of the next scan 200 ms later, and scans.
    abbrev pub Steps : List (Option ℕ) → App W → App W → Type 0
    Steps [] a a' = a' ≡ a
    Steps (none ∷ rounds) a a' =
        let b = received pn532 usb queue get_time a in
        (now get_time b < b.next_scan) × Steps rounds (clocked get_time b) a'
    Steps (some t ∷ rounds) a a' =
        let b = received pn532 usb queue get_time a in
        (t ≡ now get_time b)
        × Steps rounds
            (scan_card pn532 usb (record (clocked get_time b) { next_scan = t + 200000 })) a'

    -- A round whose time has not come, and one whose time has come.
    round_early :
        (a : App W)
        → ltb (tick a) (received pn532 usb queue get_time a).next_scan ≡ true
        → step a ≡ clocked get_time (received pn532 usb queue get_time a)
    unfolding round
    round_early a early = rw early refl

    round_due :
        (a : App W)
        → ltb (tick a) (received pn532 usb queue get_time a).next_scan ≡ false
        → step a
          ≡ scan_card pn532 usb (record (clocked get_time (received pn532 usb queue get_time a)) {
            next_scan = tick a + 200000;
          })
    unfolding round
    round_due a due = rw due refl

    -- Any number of rounds, taken one by one, either scan, and then at the time that they read
    -- from the clock, or only handle a message and read the clock, and then that time is before
    -- the time stored for the next scan. The times of the scans are 200 ms apart or more, and the
    -- first is not before the time stored at the start.
    pub run-Spaced :
        (n : ℕ) (a : App W)
        → (rounds : List (Option ℕ)) × (length rounds ≡ n)
          × Steps rounds a (run pn532 usb queue get_time n a)
          × Spaced a.next_scan (times rounds)
    unfolding run
    run-Spaced zero a = ([], refl, refl, tt)
    run-Spaced (suc n) a =
        let b = received pn532 usb queue get_time a in
        let end = run pn532 usb queue get_time n (step a) in
        let (_, same) = receive_message-keeps pn532 usb queue get_time a in
        let (rounds, count, steps, spaced) = run-Spaced n (step a) in
        elim (Bool-cases (ltb (tick a) b.next_scan)) [
          | inl early ↦
              let e = round_early a early in
              (
                none ∷ rounds,
                ap suc count,
                (ground arith, subst (λ x. Steps rounds x end) e steps),
                subst (λ t. Spaced t (times rounds)) (ap (λ (x : App W). x.next_scan) e ∙ same)
                    spaced,
              )
          | inr late ↦
              let e = round_due a late in
              (
                some (tick a) ∷ rounds,
                ap suc count,
                (refl, subst (λ x. Steps rounds x end) e steps),
                (
                  ground arith,
                  subst (λ t. Spaced t (times rounds))
                      (ap (λ (x : App W). x.next_scan) e ∙ scan_card-next_scan _) spaced,
                ),
              )
        ]
