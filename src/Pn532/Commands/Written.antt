-- ===== src/Pn532/Commands/Written.antt =====
-- What `write_frame` puts on the bus.
use pareader.Base.{
  ℕ, ◌+◌, ◌≤◌, ◌<◌, ◌≡◌, ◌⊎◌, inl, inr, refl, arith, Bytes, length, ltb, Bool-cases, invalid_size,
  err,
}
use mathlib.Core.Path.{subst}
use pareader.Pn532.Bus.{Bus}
use pareader.Pn532.Frame.Normal.{normal_frame, command_frame-normal}
use pareader.Pn532.Commands.{write_frame}

module _ {W : Type 0} (bus : Bus W) where
  -- `write_frame` transmits the normal frame from the host with this command and payload, in one
  -- transfer of at most 261 bytes, if the payload has at most 252 bytes; it refuses a longer one
  -- with no transfer. The command is one byte.
  pub write_frame-normal :
      (code : ℕ) (payload : Bytes) (w : W)
      → code < 256
      → ((252 < length payload) × (write_frame bus code payload w ≡ (err invalid_size, w)))
        ⊎ ((length payload ≤ 252)
            × (write_frame bus code payload w ≡ bus.transmit (normal_frame 0xD4 code payload) w)
            × (length (normal_frame 0xD4 code payload) ≤ 261))
  unfolding write_frame
  write_frame-normal code payload w h = elim (Bool-cases (ltb 254 (length payload + 2))) [
    | inl long ↦ inl (ground arith, rw long refl)
    | inr short ↦
        let fits : length payload + 2 ≤ 254 = ground arith in
        let (normal, size) = command_frame-normal code payload h fits in
        inr (
          omega arith,
          rw (short, normal) refl,
          subst (λ (bs : Bytes). length bs ≤ 261) normal size,
        )
  ]
