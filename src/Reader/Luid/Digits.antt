-- ===== src/Reader/Luid/Digits.antt =====
-- What `valid_luid` accepts.
use pareader.Base.{
  ◌/◌, ◌%◌, ◌≤◌, ◌≡◌, ◌≢◌, ◌⊎◌, inr, Bool, true, false, ◌||◌, [], ◌∷◌, arith, Bytes, byte_at,
  bit_and_nibble, ◌>>>◌, ◌!=◌, ◌↔◌,
}
use pareader.Reader.Luid.{luid_loop, valid_luid}

-- Packed decimal digits, two to a byte.
abbrev pub IsDigits : Bytes → Type 0
IsDigits [] = Unit {0}
IsDigits (b ∷ bs) = ((b / 16 ≤ 9) × (b % 16 ≤ 9)) × IsDigits bs

abbrev pub IsNonzero : Bytes → Type 0
IsNonzero [] = ⊥
IsNonzero (b ∷ bs) = (b ≢ 0) ⊎ IsNonzero bs

luid_loop_sound :
    (luid : Bytes) (nonzero last : Bool)
    → luid_loop luid nonzero last ≡ true
    → IsDigits luid × ((nonzero ≡ true) ⊎ IsNonzero luid) × (last ≡ true)
unfolding luid_loop
luid_loop_sound [] nonzero last h = ground arith
luid_loop_sound (b ∷ bs) nonzero last h =
    ground (arith, bit_and_nibble b, luid_loop_sound bs (nonzero || b != 0) last)

luid_loop_complete :
    (luid : Bytes) (nonzero last : Bool)
    → IsDigits luid
    → (nonzero ≡ true) ⊎ IsNonzero luid
    → last ≡ true
    → luid_loop luid nonzero last ≡ true
unfolding luid_loop
luid_loop_complete [] nonzero last d n h = ground arith
luid_loop_complete (b ∷ bs) nonzero last d n h =
    ground (arith, bit_and_nibble b, luid_loop_complete bs (nonzero || b != 0) last)

-- A LUID is valid exactly when all its nibbles are decimal digits, it is not all zero, and its
-- first digit is not 3.
pub valid_luid_iff :
    (luid : Bytes)
    → (valid_luid luid ≡ true) ↔ (IsDigits luid × IsNonzero luid × (byte_at luid 0 / 16 ≢ 3))
unfolding valid_luid
valid_luid_iff luid = (
  (λ h.
      let r = luid_loop_sound luid false (byte_at luid 0 >>> 4 != 3) h in
      (r.0, ground arith, ground arith)),
  (λ h. luid_loop_complete luid false (byte_at luid 0 >>> 4 != 3) h.0 (inr h.1) (ground arith)),
)
