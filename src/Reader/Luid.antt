-- ===== src/Reader/Luid.antt =====
-- `valid_luid` of reader.c.
pub mod Digits
use pareader.Base.{
  ℕ, ◌/◌, ◌^◌, Bool, true, false, ◌&&◌, ◌||◌, List, [], ◌∷◌, Bytes, byte_at, bit_and, ◌>>>◌, ltb,
  ◌!=◌, if◌then◌else◌,
}

-- The loop, with `nonzero` when it ends, or an early `return false`.
unfoldable pub luid_loop : Bytes → Bool → Bool → Bool
luid_loop [] nonzero last = nonzero && last
luid_loop (b ∷ bs) nonzero last =
    if ltb 9 (b >>> 4) || ltb 9 (bit_and b 0x0F)
    then false
    else luid_loop bs (nonzero || b != 0) last

-- `last` is the second conjunct of the final `return`.
unfoldable pub valid_luid : Bytes → Bool
unfolding luid_loop
valid_luid luid = luid_loop luid false (byte_at luid 0 >>> 4 != 3)
