-- ===== src/Base/Bits.antt =====
-- `|`, `&` and the shifts on bytes and 16-bit words.
use Prim.Native.Nat.{
  ℕ, zero, suc, ◌+◌, ◌*◌, ◌/◌, ◌%◌, ◌^◌, ◌≤◌, ◌<◌, min, max, bit_and, bit_or, digits,
  bit_and-bitwise, bit_or-bitwise,
}
use mathlib.Core.Path.{◌≡◌, refl, ap}
use native.Mathlib.Nat.{pow-suc}
use native.Mathlib.Omega.{arith}

abbrev pub u8 : ℕ → ℕ
u8 n = n % 256

infixl 75 ◌<<<◌ ◌>>>◌
abbrev pub ◌<<<◌ : ℕ → ℕ → ℕ
x <<< k = x * 2 ^ k

abbrev pub ◌>>>◌ : ℕ → ℕ → ℕ
x >>> k = x / 2 ^ k

-- The library's digit recursion gives the same with any fuel that covers the first operand.
module _ (z : ℕ → ℕ) (f : ℕ → ℕ → ℕ) where
  digits-fuel : (n m a b : ℕ) → a ≤ n → a ≤ m → digits z f n a b ≡ digits z f m a b
  digits-fuel zero zero a b p q = refl
  digits-fuel zero (suc m) zero b p q = refl
  digits-fuel zero (suc m) (suc a) b p q = absurd (omega arith)
  digits-fuel (suc n) zero zero b p q = refl
  digits-fuel (suc n) zero (suc a) b p q = absurd (omega arith)
  digits-fuel (suc n) (suc m) zero b p q = refl
  digits-fuel (suc n) (suc m) (suc a) b p q =
      omega (arith, digits-fuel n m (suc a / 2) (b / 2) (omega arith) (omega arith))

or_step : (a b : ℕ) → bit_or a b ≡ bit_or (a / 2) (b / 2) * 2 + max (a % 2) (b % 2)
or_step zero b = omega (arith, bit_or-bitwise 0 b, bit_or-bitwise 0 (b / 2))
or_step (suc a) b = omega (
  arith,
  bit_or-bitwise (suc a) b,
  bit_or-bitwise (suc a / 2) (b / 2),
  digits-fuel (λ y. y) max a (suc a / 2) (suc a / 2) (b / 2) (omega arith) (omega arith),
)

and_step : (a b : ℕ) → bit_and a b ≡ bit_and (a / 2) (b / 2) * 2 + min (a % 2) (b % 2)
and_step zero b = omega (arith, bit_and-bitwise 0 b, bit_and-bitwise 0 (b / 2))
and_step (suc a) b = omega (
  arith,
  bit_and-bitwise (suc a) b,
  bit_and-bitwise (suc a / 2) (b / 2),
  digits-fuel (λ y. 0) min a (suc a / 2) (suc a / 2) (b / 2) (omega arith) (omega arith),
)

and_zero_fuel : (n a : ℕ) → a ≤ n → bit_and a 0 ≡ 0
and_zero_fuel n zero h = refl
and_zero_fuel zero (suc a) h = absurd (omega arith)
and_zero_fuel (suc n) (suc a) h =
    omega (arith, and_step (suc a) 0, and_zero_fuel n (suc a / 2) (omega arith))

pub bit_and-one : (a : ℕ) → bit_and a 1 ≡ a % 2
bit_and-one a = omega (arith, and_step a 1, and_zero_fuel (a / 2) (a / 2) (omega arith))

pub bit_and_nibble : (a : ℕ) → bit_and a 0x0F ≡ a % 16
bit_and_nibble a =
    omega (
      arith,
      and_step a 15,
      and_step (a / 2) 7,
      and_step (a / 2 / 2) 3,
      bit_and-one (a / 2 / 2 / 2),
    )

-- `|` of a field below `2 ^ k` and one shifted above it.
bit_or_disjoint : (k lo hi : ℕ) → lo < 2 ^ k → bit_or lo (hi * 2 ^ k) ≡ lo + hi * 2 ^ k
bit_or_disjoint zero lo hi h =
    let e : lo ≡ 0 = omega arith in rw e (omega (arith, bit_or-bitwise 0 (hi * 1)))
bit_or_disjoint (suc k) lo hi h =
    let half : hi * 2 ^ suc k ≡ 2 * (hi * 2 ^ k) =
      omega (arith, ap (λ (t : ℕ). hi * t) (pow-suc 2 k)) in
    let even : hi * 2 ^ suc k / 2 ≡ hi * 2 ^ k = omega arith in
    let rest : bit_or (lo / 2) (hi * 2 ^ suc k / 2) ≡ lo / 2 + hi * 2 ^ k =
      rw even (bit_or_disjoint k (lo / 2) hi (omega (arith, pow-suc 2 k))) in
    omega (arith, or_step lo (hi * 2 ^ suc k), rest)

-- A low byte and a high byte share no bit.
pub bit_or_bytes : (lo hi : ℕ) → lo < 256 → bit_or lo (hi <<< 8) ≡ lo + hi * 256
bit_or_bytes lo hi h = bit_or_disjoint 8 lo hi h

or_comm_fuel : (n a b : ℕ) → a ≤ n → b ≤ n → bit_or a b ≡ bit_or b a
or_comm_fuel zero a b ha hb =
    let ea : a ≡ 0 = omega arith in let eb : b ≡ 0 = omega arith in rw (ea, eb) refl
or_comm_fuel (suc n) a b ha hb =
    omega
      (arith, or_step a b, or_step b a, or_comm_fuel n (a / 2) (b / 2) (omega arith) (omega arith))

-- A 16-bit number from its high byte and its low byte.
pub bit_or_word : (n : ℕ) → n < 65536 → bit_or ((n / 256) <<< 8 % 65536) (n % 256) ≡ n
bit_or_word n h =
    let high = n / 256 * 256 in
    let small : (n / 256) <<< 8 % 65536 ≡ high = omega arith in
    rw small (
      omega (
        arith,
        or_comm_fuel (high + 256) high (n % 256) (omega arith) (omega arith),
        bit_or_bytes (n % 256) (n / 256) (omega arith),
      ))
