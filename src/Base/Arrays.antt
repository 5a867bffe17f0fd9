-- ===== src/Base/Arrays.antt =====
-- C arrays as lists of bytes, indexed by native numbers. A pointer with a size is the list of
-- the bytes that it spans; a read behind the end gives 0 and a write there changes nothing, and
-- the properties show where the code stays within its arrays.
use Prim.Native.Nat.{ℕ, zero, suc, ◌+◌, ◌-◌, ◌%◌, ◌≤◌, ◌<◌, min}
use mathlib.Core.Path.{◌≡◌, refl, ap}
use mathlib.Core.Bool.{Bool, true, false, ◌&&◌}
use mathlib.Core.Logic.{◌↔◌}
use mathlib.Core.List.{List, [], ◌∷◌, ◌++◌, append-nil}
use native.Mathlib.Nat.{zero-add, add-zero, suc-add}
use native.Mathlib.Omega.{arith}
use pareader.Base.Tests.{◌==◌}

module _ {ℓ} {A : Type ℓ} where
  abbrev pub length : List A → ℕ
  length [] = 0
  length (x ∷ xs) = suc (length xs)

  abbrev pub set : List A → ℕ → A → List A
  set [] i v = []
  set (x ∷ xs) zero v = v ∷ xs
  set (x ∷ xs) (suc i) v = x ∷ set xs i v

  abbrev pub get_or : List A → ℕ → A → A
  get_or [] i d = d
  get_or (x ∷ xs) zero d = x
  get_or (x ∷ xs) (suc i) d = get_or xs i d

  abbrev pub take : ℕ → List A → List A
  take zero xs = []
  take (suc n) [] = []
  take (suc n) (x ∷ xs) = x ∷ take n xs

  abbrev pub drop : ℕ → List A → List A
  drop zero xs = xs
  drop (suc n) [] = []
  drop (suc n) (x ∷ xs) = drop n xs

  abbrev pub replicate : ℕ → A → List A
  replicate zero a = []
  replicate (suc n) a = a ∷ replicate n a

module _ {ℓ} {A : Type ℓ} where
  pub length-append : (xs ys : List A) → length (xs ++ ys) ≡ length xs + length ys
  length-append [] ys = omega arith
  length-append (x ∷ xs) ys = omega (arith, length-append xs ys)

  pub length-set : (xs : List A) (i : ℕ) (v : A) → length (set xs i v) ≡ length xs
  length-set [] i v = refl
  length-set (x ∷ xs) zero v = refl
  length-set (x ∷ xs) (suc i) v = ap suc (length-set xs i v)

  pub length-take : (n : ℕ) (xs : List A) → length (take n xs) ≡ min n (length xs)
  length-take zero xs = omega arith
  length-take (suc n) [] = omega arith
  length-take (suc n) (x ∷ xs) = omega (arith, length-take n xs)

  pub length-drop : (n : ℕ) (xs : List A) → length (drop n xs) ≡ length xs - n
  length-drop zero xs = omega arith
  length-drop (suc n) [] = omega arith
  length-drop (suc n) (x ∷ xs) = omega (arith, length-drop n xs)

  pub length-replicate : (n : ℕ) (a : A) → length (replicate n a) ≡ n
  length-replicate zero a = refl
  length-replicate (suc n) a = ap suc (length-replicate n a)

  pub take-length : (xs : List A) → take (length xs) xs ≡ xs
  take-length [] = refl
  take-length (x ∷ xs) = ap (◌∷◌ x) (take-length xs)

  pub take-append : (xs ys : List A) → take (length xs) (xs ++ ys) ≡ xs
  take-append [] ys = refl
  take-append (x ∷ xs) ys = ap (◌∷◌ x) (take-append xs ys)

  pub drop-append : (xs ys : List A) → drop (length xs) (xs ++ ys) ≡ ys
  drop-append [] ys = refl
  drop-append (x ∷ xs) ys = drop-append xs ys

  -- Writing at the end of the used part extends it by the value written.
  pub take-set_end :
      (xs : List A) (n : ℕ) (v : A)
      → n < length xs
      → take (suc n) (set xs n v) ≡ take n xs ++ v ∷ []
  take-set_end [] n v h = elim h [ ]
  take-set_end (x ∷ xs) zero v h = refl
  take-set_end (x ∷ xs) (suc n) v h = ap (◌∷◌ x) (take-set_end xs n v (omega arith))

  pub get_or-set_self :
      (xs : List A) (n : ℕ) (v d : A) → n < length xs → get_or (set xs n v) n d ≡ v
  get_or-set_self [] n v d h = elim h [ ]
  get_or-set_self (x ∷ xs) zero v d h = refl
  get_or-set_self (x ∷ xs) (suc n) v d h = get_or-set_self xs n v d (omega arith)

  pub take-set_same : (xs : List A) (n : ℕ) (v : A) → take n (set xs n v) ≡ take n xs
  take-set_same [] n v = refl
  take-set_same (x ∷ xs) zero v = refl
  take-set_same (x ∷ xs) (suc n) v = ap (◌∷◌ x) (take-set_same xs n v)

module _ {ℓ} {A : Type ℓ} where
  -- The same at a size that is known by an equation.
  pub take_all : (xs : List A) (n : ℕ) → length xs ≡ n → take n xs ≡ xs
  take_all xs n e = rw (← e) (take-length xs)

  pub take_prefix : (xs ys : List A) (n : ℕ) → length xs ≡ n → take n (xs ++ ys) ≡ xs
  take_prefix xs ys n e = rw (← e) (take-append xs ys)

  pub drop_prefix : (xs ys : List A) (n : ℕ) → length xs ≡ n → drop n (xs ++ ys) ≡ ys
  drop_prefix xs ys n e = rw (← e) (drop-append xs ys)

  pub length_taken : (n : ℕ) (xs : List A) → n ≤ length xs → length (take n xs) ≡ n
  length_taken n xs h = omega (arith, length-take n xs)

module _ {ℓ} {A : Type ℓ} where
  pub drop-drop : (a b : ℕ) (xs : List A) → drop a (drop b xs) ≡ drop (b + a) xs
  drop-drop a zero xs = rw zero-add
  drop-drop zero (suc b) [] = rw add-zero
  drop-drop (suc a) (suc b) [] = rw suc-add
  drop-drop a (suc b) (x ∷ xs) = rw suc-add (drop-drop a b xs)

  -- A write behind the part that is taken.
  pub take-set_above : (n i : ℕ) (xs : List A) (v : A) → n ≤ i → take n (set xs i v) ≡ take n xs
  take-set_above zero i xs v h = refl
  take-set_above (suc n) i [] v h = refl
  take-set_above (suc n) zero (x ∷ xs) v h = elim h [ ]
  take-set_above (suc n) (suc i) (x ∷ xs) v h = ap (◌∷◌ x) (take-set_above n i xs v (omega arith))

  pub take_within : (n : ℕ) (xs ys : List A) → n ≤ length xs → take n (xs ++ ys) ≡ take n xs
  take_within zero xs ys h = refl
  take_within (suc n) [] ys h = elim h [ ]
  take_within (suc n) (x ∷ xs) ys h = ap (◌∷◌ x) (take_within n xs ys (omega arith))

  pub drop_within : (n : ℕ) (xs ys : List A) → n ≤ length xs → drop n (xs ++ ys) ≡ drop n xs ++ ys
  drop_within zero xs ys h = refl
  drop_within (suc n) [] ys h = elim h [ ]
  drop_within (suc n) (x ∷ xs) ys h = drop_within n xs ys (omega arith)

abbrev pub Bytes : Type 0
Bytes = List ℕ

abbrev pub byte_at : Bytes → ℕ → ℕ
byte_at xs i = get_or xs i 0

-- Every element is a `uint8_t`.
abbrev pub IsBytes : Bytes → Type 0
IsBytes [] = Unit {0}
IsBytes (x ∷ xs) = (x < 256) × IsBytes xs

pub IsBytes-take : (n : ℕ) (xs : Bytes) → IsBytes xs → IsBytes (take n xs)
IsBytes-take zero xs h = tt
IsBytes-take (suc n) [] h = tt
IsBytes-take (suc n) (x ∷ xs) h = (h.0, IsBytes-take n xs h.1)

pub IsBytes-append : (xs ys : Bytes) → IsBytes xs → IsBytes ys → IsBytes (xs ++ ys)
IsBytes-append [] ys hx hy = hy
IsBytes-append (x ∷ xs) ys hx hy = (hx.0, IsBytes-append xs ys hx.1 hy)

-- `memcmp(a, b, n) == 0` on arrays of the same size.
unfoldable pub equal : Bytes → Bytes → Bool
equal [] [] = true
equal (x ∷ xs) (y ∷ ys) = x == y && equal xs ys
equal _ _ = false

pub equal_iff : (xs ys : Bytes) → (equal xs ys ≡ true) ↔ (xs ≡ ys)
unfolding equal
equal_iff [] [] = ground arith
equal_iff [] (y ∷ ys) = ground arith
equal_iff (x ∷ xs) [] = ground arith
equal_iff (x ∷ xs) (y ∷ ys) = ground (arith, equal_iff xs ys)

-- `memcpy(dest, src, n)`: the first `n` bytes of `dest` become those of `src`.
abbrev pub copy : Bytes → Bytes → ℕ → Bytes
copy dest src n = take n src ++ drop n dest

-- `memcpy(&dest[offset], src, n)`
abbrev pub copy_at : Bytes → ℕ → Bytes → ℕ → Bytes
copy_at dest offset src n = take offset dest ++ (take n src ++ drop (offset + n) dest)

-- `uint8_t checksum = c; checksum += b` over the bytes.
abbrev pub sum8 : ℕ → Bytes → ℕ
sum8 c [] = c
sum8 c (b ∷ bs) = sum8 ((c + b) % 256) bs

pub sum8-lt : (c : ℕ) (bs : Bytes) → c < 256 → sum8 c bs < 256
sum8-lt c [] h = h
sum8-lt c (b ∷ bs) h = sum8-lt ((c + b) % 256) bs (omega arith)

pub sum8-append : (c : ℕ) (xs ys : Bytes) → sum8 c (xs ++ ys) ≡ sum8 (sum8 c xs) ys
sum8-append c [] ys = refl
sum8-append c (x ∷ xs) ys = sum8-append ((c + x) % 256) xs ys

pub copy_at_lem :
    (pre post src : Bytes) (offset n : ℕ)
    → length pre ≡ offset
    → length src ≡ n
    → copy_at (pre ++ post) offset src n ≡ pre ++ (src ++ drop n post)
copy_at_lem pre post src offset n hp hs =
    rw (take_prefix pre post offset hp, take_all src n hs, ← drop-drop n offset (pre ++ post))
      (rw (drop_prefix pre post offset hp))

pub length-copy_at :
    (dest src : Bytes) (offset n : ℕ)
    → offset + n ≤ length dest
    → n ≤ length src
    → length (copy_at dest offset src n) ≡ length dest
length-copy_at dest src offset n fits enough = omega (
  arith,
  length-append (take offset dest) (take n src ++ drop (offset + n) dest),
  length-append (take n src) (drop (offset + n) dest),
  length-take offset dest,
  length-take n src,
  length-drop (offset + n) dest,
)

pub length-copy :
    (dest src : Bytes) (n : ℕ)
    → n ≤ length dest
    → n ≤ length src
    → length (copy dest src n) ≡ length dest
length-copy dest src n fits enough =
    omega (arith, length-append (take n src) (drop n dest), length-take n src, length-drop n dest)

drop_all : (xs : Bytes) → drop (length xs) xs ≡ []
drop_all [] = refl
drop_all (x ∷ xs) = drop_all xs

-- A copy over the whole array.
pub copy_all : (dest src : Bytes) (n : ℕ) → length dest ≡ n → copy dest src n ≡ take n src
copy_all dest src n e = rw (← e, drop_all dest) (append-nil (take (length dest) src))
