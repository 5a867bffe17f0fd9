-- ===== src/Sega/Parser/Invariant.antt =====
-- The parser's invariant: what holds of its array, its size and its flags between two bytes.
use pareader.Base.{
  ℕ, zero, suc, ◌+◌, ◌≤◌, ◌<◌, ◌≡◌, refl, ◌⊎◌, inl, inr, true, false, [], ◌∷◌, arith, Bytes,
  IsBytes, byte_at, length, length-set, set, u8,
}
use pareader.Usb.{UsbDevice}
use pareader.Reader.{ReaderOps}
use pareader.Sega.Parser.{Parser, capacity, complete, store_byte, receive_byte, sega_receive}

pub record IsWellFormed (p : Parser) : Type 0 where
  pub array : length p.bytes ≡ capacity
  pub head_byte : (p.size ≡ 0) ⊎ (byte_at p.bytes 0 < 256)
  pub pending : (p.size ≡ 0) ⊎ (p.size ≤ byte_at p.bytes 0)
  pub quiet : (p.synchronized ≡ true) ⊎ ((p.escaped ≡ false) × (p.size ≡ 0))

-- The first byte after a write is the written one, or what stood there.
byte_at-set :
    (xs : Bytes) (n v : ℕ)
    → n < length xs
    → ((n ≡ 0) × (byte_at (set xs n v) 0 ≡ v)) ⊎ ((0 < n) × (byte_at (set xs n v) 0 ≡ byte_at xs 0))
byte_at-set [] n v h = elim h [ ]
byte_at-set (x ∷ xs) zero v h = inl (refl, refl)
byte_at-set (x ∷ xs) (suc n) v h = inr (omega arith, refl)

module _ {S : Type 0} (usb : UsbDevice S) (reader : ReaderOps S) where
  store_byte-IsWellFormed :
      (p : Parser) (byte : ℕ) (s : S)
      → IsWellFormed p
      → p.synchronized ≡ true
      → byte < 256
      → IsWellFormed (store_byte usb reader p byte s).0
  unfolding store_byte complete
  store_byte-IsWellFormed p byte s w sync h =
      ground (arith, byte_at-set p.bytes p.size byte, length-set p.bytes p.size byte, w.array)

  receive_byte-IsWellFormed :
      (p : Parser) (byte : ℕ) (s : S)
      → IsWellFormed p
      → byte < 256
      → IsWellFormed (receive_byte usb reader p byte s).0
  unfolding receive_byte
  receive_byte-IsWellFormed p byte s w h = ground (
    arith,
    store_byte-IsWellFormed p byte s,
    store_byte-IsWellFormed (record p { escaped = false }) (u8 (byte + 1)) s,
  )

  -- Receiving any bytes keeps the parser well formed.
  pub sega_receive-IsWellFormed :
      (p : Parser) (bytes : Bytes) (s : S)
      → IsWellFormed p
      → IsBytes bytes
      → IsWellFormed (sega_receive usb reader p bytes s).0
  unfolding sega_receive
  sega_receive-IsWellFormed p [] s w h = w
  sega_receive-IsWellFormed p (b ∷ bs) s w h =
      sega_receive-IsWellFormed (receive_byte usb reader p b s).0 bs
        (receive_byte usb reader p b s).1 (receive_byte-IsWellFormed p b s w h.0) h.1
