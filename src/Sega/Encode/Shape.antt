-- ===== src/Sega/Encode/Shape.antt =====
-- What the encoder puts on the wire, with no accumulator: the sync byte, then each byte stuffed.
use pareader.Base.{
  ℕ, ◌+◌, ◌*◌, ◌≤◌, ◌<◌, ◌⊎◌, inl, inr, ltb, ltb→lt, Bool-cases, exec, ◌≡◌, ◌≢◌, refl, [], ◌∷◌,
  ◌++◌, append_assoc, append-nil, arith, Bytes, length, length-append, length-take, sum8, u8,
}
use pareader.Sega.Encode.{
  sg_sync, encode_byte, encode_loop, encode_frame, decoded_response, send_response,
}
use pareader.Usb.{UsbDevice}

abbrev pub stuffed : Bytes → Bytes
stuffed [] = []
stuffed (b ∷ bs) = encode_byte b [] ++ stuffed bs

encode_byte-append : (b : ℕ) (out : Bytes) → encode_byte b out ≡ out ++ encode_byte b []
unfolding encode_byte
encode_byte-append b out = ground arith

pub stuffed-append : (xs ys : Bytes) → stuffed (xs ++ ys) ≡ stuffed xs ++ stuffed ys
stuffed-append [] ys = refl
stuffed-append (x ∷ xs) ys = simp (stuffed-append xs ys, append_assoc)

encode_loop_lem :
    (bs : Bytes) (c : ℕ) (out : Bytes) → encode_loop bs c out ≡ (sum8 c bs, out ++ stuffed bs)
unfolding encode_loop
encode_loop_lem [] c out = rw append-nil
encode_loop_lem (b ∷ bs) c out =
    rw (encode_loop_lem bs (u8 (c + b)) (encode_byte b out), encode_byte-append b out)
      (simp append_assoc)

-- A frame is the sync byte and then the stuffed bytes and checksum.
pub encode_frame-stuffed : (bs : Bytes) → encode_frame bs ≡ sg_sync ∷ stuffed (bs ++ sum8 0 bs ∷ [])
unfolding encode_frame
encode_frame-stuffed bs =
    rw (encode_loop_lem bs 0 (sg_sync ∷ []), encode_byte-append, stuffed-append) (simp append-nil)

-- No byte of the list is the sync byte.
abbrev pub IsSyncFree : Bytes → Type 0
IsSyncFree [] = Unit {0}
IsSyncFree (b ∷ bs) = (b ≢ sg_sync) × IsSyncFree bs

IsSyncFree-append : (xs ys : Bytes) → IsSyncFree xs → IsSyncFree ys → IsSyncFree (xs ++ ys)
IsSyncFree-append [] ys hx hy = hy
IsSyncFree-append (x ∷ xs) ys hx hy = (hx.0, IsSyncFree-append xs ys hx.1 hy)

encode_byte-IsSyncFree : (b : ℕ) → IsSyncFree (encode_byte b [])
unfolding encode_byte
encode_byte-IsSyncFree b = ground arith

pub stuffed-IsSyncFree : (bs : Bytes) → IsSyncFree (stuffed bs)
stuffed-IsSyncFree [] = tt
stuffed-IsSyncFree (b ∷ bs) =
    IsSyncFree-append (encode_byte b []) (stuffed bs) (encode_byte-IsSyncFree b)
      (stuffed-IsSyncFree bs)

length-encode_byte : (b : ℕ) → length (encode_byte b []) ≤ 2
unfolding encode_byte
length-encode_byte b = ground arith

pub length-stuffed : (bs : Bytes) → length (stuffed bs) ≤ 2 * length bs
length-stuffed [] = omega arith
length-stuffed (b ∷ bs) =
    omega (
      arith,
      length-append (encode_byte b []) (stuffed bs),
      length-encode_byte b,
      length-stuffed bs,
    )

-- The frame for a payload of at most 249 bytes.
encode_frame-decoded_response :
    (request : Bytes) (status : ℕ) (payload : Bytes) (payload_size : ℕ)
    → payload_size ≤ 249
    → (tail : Bytes) × (encode_frame (decoded_response request status payload payload_size)
        ≡ sg_sync ∷ tail)
      × (length (sg_sync ∷ tail) ≤ 520)
      × IsSyncFree tail
unfolding decoded_response
encode_frame-decoded_response request status payload n h =
    let bs = decoded_response request status payload n in
    (
      stuffed (bs ++ sum8 0 bs ∷ []),
      encode_frame-stuffed bs,
      omega (
        arith,
        length-stuffed (bs ++ sum8 0 bs ∷ []),
        length-append bs (sum8 0 bs ∷ []),
        length-take n payload,
      ),
      stuffed-IsSyncFree (bs ++ sum8 0 bs ∷ []),
    )

-- `send_response` sends nothing for a payload of more than 249 bytes. For any other it sends one
-- frame of at most 520 bytes, which is the size of `encoded`, and after its first byte, the sync
-- byte, the sync byte does not occur in it; the message in it has at most 255 bytes.
pub send_response_fits :
    {S : Type 0} (usb : UsbDevice S) (request : Bytes) (status : ℕ) (payload : Bytes)
    (payload_size : ℕ) (s : S)
    → let s' = send_response usb request status payload payload_size s in
      ((249 < payload_size) × (s' ≡ s))
      ⊎ ((payload_size ≤ 249)
          × (tail : Bytes) × (s' ≡ exec (usb.send_cdc (sg_sync ∷ tail)) s)
          × (length (sg_sync ∷ tail) ≤ 520)
          × IsSyncFree tail
          × (length (decoded_response request status payload payload_size) ≤ 255))
unfolding send_response decoded_response
send_response_fits usb request status payload n s = elim (Bool-cases (ltb 249 n)) [
  | inl long ↦ inl (ltb→lt 249 n long, rw long refl)
  | inr short ↦
      let small : n ≤ 249 = ground arith in
      let (tail, frame, size, free) =
        encode_frame-decoded_response request status payload n small in
      inr (small, tail, rw (short, ← frame) refl, size, free, omega (arith, length-take n payload))
]
