-- ===== src/Pn532/Frame/Normal.antt =====
-- The normal information frame of the PN532, which `command_frame` writes and `parse_response`
-- reads.
use pareader.Base.{
  ℕ, zero, suc, ◌+◌, ◌-◌, ◌%◌, ◌≤◌, ◌<◌, ◌≡◌, ◌↔◌, refl, sym, ap, ◌∙◌, ◌||◌, [], ◌∷◌, ◌++◌,
  append_assoc, arith, Bytes, IsBytes, byte_at, take, drop, take-append, length_taken, length,
  length-append, sum8, sum8-lt, u8, ltb, ◌==◌, ◌!=◌, if◌then◌else◌, invalid_size, invalid_response,
  invalid_crc, ok, err,
}
use pareader.Pn532.Codes.{pn532_frame_capacity}
use pareader.Pn532.Frame.{neg8, command_frame, parse_response}

-- Preamble, length, its complement, direction, code, content, checksum, postamble: the length and
-- its complement, and the bytes from the direction to the checksum, sum to 0.
abbrev pub normal_frame : ℕ → ℕ → Bytes → Bytes
normal_frame direction code content =
    0x00
    ∷ 0x00
    ∷ 0xFF
    ∷ (length content + 2)
    ∷ (256 - (length content + 2))
    ∷ direction
    ∷ code
    ∷ (content ++ neg8 (sum8 0 (direction ∷ code ∷ content)) ∷ 0x00 ∷ [])

-- The frame of a command with at most 252 bytes of payload is a normal frame of at most 261 bytes.
pub command_frame-normal :
    (command : ℕ) (payload : Bytes)
    → command < 256
    → length payload + 2 ≤ 254
    → (command_frame command payload ≡ normal_frame 0xD4 command payload)
      × (length (command_frame command payload) ≤ 261)
unfolding command_frame
command_frame-normal command payload c h =
    let size : (length payload + 2) % 256 ≡ length payload + 2 = omega arith in
    let complement : (256 - (length payload + 2) % 256) % 256 ≡ 256 - (length payload + 2) =
      omega arith in
    let tail = neg8 (sum8 (u8 (0xD4 + command)) payload) ∷ 0x00 ∷ [] in
    (rw (complement, size) refl, omega (arith, length-append payload tail))

-- What is tested, at a frame with its first seven bytes apart.
parse_cons :
    (command capacity a0 a1 a2 m a4 a5 a6 : ℕ) (rest : Bytes)
    → parse_response command capacity (a0 ∷ a1 ∷ a2 ∷ suc (suc m) ∷ a4 ∷ a5 ∷ a6 ∷ rest) ≡ (
        if a0 != 0x00 || a1 != 0x00 || a2 != 0xFF
        then err invalid_response
        else if ltb (suc (suc m)) 2 || suc (suc m) == 0xFF || u8 (suc (suc m) + a4) != 0
        then err invalid_response
        else if ltb pn532_frame_capacity (suc (suc (suc (suc (suc (suc (suc m)))))) + 2)
        then err invalid_size
        else if u8 (sum8 0 (a5 ∷ a6 ∷ take m rest) + byte_at rest m) != 0
            || byte_at rest (suc m) != 0
        then err invalid_crc
        else if a5 != 0xD5 || a6 != u8 (command + 1)
        then err invalid_response
        else if ltb capacity m
        then err invalid_size
        else ok (take m rest))
unfolding parse_response
parse_cons command capacity a0 a1 a2 m a4 a5 a6 rest = rw (seven, eight, less) refl
  where
    seven : 5 + suc (suc m) ≡ suc (suc (suc (suc (suc (suc (suc m))))))
    seven = omega arith

    eight :
        suc (suc (suc (suc (suc (suc (suc m)))))) + 1
        ≡ suc (suc (suc (suc (suc (suc (suc (suc m)))))))
    eight = omega arith

    less : suc (suc m) - 2 ≡ m
    less = omega arith

-- What an accepted frame satisfies.
record Accepted (command capacity a0 a1 a2 m a4 a5 a6 : ℕ) (rest data_bytes : Bytes) : Type 0 where
  preamble : (a0 ≡ 0x00) × (a1 ≡ 0x00) × (a2 ≡ 0xFF)
  complement : (suc (suc m) + a4) % 256 ≡ 0
  size : m < 253
  checksum : (sum8 0 (a5 ∷ a6 ∷ take m rest) + byte_at rest m) % 256 ≡ 0
  postamble : byte_at rest (suc m) ≡ 0
  direction : a5 ≡ 0xD5
  code : a6 ≡ u8 (command + 1)
  fits : m ≤ capacity
  content : data_bytes ≡ take m rest

parse-Accepted :
    (command capacity a0 a1 a2 m a4 a5 a6 : ℕ) (rest data_bytes : Bytes)
    → suc (suc m) < 256
    → parse_response command capacity (a0 ∷ a1 ∷ a2 ∷ suc (suc m) ∷ a4 ∷ a5 ∷ a6 ∷ rest)
      ≡ ok data_bytes
    → Accepted command capacity a0 a1 a2 m a4 a5 a6 rest data_bytes
parse-Accepted command capacity a0 a1 a2 m a4 a5 a6 rest content b h =
    let h' = rw (parse_cons command capacity a0 a1 a2 m a4 a5 a6 rest) at h in ground arith

-- The content, the checksum byte, the postamble, and what is behind.
split_rest :
    (m : ℕ) (xs : Bytes)
    → m + 2 ≤ length xs
    → xs ≡ take m xs ++ byte_at xs m ∷ byte_at xs (suc m) ∷ drop (suc (suc m)) xs
split_rest zero [] h = absurd (omega arith)
split_rest zero (x ∷ []) h = absurd (omega arith)
split_rest zero (x ∷ y ∷ xs) h = refl
split_rest (suc m) [] h = absurd (omega arith)
split_rest (suc m) (x ∷ xs) h = ap (◌∷◌ x) (split_rest m xs (omega arith))

IsBytes-at : (xs : Bytes) (i : ℕ) → IsBytes xs → byte_at xs i < 256
IsBytes-at [] i h = omega arith
IsBytes-at (x ∷ xs) zero h = h.0
IsBytes-at (x ∷ xs) (suc i) h = IsBytes-at xs i h.1

-- The frame starts with a normal frame to the host that answers `command` with `content`.
pub record IsAnswer (command : ℕ) (content frame : Bytes) : Type 0 where
  pub rest : Bytes
  pub starts : frame ≡ normal_frame 0xD5 (u8 (command + 1)) content ++ rest
  pub short : length content ≤ 252

Accepted-IsAnswer :
    (command capacity a0 a1 a2 m a4 a5 a6 : ℕ) (rest content : Bytes)
    → length rest ≡ 273
    → suc (suc m) < 256
    → a4 < 256
    → IsBytes rest
    → Accepted command capacity a0 a1 a2 m a4 a5 a6 rest content
    → IsAnswer command content (a0 ∷ a1 ∷ a2 ∷ suc (suc m) ∷ a4 ∷ a5 ∷ a6 ∷ rest)
      × (length content ≤ capacity)
Accepted-IsAnswer command capacity a0 a1 a2 m a4 a5 a6 rest content size b b4 bytes a =
    let n : length content ≡ m =
      ap (λ (t : Bytes). length t) a.content ∙ length_taken m rest (omega (arith, a.size)) in
    let seed = (213 + u8 (command + 1)) % 256 in
    let sums : sum8 (((0 + a5) % 256 + a6) % 256) (take m rest) ≡ sum8 seed content =
      rw (a.direction, a.code, a.content) refl in
    let check : byte_at rest m ≡ neg8 (sum8 seed content) =
      omega
        (arith, sums, a.checksum, IsBytes-at rest m bytes, sum8-lt seed content (omega arith)) in
    let tail = drop (suc (suc m)) rest in
    let behind : rest ≡ (content ++ neg8 (sum8 seed content) ∷ 0x00 ∷ []) ++ tail =
      split_rest m rest (omega (arith, a.size))
      ∙ rw (check, a.postamble, ← a.content)
          (sym (append_assoc content (neg8 (sum8 seed content) ∷ 0x00 ∷ []) tail)) in
    let length_byte : suc (suc m) ≡ length content + 2 = omega arith in
    let complement : a4 ≡ 256 - (length content + 2) = omega (arith, a.complement) in
    (
      record {
        rest = tail;
        starts = cc (a.preamble.0, a.preamble.1, a.preamble.2);
        short = omega (arith, a.size);
      },
      omega (arith, a.fits),
    )

parse-IsAnswer :
    (command capacity : ℕ) (frame content : Bytes)
    → length frame ≡ pn532_frame_capacity
    → IsBytes frame
    → parse_response command capacity frame ≡ ok content
    → IsAnswer command content frame × (length content ≤ capacity)
unfolding parse_response
parse-IsAnswer command capacity (a0 ∷ a1 ∷ a2 ∷ suc (suc m) ∷ a4 ∷ a5 ∷ a6 ∷ rest) content size b
      h =
    Accepted-IsAnswer command capacity a0 a1 a2 m a4 a5 a6 rest content (omega arith) (omega arith)
      b.1.1.1.1.0 b.1.1.1.1.1.1.1
      (parse-Accepted command capacity a0 a1 a2 m a4 a5 a6 rest content (omega arith) h)
parse-IsAnswer command capacity _ content size b h = absurd (ground arith)

byte_at-behind : (xs ys : Bytes) (i : ℕ) → byte_at (xs ++ ys) (length xs) ≡ byte_at ys 0
byte_at-behind [] ys i = refl
byte_at-behind (x ∷ xs) ys i = byte_at-behind xs ys i

byte_at-behind_suc : (xs ys : Bytes) → byte_at (xs ++ ys) (suc (length xs)) ≡ byte_at ys 1
byte_at-behind_suc [] ys = refl
byte_at-behind_suc (x ∷ xs) ys = byte_at-behind_suc xs ys

pub answer-parse :
    (command capacity : ℕ) (content rest : Bytes)
    → length content ≤ 252
    → length content ≤ capacity
    → parse_response command capacity (normal_frame 0xD5 (u8 (command + 1)) content ++ rest)
      ≡ ok content
answer-parse command capacity content rest short fits =
    let n = length content in
    let sum = sum8 0 (0xD5 ∷ u8 (command + 1) ∷ content) in
    let end = neg8 sum ∷ 0x00 ∷ rest in
    let behind : (content ++ neg8 sum ∷ 0x00 ∷ []) ++ rest ≡ content ++ end =
      append_assoc content (neg8 sum ∷ 0x00 ∷ []) rest in
    let two : n + 2 ≡ suc (suc n) = omega arith in
    rw (behind, two)
      (parse_cons command capacity 0x00 0x00 0xFF n (256 - suc (suc n)) 0xD5 (u8 (command + 1))
          (content ++ end)
        ∙ rw (take-append content end, byte_at-behind content end 0, byte_at-behind_suc content end)
            (ground (arith, sum8-lt 0 (0xD5 ∷ u8 (command + 1) ∷ content) (omega arith))))

-- `command` accepts a response of 280 bytes with the content `content` exactly when the bytes
-- start with the normal frame that answers the command with that content, at most 252 bytes of
-- it, and the caller's array has room for it.
pub parse_response_iff :
    (command capacity : ℕ) (frame content : Bytes)
    → length frame ≡ pn532_frame_capacity
    → IsBytes frame
    → (parse_response command capacity frame ≡ ok content)
      ↔ (IsAnswer command content frame × (length content ≤ capacity))
parse_response_iff command capacity frame content size bytes = (
  parse-IsAnswer command capacity frame content size bytes,
  (λ a. rw a.0.starts (answer-parse command capacity content a.0.rest a.0.short a.1)),
)
