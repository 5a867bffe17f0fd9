-- ===== src/Sega/Parser/RoundTrip.antt =====
-- What the encoder writes is what the parser dispatches.
use pareader.Base.{
  ℕ, zero, suc, ◌+◌, ◌<◌, ◌≡◌, refl, ◌∙◌, sym, ap, Bool, true, false, [], ◌∷◌, ◌++◌, append_assoc,
  append-nil, List, arith, Bytes, IsBytes, byte_at, length, length-append, length-set, take,
  take-set_end, take-set_same, get_or-set_self, set, sum8, sum8-lt, ◌==◌, if◌then◌else◌,
}
use native.Mathlib.Numerals.{add-one}
use pareader.Usb.{UsbDevice}
use pareader.Reader.{ReaderOps}
use pareader.Sega.Encode.{sg_sync, encode_byte, encode_frame}
use pareader.Sega.Encode.Shape.{stuffed, stuffed-append, encode_frame-stuffed}
use pareader.Sega.Dispatch.{dispatch}
use pareader.Sega.Parser.{
  Parser, capacity, reset_parser, complete, store_byte, receive_byte, sega_receive,
}

-- Inside a frame, with no escape pending.
abbrev held : Bytes → ℕ → Parser
held bytes n = record { synchronized = true; escaped = false; bytes = bytes; size = n }

-- A body that the length byte fits: `request[0] == size`.
abbrev pub IsBody : Bytes → Type 0
IsBody body = IsBytes body × (0 < length body) × (byte_at body 0 ≡ length body)

-- No frame is under way, and the array is the one of the parser.
pub record IsIdle (p : Parser) : Type 0 where
  pub array : length p.bytes ≡ capacity
  pub unescaped : p.escaped ≡ false

byte_at-take : (n : ℕ) (xs : Bytes) → 0 < n → byte_at (take n xs) 0 ≡ byte_at xs 0
byte_at-take zero xs h = elim h [ ]
byte_at-take (suc n) [] h = refl
byte_at-take (suc n) (x ∷ xs) h = refl

byte_at-append : (xs ys : Bytes) → 0 < length xs → byte_at (xs ++ ys) 0 ≡ byte_at xs 0
byte_at-append [] ys h = elim h [ ]
byte_at-append (x ∷ xs) ys h = refl

byte_at_0-lt : (xs : Bytes) → IsBytes xs → byte_at xs 0 < 256
byte_at_0-lt [] h = omega arith
byte_at_0-lt (x ∷ xs) h = h.0

abbrev pub wire : List Bytes → Bytes
wire [] = []
wire (body ∷ bodies) = encode_frame body ++ wire bodies

abbrev pub AreBodies : List Bytes → Type 0
AreBodies [] = Unit {0}
AreBodies (body ∷ bodies) = IsBody body × AreBodies bodies

module _ {S : Type 0} (usb : UsbDevice S) (reader : ReaderOps S) where
  receive_encoded :
      (bytes : Bytes) (n b : ℕ) (rest : Bytes) (s : S)
      → b < 256
      → sega_receive usb reader (held bytes n) (encode_byte b [] ++ rest) s
        ≡ sega_receive usb reader
            (store_byte usb reader (held bytes n) b s).0
            rest
            (store_byte usb reader (held bytes n) b s).1
  unfolding sega_receive receive_byte encode_byte
  receive_encoded bytes n b rest s h = ground arith

  store_more :
      (bytes : Bytes) (n b : ℕ) (s : S)
      → length bytes ≡ capacity
      → n < capacity
      → n < byte_at (set bytes n b) 0
      → store_byte usb reader (held bytes n) b s ≡ (held (set bytes n b) (n + 1), s)
  unfolding store_byte complete
  store_more bytes n b s array room more = ground arith

  store_last :
      (bytes body : Bytes) (n c : ℕ) (s : S)
      → length bytes ≡ capacity
      → n < capacity
      → byte_at (set bytes n c) 0 ≡ n
      → take n bytes ≡ body
      → store_byte usb reader (held bytes n) c s ≡ (
        reset_parser (held (set bytes n c) n),
        if sum8 0 body == c then dispatch usb reader body n s else s,
      )
  unfolding store_byte complete
  store_last bytes body n c s array room full used =
      ground (arith, take-set_same bytes n c, get_or-set_self bytes n c 0 (omega arith))

  -- The bytes of `body` from `xs` on are stored one by one.
  receive_body :
      (rest xs bytes : Bytes) (more : Bytes) (s : S)
      → length bytes ≡ capacity
      → take (length xs) bytes ≡ xs
      → IsBody (xs ++ rest)
      → IsBytes rest
      → (bytes' : Bytes) × (sega_receive usb reader
            (held bytes (length xs))
            (stuffed rest ++ more)
            s
          ≡ sega_receive usb reader (held bytes' (length (xs ++ rest))) more s)
        × (length bytes' ≡ capacity)
        × (take (length (xs ++ rest)) bytes' ≡ xs ++ rest)
  receive_body [] xs bytes more s array used body h = rw append-nil (bytes, refl, array, used)
  receive_body (b ∷ rest) xs bytes more s array used body h =
      let longer : length (xs ++ b ∷ rest) ≡ length xs + suc (length rest) =
        length-append xs (b ∷ rest) in
      let one : length (xs ++ b ∷ []) ≡ length xs + 1 = length-append xs (b ∷ []) in
      let small : byte_at (xs ++ b ∷ rest) 0 < 256 = byte_at_0-lt (xs ++ b ∷ rest) body.0 in
      let room : length xs < capacity = omega arith in
      let regroup : (xs ++ b ∷ []) ++ rest ≡ xs ++ b ∷ rest = append_assoc xs (b ∷ []) rest in
      let used' : take (suc (length xs)) (set bytes (length xs) b) ≡ xs ++ b ∷ [] =
        take-set_end bytes (length xs) b (omega arith) ∙ ap (λ (t : Bytes). t ++ b ∷ []) used in
      let head : byte_at (set bytes (length xs) b) 0 ≡ byte_at (xs ++ b ∷ rest) 0 =
        sym (byte_at-take (suc (length xs)) (set bytes (length xs) b) (omega arith))
        ∙ ap (λ (t : Bytes). byte_at t 0) used'
        ∙ sym (byte_at-append (xs ++ b ∷ []) rest (omega arith))
        ∙ ap (λ (t : Bytes). byte_at t 0) regroup in
      let later =
        receive_body rest (xs ++ b ∷ []) (set bytes (length xs) b) more s
          (length-set bytes (length xs) b ∙ array) (rw (one, add-one) used') (rw regroup body)
          h.1 in
      rw (← regroup) (
        later.0,
        rw (append_assoc (encode_byte b []) (stuffed rest) more) (
            receive_encoded bytes (length xs) b (stuffed rest ++ more) s h.0
            ∙ ap (λ (t : Parser × S). sega_receive usb reader t.0 (stuffed rest ++ more) t.1)
                (store_more bytes (length xs) b s array room (omega arith)
                  ∙ ap (λ (k : ℕ). (held (set bytes (length xs) b) k, s)) (sym one))
            ∙ later.1),
        later.2,
        later.3,
      )

  receive_sync :
      (p : Parser) (rest : Bytes) (s : S)
      → p.escaped ≡ false
      → sega_receive usb reader p (sg_sync ∷ rest) s
        ≡ sega_receive usb reader (held p.bytes 0) rest s
  unfolding sega_receive receive_byte
  receive_sync p rest s h = ground arith

  pub sega_receive-stuffed :
      (p : Parser) (body : Bytes) (c : ℕ) (more : Bytes) (s : S)
      → IsIdle p
      → IsBody body
      → c < 256
      → (q : Parser) × (sega_receive usb reader p
            (sg_sync ∷ (stuffed body ++ (encode_byte c [] ++ more)))
            s
          ≡ sega_receive usb reader q more
              (if sum8 0 body == c then dispatch usb reader body (length body) s else s))
        × IsIdle q
  sega_receive-stuffed p body c more s idle b h =
      let fed = receive_body body [] p.bytes (encode_byte c [] ++ more) s idle.array refl b b.0 in
      let bytes = fed.0 in
      let n = length body in
      let small : byte_at body 0 < 256 = byte_at_0-lt body b.0 in
      let head : byte_at (set bytes n c) 0 ≡ n =
        sym (byte_at-take n (set bytes n c) b.1)
        ∙ ap (λ (t : Bytes). byte_at t 0) (take-set_same bytes n c ∙ fed.3)
        ∙ b.2 in
      (
        reset_parser (held (set bytes n c) n),
        receive_sync p (stuffed body ++ (encode_byte c [] ++ more)) s idle.unescaped
            ∙ fed.1
            ∙ receive_encoded bytes n c more s h
            ∙ ap (λ (t : Parser × S). sega_receive usb reader t.0 more t.1)
                (store_last bytes body n c s fed.2 (omega arith) head fed.3),
        record { array = length-set bytes n c ∙ fed.2; unescaped = refl },
      )

  -- The dispatches that a list of bodies stands for, in order.
  abbrev pub dispatch_all : List Bytes → S → S
  dispatch_all [] s = s
  dispatch_all (body ∷ bodies) s = dispatch_all bodies (dispatch usb reader body (length body) s)

  wire-cons :
      (body more : Bytes)
      → encode_frame body ++ more
        ≡ sg_sync ∷ (stuffed body ++ (encode_byte (sum8 0 body) [] ++ more))
  wire-cons body more =
      rw (encode_frame-stuffed body, stuffed-append body (sum8 0 body ∷ []))
        (simp (append_assoc, append-nil))

  -- Frames that the encoder writes one after the other are each dispatched once, in order,
  -- from any parser that has no escape pending, and leave it so.
  pub sega_receive-wire :
      (p : Parser) (bodies : List Bytes) (s : S)
      → IsIdle p
      → AreBodies bodies
      → (q : Parser) × (sega_receive usb reader p (wire bodies) s ≡ (q, dispatch_all bodies s))
        × IsIdle q
  unfolding sega_receive
  sega_receive-wire p [] s idle h = (p, refl, idle)
  sega_receive-wire p (body ∷ bodies) s idle h =
      let here =
        sega_receive-stuffed p body (sum8 0 body) (wire bodies) s idle h.0
          (sum8-lt 0 body (omega arith)) in
      let good : (sum8 0 body == sum8 0 body) ≡ true = ground arith in
      let later =
        sega_receive-wire here.0 bodies (dispatch usb reader body (length body) s) here.2 h.1 in
      (
        later.0,
        ap (λ (t : Bytes). sega_receive usb reader p t s) (wire-cons body (wire bodies))
            ∙ here.1
            ∙ ap
                (λ (t : Bool).
                  sega_receive usb reader here.0 (wire bodies)
                    (if t then dispatch usb reader body (length body) s else s))
                good
            ∙ later.1,
        later.2,
      )
