-- ===== src/Prhp/Refinement.antt =====
-- `prhp_dispatch` against the specification, and the requests at which the two differ.
use pareader.Base.{
  ℕ, ◌+◌, ◌*◌, ◌≤◌, ◌<◌, ◌≡◌, ◌≢◌, refl, ◌⊎◌, inl, inr, true, false, Option, none, some, [], ◌∷◌,
  arith, Bytes, IsBytes, byte_at, drop, length, replicate, ◌==◌, ◌!=◌, ◌&&◌, if◌then◌else◌, ap,
  exec, bit_or_bytes, length-append, length-replicate, ◌-◌, ◌∙◌, Bool-cases, ==_iff, ne_of_==,
}
use pareader.Usb.{UsbDevice}
use pareader.Prhp.Spec.{Message, decode, encode, response, is_signal_opcode, respond}
use pareader.Prhp.{read_le16, begin_response, prhp_dispatch}

-- A report of 64 bytes.
pub record IsReport (report : Bytes) : Type 0 where
  pub size : length report ≡ 64
  pub octets : IsBytes report

pub byte_at-lt : (xs : Bytes) (i : ℕ) → IsBytes xs → byte_at xs i < 256
byte_at-lt [] i h = omega arith
byte_at-lt (x ∷ xs) ℕ.zero h = h.0
byte_at-lt (x ∷ xs) (ℕ.suc i) h = byte_at-lt xs i h.1

read_le16-bytes :
    (report : Bytes)
    → IsBytes report
    → read_le16 (drop 2 report) ≡ byte_at report 2 + byte_at report 3 * 256
unfolding read_le16
read_le16-bytes [] h = refl
read_le16-bytes (a ∷ []) h = refl
read_le16-bytes (a ∷ b ∷ rest) h = omega (
  arith,
  bit_or_bytes (byte_at rest 0) (byte_at rest 1) (byte_at-lt rest 0 h.1.1),
  byte_at-lt rest 0 h.1.1,
  byte_at-lt rest 1 h.1.1,
)

-- The answer of the code: as in the specification, but a request with the opcode of a signal is
-- one with an unknown opcode.
unfoldable answered : Message → Option Message
answered m =
    if m.type == 1 && m.sequence != 0
    then (if m.status != 0
        then response m 2 []
        else if m.opcode == 1
        then response m 0 (0 ∷ 1 ∷ [])
        else response m 1 [])
    else none

answered-respond :
    (m : Message) → (m.type ≢ 1) ⊎ (is_signal_opcode m.opcode ≡ false) → answered m ≡ respond m
unfolding answered respond
answered-respond m (inl other) = ground arith
answered-respond m (inr plain) = ground (arith, plain)

module _ {S : Type 0} (usb : UsbDevice S) where
  abbrev pub deliver : Option Message → S → S
  deliver none s = s
  deliver (some m) s = exec (usb.send_prhp (encode m)) s

  -- What the code answers.
  prhp_dispatch-answered :
      (request : Bytes) (s : S)
      → IsReport request
      → prhp_dispatch usb request s ≡ deliver (answered (decode request)) s
  unfolding prhp_dispatch answered decode encode begin_response
  prhp_dispatch-answered request s r = ground (
    arith,
    read_le16-bytes request r.octets,
    byte_at-lt request 2 r.octets,
    byte_at-lt request 3 r.octets,
  )

  -- Every report of 64 bytes that is not a request with the opcode of a signal is answered as the
  -- specification says: the response, encoded, is sent once, or nothing is sent.
  pub prhp_dispatch-respond :
      (request : Bytes) (s : S)
      → IsReport request
      → ((decode request).type ≢ 1) ⊎ (is_signal_opcode (decode request).opcode ≡ false)
      → prhp_dispatch usb request s ≡ deliver (respond (decode request)) s
  prhp_dispatch-respond request s r h =
      prhp_dispatch-answered request s r
      ∙ ap (λ (m : Option Message). deliver m s) (answered-respond (decode request) h)

-- Encoding keeps a message, with its body padded.
decode-encode :
    (m : Message)
    → length m.body ≤ 59
    → (length (encode m) ≡ 64)
      × ((decode (encode m)).type ≡ m.type)
      × ((decode (encode m)).opcode ≡ m.opcode)
      × ((decode (encode m)).sequence ≡ m.sequence)
      × ((decode (encode m)).status ≡ m.status)
unfolding encode decode
decode-encode m fits = (
  omega (
    arith,
    length-append m.body (replicate (59 - length m.body) 0),
    length-replicate {A = ℕ} (59 - length m.body) 0,
  ),
  refl,
  refl,
  omega arith,
  refl,
)

module _ {S : Type 0} (usb : UsbDevice S) where
  -- One report is sent from `s`, of 64 bytes: a response that copies the opcode and the sequence.
  pub record Responds (request : Bytes) (s s' : S) : Type 0 where
    pub report : Bytes
    pub sent : s' ≡ exec (usb.send_prhp report) s
    pub size : length report ≡ 64
    pub type : (decode report).type ≡ 2
    pub opcode : (decode report).opcode ≡ (decode request).opcode
    pub sequence : (decode report).sequence ≡ (decode request).sequence

  message-Responds :
      (request : Bytes) (status : ℕ) (body : Bytes) (s : S)
      → length body ≤ 59
      → Responds request s (
          deliver usb
            (some (record {
              type = 2;
              opcode = (decode request).opcode;
              sequence = (decode request).sequence;
              status = status;
              body = body;
            }))
            s)
  message-Responds request status body s fits =
      let m : Message = record {
        type = 2;
        opcode = (decode request).opcode;
        sequence = (decode request).sequence;
        status = status;
        body = body;
      } in
      let (size, type, opcode, sequence, _) = decode-encode m fits in
      record {
        report = encode m;
        sent = refl;
        size = size;
        type = type;
        opcode = opcode;
        sequence = sequence;
      }

  request_case :
      (request : Bytes) (s : S)
      → ((decode request).type == 1) ≡ true
      → ((decode request).sequence == 0) ≡ false
      → Responds request s (deliver usb (answered (decode request)) s)
  unfolding answered
  request_case request s t q = elim (Bool-cases ((decode request).status == 0)) [
    | inr bad ↦ rw (t, q, bad) (message-Responds request 2 [] s (omega arith))
    | inl good ↦ elim (Bool-cases ((decode request).opcode == 1)) [
      | inl version ↦
          rw (t, q, good, version) (message-Responds request 0 (0 ∷ 1 ∷ []) s (omega arith))
      | inr unknown ↦ rw (t, q, good, unknown) (message-Responds request 1 [] s (omega arith))
    ]
  ]

  -- A request with a sequence gets exactly one response, of 64 bytes, with its opcode and its
  -- sequence; any other report gets none and changes nothing.
  pub prhp_dispatch-Responds :
      (request : Bytes) (s : S)
      → IsReport request
      → (((decode request).type ≡ 1)
          × ((decode request).sequence ≢ 0)
          × Responds request s (prhp_dispatch usb request s))
        ⊎ ((((decode request).type ≢ 1) ⊎ ((decode request).sequence ≡ 0))
            × (prhp_dispatch usb request s ≡ s))
  unfolding answered
  prhp_dispatch-Responds request s r =
      rw (prhp_dispatch-answered usb request s r) (elim (Bool-cases ((decode request).type == 1)) [
        | inr other ↦ inr (inl (ne_of_== _ 1 other), ground arith)
        | inl is_request ↦ elim (Bool-cases ((decode request).sequence == 0)) [
          | inl zero_sequence ↦ inr (inr ((==_iff _ 0).0 zero_sequence), ground arith)
          | inr counted ↦ inl (
            (==_iff _ 1).0 is_request,
            ne_of_== _ 0 counted,
            request_case request s is_request counted,
          )
        ]
      ])

  -- A request whose opcode is that of a signal is answered as an unknown opcode.
  pub prhp_dispatch-signal_opcode :
      (request : Bytes) (s : S)
      → IsReport request
      → (decode request).type ≡ 1
      → (decode request).sequence ≢ 0
      → (decode request).status ≡ 0
      → ((decode request).opcode ≡ 2) ⊎ ((decode request).opcode ≡ 3)
      → (report : Bytes) × (prhp_dispatch usb request s ≡ exec (usb.send_prhp report) s)
        × ((decode report).type ≡ 2)
        × ((decode report).status ≡ 1)
        × ((decode report).opcode ≡ (decode request).opcode)
        × ((decode report).sequence ≡ (decode request).sequence)
  unfolding answered
  prhp_dispatch-signal_opcode request s r type sequence status opcode =
      let m : Message = record {
        type = 2;
        opcode = (decode request).opcode;
        sequence = (decode request).sequence;
        status = 1;
        body = [];
      } in
      let (size, t, o, q, st) = decode-encode m (omega arith) in
      (encode m, prhp_dispatch-answered usb request s r ∙ ground arith, t, st, o, q)
