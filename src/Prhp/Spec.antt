-- ===== src/Prhp/Spec.antt =====
-- spec/rfc-0001-prhp.md, sections 4 to 8: messages, the answer to a request, the card states.
use pareader.Base.{
  ℕ, ◌+◌, ◌-◌, ◌*◌, ◌/◌, ◌%◌, ◌&&◌, ◌||◌, not, Bool, Option, none, some, [], ◌∷◌, ◌++◌, Bytes,
  byte_at, take, drop, replicate, length, ◌==◌, ◌!=◌, if◌then◌else◌,
}

-- Section 4: the common header, and the body.
pub record Message : Type 0 where
  pub type : ℕ
  pub opcode : ℕ
  pub sequence : ℕ
  pub status : ℕ
  pub body : Bytes

-- Multi-octet integers are little-endian.
unfoldable pub decode : Bytes → Message
decode report = record {
  type = byte_at report 0;
  opcode = byte_at report 1;
  sequence = byte_at report 2 + byte_at report 3 * 256;
  status = byte_at report 4;
  body = drop 5 report;
}

-- The body is padded with zeros to 59 octets.
unfoldable pub encode : Message → Bytes
encode m =
    m.type
    ∷ m.opcode
    ∷ (m.sequence % 256)
    ∷ (m.sequence / 256)
    ∷ m.status
    ∷ (m.body ++ replicate (59 - length m.body) 0)

-- A response copies the opcode and the sequence.
abbrev pub response : Message → ℕ → Bytes → Option Message
response m status body =
    some
      (record { type = 2; opcode = m.opcode; sequence = m.sequence; status = status; body = body })

-- Section 6: the opcodes of signals.
abbrev pub is_signal_opcode : ℕ → Bool
is_signal_opcode opcode = opcode == 2 || opcode == 3

-- Section 4.1: a request needs a sequence and gets one response; nothing else is answered.
-- Section 6: an opcode with the wrong message type is discarded.
-- Sections 5 to 7: the status, and the body.
unfoldable pub respond : Message → Option Message
respond m =
    if m.type == 1 && m.sequence != 0 && not (is_signal_opcode m.opcode)
    then (if m.status != 0
        then response m 2 []
        else if m.opcode == 1
        then response m 0 (0 ∷ 1 ∷ [])
        else response m 1 [])
    else none

-- Section 8.
pub data CardState : Type 0 where
  none_state : CardState
  mifare_state : Bytes → Bytes → Bytes → CardState
  felica_state : Bytes → CardState

card_state : ℕ → Bytes → Option CardState
card_state type body =
    if type == 0
    then some none_state
    else if type == 1
    then some (mifare_state (take 10 body) (take 16 (drop 10 body)) (take 16 (drop 26 body)))
    else if type == 2
    then some (felica_state (take 8 body))
    else none

-- What a Host reads from a report: a state, or nothing where it is no card-state signal.
unfoldable pub decode_card_state : Bytes → Option CardState
unfolding decode card_state
decode_card_state report =
    let m = decode report in
    if m.type == 3 && m.opcode == 2 && m.sequence == 0 && m.status == 0
    then card_state (byte_at m.body 0) (drop 1 m.body)
    else none
