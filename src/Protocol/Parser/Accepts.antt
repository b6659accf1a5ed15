-- ===== src/Protocol/Parser/Accepts.antt =====
-- `parse` accepts exactly the images of the writer.
use dcp.Base.{
  ℕ, ◌+◌, ◌-◌, ◌<◌, ◌≡◌, refl, ap, ◌∙◌, ◌↔◌, List, ◌++◌, some, length, ok, arith, drop,
  length-append, length-drop, take_all, Option-cases, inl, inr, sym, Result-cases,
}
use dcp.Base.Bytes.{IsBytes, slice, slice-append_right}
use dcp.Binary.Envelope.{Envelope, MessageType, from_u8, as_bytes, from_bytes, type_code}
use dcp.Binary.Envelope.RoundTrip.{
  IsEnvelope, from_bytes-as_bytes, as_bytes-from_bytes, from_u8_inv,
}
use dcp.Protocol.Parser.{
  ParsedMessage, validate_message_type, validate_flags, parse, dispatch, handle, MessageHandler,
}
use dcp.Protocol.Parser.Flags.{validate_flags_iff, validate_flags-ok}

-- A message that the protocol allows: a header within its widths, a known type, known flags, and
-- a payload of the announced length.
pub record IsMessage (m : ParsedMessage) : Type 0 where
  pub header : IsEnvelope m.envelope
  pub kind : MessageType
  pub known : from_u8 m.envelope.message_type ≡ some kind
  pub flags : m.envelope.flags < 8
  pub sized : length m.payload ≡ m.envelope.payload_len

-- The bytes of a message.
unfoldable pub message_bytes : ParsedMessage → List ℕ
message_bytes m = as_bytes m.envelope ++ m.payload

length-as_bytes : (e : Envelope) → length (as_bytes e) ≡ 8
unfolding as_bytes
length-as_bytes e = refl

payload_slice :
    (m : ParsedMessage) (n : ℕ) → n ≡ length m.payload → slice 8 n (message_bytes m) ≡ m.payload
unfolding message_bytes
payload_slice m n e =
    slice-append_right (as_bytes m.envelope) m.payload 8 n 0
      (omega (arith, length-as_bytes m.envelope))
    ∙ unfold slice in take_all n m.payload (omega arith)

parse-message_bytes : (m : ParsedMessage) → IsMessage m → parse (message_bytes m) ≡ ok m
unfolding parse validate_message_type
parse-message_bytes m h =
    let n : length (message_bytes m) ≡ 8 + m.envelope.payload_len =
      unfold message_bytes in
      omega (arith, length-append (as_bytes m.envelope) m.payload, length-as_bytes m.envelope) in
    let header : from_bytes (message_bytes m) ≡ ok m.envelope =
      unfold message_bytes in from_bytes-as_bytes m.envelope m.payload h.header in
    ground (
      arith,
      n,
      header,
      validate_flags-ok m.envelope.flags h.flags,
      payload_slice m (8 + m.envelope.payload_len - 8) (omega arith),
    )

-- What a successful parse has tested.
record Tested (bytes : List ℕ) (m : ParsedMessage) : Type 0 where
  read : from_bytes bytes ≡ ok m.envelope
  kind : MessageType
  known : from_u8 m.envelope.message_type ≡ some kind
  flags : validate_flags m.envelope.flags ≡ ok tt
  size : length bytes ≡ 8 + m.envelope.payload_len
  payload : m.payload ≡ slice 8 (8 + m.envelope.payload_len - 8) bytes

after_header :
    (bytes : List ℕ) (m : ParsedMessage) (e : Envelope)
    → from_bytes bytes ≡ ok e
    → parse bytes ≡ ok m
    → Tested bytes m
unfolding parse validate_message_type
after_header bytes m e r h = elim (Option-cases (from_u8 e.message_type)) [
  | inl n ↦ absurd (ground arith)
  | inr (t, k) ↦
      let same : m.envelope ≡ e = ground arith in
      record {
        read = ground arith;
        kind = t;
        known = ground arith;
        flags = ground arith;
        size = ground arith;
        payload = ground arith;
      }
]

parse-Tested : (bytes : List ℕ) (m : ParsedMessage) → parse bytes ≡ ok m → Tested bytes m
parse-Tested bytes m h = elim (Result-cases (from_bytes bytes)) [
  | inl (e, r) ↦ after_header bytes m e r h
  | inr (x, r) ↦ absurd (unfold parse in ground arith)
]

parse_inv :
    (bytes : List ℕ) (m : ParsedMessage)
    → IsBytes bytes
    → parse bytes ≡ ok m
    → (bytes ≡ message_bytes m) × IsMessage m
parse_inv bytes m b h =
    let t = parse-Tested bytes m h in
    let (whole, header) = as_bytes-from_bytes bytes m.envelope b t.read in
    let rest : m.payload ≡ drop 8 bytes =
      t.payload
      ∙ unfold slice in take_all _ (drop 8 bytes) (omega (arith, length-drop 8 bytes, t.size)) in
    (
      unfold message_bytes in (sym whole ∙ ap (λ r. as_bytes m.envelope ++ r) (sym rest)),
      record {
        header = header;
        kind = t.kind;
        known = t.known;
        flags = (validate_flags_iff m.envelope.flags (omega arith)).0 t.flags;
        sized = ap length rest ∙ omega (arith, length-drop 8 bytes, t.size);
      },
    )

-- On byte strings `parse` accepts exactly the messages that the protocol allows: it returns `m`
-- exactly when `m` is such a message and the input is its header followed by its payload.
pub parse_iff :
    (bytes : List ℕ) (m : ParsedMessage)
    → IsBytes bytes
    → (parse bytes ≡ ok m) ↔ ((bytes ≡ message_bytes m) × IsMessage m)
parse_iff bytes m b = (parse_inv bytes m b, λ p. rw (p.0) (parse-message_bytes m p.1))

-- A parsed message is never refused by the dispatcher for its type: it reaches the handler of the
-- type that its header names, and the handler's result is returned.
pub dispatch-parse :
    (bytes : List ℕ) (m : ParsedMessage) (h : MessageHandler)
    → parse bytes ≡ ok m
    → (t : MessageType) × (m.envelope.message_type ≡ type_code t) × (dispatch m h ≡ handle h t m)
dispatch-parse bytes m h p =
    let t = parse-Tested bytes m p in
    (
      t.kind,
      from_u8_inv m.envelope.message_type t.kind t.known,
      unfold dispatch validate_message_type in rw t.known,
    )
