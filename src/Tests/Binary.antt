-- ===== src/Tests/Binary.antt =====
-- The wire formats at concrete bytes.
use dcp.Base.{
  ℕ, zero, suc, ◌≡◌, ◌<◌, ◌≤◌, ◌^◌, ◌↔◌, inl, inr, refl, true, false, none, some, List, [], ◌∷◌,
  ◌++◌, ◌==◌, if◌then◌else◌, take, replicate, ok, err, arith,
}
use dcp.Binary.Envelope as Envelope
use dcp.Binary.Hbtp as Hbtp
use dcp.Binary.Hbtp.RoundTrip.{from_bytes_verified-new, from_bytes_verified_lem}
use dcp.Binary.Invocation as Invocation
use dcp.Binary.Invocation.{null}
use dcp.Binary.Invocation.RoundTrip as InvocationLaws
use dcp.Binary.Invocation.Layout.{Filled, get_arg_type-set_arg_type}
use dcp.Binary.Signed as Signed
use dcp.Binary.Signed.ToolDef.{IsToolDef}
use dcp.Binary.Signed.Invocation as SignedLaws
use dcp.Binary.Signed.Invocation.{invocation_from_bytes_iff, invocation_signed_bytes_injective}
use dcp.Error.{backpressure, replay_attack, from_dcp_error, from_security_error, checksum_mismatch}
use dcp.Error.Laws.{read_response, read-from_error}
use dcp.Protocol.Parser.{
  ParsedMessage, MessageFlags, MessageHandler, parse, validate_message_type, validate_flags,
}
use dcp.Protocol.Parser.Accepts.{IsMessage, message_bytes, parse_iff}
use dcp.Tests.Data.{echo_call, sum, sum-lt, replicate-IsBytes}

abbrev message : List ℕ
message = 1 ∷ 0xdc ∷ 1 ∷ 2 ∷ 2 ∷ 0 ∷ 0 ∷ 0 ∷ 9 ∷ 9 ∷ []

abbrev envelope : Envelope.Envelope
envelope = record { magic = 0xdc01; message_type = 1; flags = 2; payload_len = 2 }

abbrev parsed : ParsedMessage
parsed = record { envelope = envelope; payload = 9 ∷ 9 ∷ [] }

parse_iff_example :
    (parse message ≡ ok parsed) ↔ ((message ≡ message_bytes parsed) × IsMessage parsed)
parse_iff_example = parse_iff message parsed (omega arith)

abbrev handler : MessageHandler
handler = record {
  handle_tool = λ _. ok tt;
  handle_resource = λ _. err backpressure;
  handle_prompt = λ _. err backpressure;
  handle_response = λ _. err backpressure;
  handle_error = λ _. err backpressure;
  handle_stream = λ _. err backpressure;
}

parses : parse message ≡ ok parsed
unfolding parse Envelope.from_bytes Envelope.cast validate_message_type validate_flags
parses = refl

abbrev signed_stream : MessageFlags
signed_stream = record { streaming = true; compressed = false; signed = true }

-- A stand-in for the CRC.
abbrev toy_crc : List ℕ → ℕ
toy_crc bytes = sum bytes

from_bytes_verified-new_example :
    Hbtp.from_bytes_verified toy_crc (Hbtp.as_bytes (Hbtp.new toy_crc 1 2 0 5 100) ++ (8 ∷ []))
    ≡ ok (Hbtp.new toy_crc 1 2 0 5 100)
from_bytes_verified-new_example =
    from_bytes_verified-new toy_crc 1 2 0 5 100 (8 ∷ []) (λ bs. omega (arith, sum-lt bs))
      (omega arith) (omega arith) (omega arith) (omega arith) (omega arith)

-- A header whose checksum is wrong.
abbrev damaged : List ℕ
damaged =
    0x50 ∷ 0x54 ∷ 0x42 ∷ 0x48 ∷ 1 ∷ 2 ∷ 0 ∷ 0 ∷ 5 ∷ 0 ∷ 0 ∷ 0 ∷ 100 ∷ 0 ∷ 0 ∷ 0 ∷ 78 ∷ 0 ∷ 0 ∷ 0
    ∷ []

abbrev damaged_header : Hbtp.HbtpHeader
damaged_header = record {
  magic = 0x48425450;
  version = 1;
  msg_type = 2;
  flags = 0;
  stream_id = 5;
  length = 100;
  checksum = 78;
}

from_bytes_verified_lem_example :
    Hbtp.from_bytes_verified toy_crc damaged
    ≡ (if 78 == toy_crc (take 16 damaged) then ok damaged_header else err checksum_mismatch)
unfolding Hbtp.from_bytes Hbtp.cast
from_bytes_verified_lem_example =
    from_bytes_verified_lem toy_crc damaged damaged_header (omega arith) refl

abbrev only_chunk : ℕ
only_chunk = 5

abbrev three_args : Invocation.ToolInvocation
three_args = record { tool_id = 7; arg_layout = 0x512; args_offset = 0; args_len = 12 }

abbrev three_args_bytes : List ℕ
three_args_bytes =
    7 ∷ 0 ∷ 0 ∷ 0 ∷ 0 ∷ 0 ∷ 0 ∷ 0 ∷ 0x12 ∷ 5 ∷ 0 ∷ 0 ∷ 0 ∷ 0 ∷ 0 ∷ 0 ∷ 0 ∷ 0 ∷ 0 ∷ 0 ∷ 12 ∷ 0 ∷ 0
    ∷ 0 ∷ []

from_bytes_iff_example :
    (Invocation.from_bytes three_args_bytes ≡ ok three_args)
    ↔ (InvocationLaws.IsInvocation three_args × (three_args_bytes ≡ Invocation.as_bytes three_args))
from_bytes_iff_example = InvocationLaws.from_bytes_iff three_args_bytes three_args (omega arith)

get_arg_type-set_arg_type_example :
    let next = Invocation.set_arg_type three_args 1 Invocation.string in
    (1 < 16
      → 1 < 16
      → Invocation.get_arg_type next 1
        ≡ (if 1 == 1 then some Invocation.string else Invocation.get_arg_type three_args 1))
    × (16 ≤ 1 → next ≡ three_args)
    × (16 ≤ 1 → Invocation.get_arg_type next 1 ≡ none)
    × (next.arg_layout < 2 ^ 64)
    × (next ≡ record three_args { arg_layout = next.arg_layout })
get_arg_type-set_arg_type_example =
    get_arg_type-set_arg_type three_args 1 1 Invocation.string (omega arith)

three-Filled : Filled three_args 0 3
unfolding Invocation.get_arg_type Invocation.from_u8
three-Filled zero lo hi = (Invocation.i32, refl, refl)
three-Filled (suc zero) lo hi = (Invocation.bool, refl, refl)
three-Filled (suc (suc zero)) lo hi = (Invocation.string, refl, refl)
three-Filled (suc (suc (suc j))) lo hi = absurd (omega arith)

fourth_null : Invocation.get_arg_type three_args 3 ≡ some null
unfolding Invocation.get_arg_type Invocation.from_u8
fourth_null = refl

abbrev tool_def : Signed.SignedToolDef
tool_def = record {
  tool_id = 7;
  schema_hash = replicate 32 3;
  capabilities = 5;
  signature = replicate 64 9;
  public_key = replicate 32 1;
}

tool_def-IsToolDef : IsToolDef tool_def
tool_def-IsToolDef = record {
  tool_ok = omega arith;
  hash_ok = refl;
  hash_bytes = replicate-IsBytes 32 3 (omega arith);
  capabilities_ok = omega arith;
  signature_ok = refl;
  signature_bytes = replicate-IsBytes 64 9 (omega arith);
  key_ok = refl;
  key_bytes = replicate-IsBytes 32 1 (omega arith);
}

-- The same definition under another signature and key.
abbrev resigned_def : Signed.SignedToolDef
resigned_def = record tool_def { signature = replicate 64 0; public_key = replicate 32 2 }

resigned_def-IsToolDef : IsToolDef resigned_def
resigned_def-IsToolDef = record {
  tool_ok = omega arith;
  hash_ok = refl;
  hash_bytes = replicate-IsBytes 32 3 (omega arith);
  capabilities_ok = omega arith;
  signature_ok = refl;
  signature_bytes = replicate-IsBytes 64 0 (omega arith);
  key_ok = refl;
  key_bytes = replicate-IsBytes 32 2 (omega arith);
}

echo_call-IsInvocation : SignedLaws.IsInvocation echo_call
echo_call-IsInvocation = record {
  tool_ok = omega arith;
  nonce_ok = omega arith;
  timestamp_ok = omega arith;
  hash_ok = refl;
  hash_bytes = replicate-IsBytes 32 10 (omega arith);
  signature_ok = refl;
  signature_bytes = replicate-IsBytes 64 213 (omega arith);
}

invocation_from_bytes_iff_example :
    (Signed.invocation_from_bytes message ≡ ok echo_call)
    ↔ (SignedLaws.IsInvocation echo_call × (message ≡ Signed.invocation_as_bytes echo_call))
invocation_from_bytes_iff_example = invocation_from_bytes_iff message echo_call (omega arith)

-- The same invocation under another signature.
abbrev resigned_call : Signed.SignedInvocation
resigned_call = record echo_call { signature = replicate 64 0 }

resigned_call-IsInvocation : SignedLaws.IsInvocation resigned_call
resigned_call-IsInvocation = record {
  tool_ok = omega arith;
  nonce_ok = omega arith;
  timestamp_ok = omega arith;
  hash_ok = refl;
  hash_bytes = replicate-IsBytes 32 10 (omega arith);
  signature_ok = refl;
  signature_bytes = replicate-IsBytes 64 0 (omega arith);
}

invocation_signed_bytes_injective_example :
    (echo_call.tool_id ≡ resigned_call.tool_id)
    × (echo_call.nonce ≡ resigned_call.nonce)
    × (echo_call.timestamp ≡ resigned_call.timestamp)
    × (echo_call.args_hash ≡ resigned_call.args_hash)
unfolding Signed.invocation_signed_bytes
invocation_signed_bytes_injective_example =
    invocation_signed_bytes_injective echo_call resigned_call echo_call-IsInvocation
      resigned_call-IsInvocation refl

read-from_error_example :
    (read_response (from_dcp_error backpressure) ≡ some (inl backpressure))
    × (read_response (from_security_error replay_attack) ≡ some (inr replay_attack))
read-from_error_example = read-from_error backpressure replay_attack
