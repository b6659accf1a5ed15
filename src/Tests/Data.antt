-- ===== src/Tests/Data.antt =====
-- Concrete values: a stand-in for the cryptography, a tool, a router and a signed invocation.
use dcp.Base.{
  ℕ, zero, suc, ◌+◌, ◌%◌, ◌≡◌, ◌<◌, refl, true, none, some, List, [], ◌∷◌, replicate, Result, ok,
  arith,
}
use dcp.Base.Bytes.{IsBytes, bytes_eq, bytes_eq_iff}
use dcp.Binary.Signed.{SignedInvocation}
use dcp.Binary.Invocation.{i32}
use dcp.Capability.Manifest.{CapabilityManifest}
use dcp.Dispatch.Args.{SharedArgs, ToolResult, success}
use dcp.Dispatch.Router.{ToolHandler, BinaryTrieRouter}
use dcp.Error.{DcpError}
use dcp.Protocol.Schema.{FieldDef, InputSchema}
use dcp.Security.Signing.{Crypto}

-- The sum of the bytes, as a byte.
abbrev pub sum : List ℕ → ℕ
sum [] = 0
sum (x ∷ xs) = (x + sum xs) % 256

abbrev pub toy_hash : ℕ → List ℕ → List ℕ
toy_hash n bytes = replicate n (sum bytes)

pub sum-lt : (bytes : List ℕ) → sum bytes < 256
sum-lt [] = omega arith
sum-lt (x ∷ xs) = omega arith

pub replicate-IsBytes : (n b : ℕ) → b < 256 → IsBytes (replicate n b)
replicate-IsBytes zero b h = tt
replicate-IsBytes (suc n) b h = (h, replicate-IsBytes n b h)

pub verify_toy : (m : List ℕ) → bytes_eq (toy_hash 64 m) (toy_hash 64 m) ≡ true
verify_toy m = (bytes_eq_iff (toy_hash 64 m) (toy_hash 64 m)).1 refl

-- A signature is the checksum of the message, and every key is valid.
abbrev pub toy : Crypto
toy = record {
  SigningKey = Unit {0};
  key_of_seed = λ _. tt;
  public_key = λ _. replicate 32 1;
  sign = λ _ m. toy_hash 64 m;
  valid_key = λ _. true;
  verify = λ _ m s. bytes_eq (toy_hash 64 m) s;
  blake3 = toy_hash 32;
  valid_key-public_key = λ _. refl;
  verify-sign = λ _ m. verify_toy m;
  length-public_key = λ _. refl;
  length-sign = λ _ m. refl;
  length-blake3 = λ m. refl;
  public_key-IsBytes = λ _. replicate-IsBytes 32 1 (omega arith);
  sign-IsBytes = λ _ m. replicate-IsBytes 64 (sum m) (sum-lt m);
  blake3-IsBytes = λ m. replicate-IsBytes 32 (sum m) (sum-lt m);
}

abbrev pub count_field : FieldDef
count_field = record { name = "count"; field_type = i32; offset = 0; size = 4; enum_range = none }

abbrev pub echo_schema : InputSchema
echo_schema = record { required = 1; fields = count_field ∷ [] }

abbrev pub echo : SharedArgs → Result ToolResult DcpError
echo args = ok (success args.bytes)

abbrev pub echo_handler : ToolHandler
echo_handler = record {
  run = echo;
  schema = record { name = "echo"; id = 7; description = "answers its input"; input = echo_schema };
  tool_id = 7;
  tool_name = "echo";
}

abbrev pub payload : List ℕ
payload = 1 ∷ 2 ∷ 3 ∷ 4 ∷ []

abbrev pub echo_args : SharedArgs
echo_args = record { bytes = payload; layout = 2 }

abbrev pub echo_router : BinaryTrieRouter
echo_router = record {
  handlers = none ∷ none ∷ none ∷ none ∷ none ∷ none ∷ none ∷ some echo_handler ∷ [];
  name_to_id = ("echo", 7) ∷ [];
  max_tool_id = 7;
}

abbrev pub echo_granted : CapabilityManifest
echo_granted = record {
  version = 1;
  reserved = 0;
  reserved2 = 0;
  tools = 128 ∷ replicate 127 0;
  resources = replicate 16 0;
  prompts = replicate 8 0;
  extensions = 0;
  signature = replicate 64 0;
}

abbrev pub key : List ℕ
key = replicate 32 1

abbrev pub echo_call : SignedInvocation
echo_call = record {
  tool_id = 7;
  nonce = 42;
  timestamp = 100;
  args_hash = replicate 32 10;
  signature = replicate 64 213;
}
