-- ===== src/Binary/Signed.antt =====
-- `src/binary/signed.rs`: signed tool definitions and signed invocations. An array `[u8; n]` is a
-- list of `n` bytes.
pub mod ToolDef
pub mod Invocation
use dcp.Base.{
  ℕ, not, Bool, List, ◌++◌, ltb, ◌==◌, if◌then◌else◌, length, replicate, any, Result, ok, err,
}
use dcp.Base.Bytes.{to_le, from_le, slice}
use dcp.Error.{DcpError, insufficient_data}

-- `SignedToolDef`: u32, [u8; 32], u64, [u8; 64] and [u8; 32].
pub record SignedToolDef : Type 0 where
  pub tool_id : ℕ
  pub schema_hash : List ℕ
  pub capabilities : ℕ
  pub signature : List ℕ
  pub public_key : List ℕ

-- `SignedInvocation`: u32, u64, u64, [u8; 32] and [u8; 64].
pub record SignedInvocation : Type 0 where
  pub tool_id : ℕ
  pub nonce : ℕ
  pub timestamp : ℕ
  pub args_hash : List ℕ
  pub signature : List ℕ

abbrev pub tool_def_size : ℕ
tool_def_size = 144

abbrev pub signed_invocation_size : ℕ
signed_invocation_size = 120

-- `bytes[i..j].iter().any(|&byte| byte != 0)`
abbrev pub any_nonzero : List ℕ → Bool
any_nonzero = any (λ byte. not (byte == 0))

-- The fields that `SignedToolDef::from_bytes` reads.
unfoldable pub tool_def_fields : List ℕ → SignedToolDef
tool_def_fields bytes = record {
  tool_id = from_le (slice 0 4 bytes);
  schema_hash = slice 4 32 bytes;
  capabilities = from_le (slice 40 8 bytes);
  signature = slice 48 64 bytes;
  public_key = slice 112 32 bytes;
}

-- `SignedToolDef::from_bytes`
unfoldable pub tool_def_from_bytes : List ℕ → Result SignedToolDef DcpError
tool_def_from_bytes bytes =
    if ltb (length bytes) tool_def_size
    then err insufficient_data
    else if not (length bytes == tool_def_size)
    then err DcpError.validation_failed
    else if any_nonzero (slice 36 4 bytes)
    then err DcpError.validation_failed
    else ok (tool_def_fields bytes)

-- `SignedToolDef::as_bytes`: bytes 36 to 40 of the zeroed array are not written.
unfoldable pub tool_def_as_bytes : SignedToolDef → List ℕ
tool_def_as_bytes d =
    to_le 4 d.tool_id
    ++ (d.schema_hash
        ++ (replicate 4 0 ++ (to_le 8 d.capabilities ++ (d.signature ++ d.public_key))))

-- `SignedToolDef::signed_bytes`
unfoldable pub tool_def_signed_bytes : SignedToolDef → List ℕ
tool_def_signed_bytes d = to_le 4 d.tool_id ++ (d.schema_hash ++ to_le 8 d.capabilities)

-- The fields that `SignedInvocation::from_bytes` reads.
unfoldable pub invocation_fields : List ℕ → SignedInvocation
invocation_fields bytes = record {
  tool_id = from_le (slice 0 4 bytes);
  nonce = from_le (slice 8 8 bytes);
  timestamp = from_le (slice 16 8 bytes);
  args_hash = slice 24 32 bytes;
  signature = slice 56 64 bytes;
}

-- `SignedInvocation::from_bytes`
unfoldable pub invocation_from_bytes : List ℕ → Result SignedInvocation DcpError
invocation_from_bytes bytes =
    if ltb (length bytes) signed_invocation_size
    then err insufficient_data
    else if not (length bytes == signed_invocation_size)
    then err DcpError.validation_failed
    else if any_nonzero (slice 4 4 bytes)
    then err DcpError.validation_failed
    else ok (invocation_fields bytes)

-- `SignedInvocation::as_bytes`: bytes 4 to 8 of the zeroed array are not written.
unfoldable pub invocation_as_bytes : SignedInvocation → List ℕ
invocation_as_bytes i =
    to_le 4 i.tool_id
    ++ (replicate 4 0 ++ (to_le 8 i.nonce ++ (to_le 8 i.timestamp ++ (i.args_hash ++ i.signature))))

-- `SignedInvocation::signed_bytes`
unfoldable pub invocation_signed_bytes : SignedInvocation → List ℕ
invocation_signed_bytes i =
    to_le 4 i.tool_id ++ (to_le 8 i.nonce ++ (to_le 8 i.timestamp ++ i.args_hash))
