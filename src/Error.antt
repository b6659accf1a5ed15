-- ===== src/Error.antt =====
-- `src/error.rs`: the error values of the protocol, and the error response on the wire.
pub mod Laws
use dcp.Base.{ℕ}

-- `DCPError`
pub data DcpError : Type 0 where
  insufficient_data invalid_magic unknown_message_type tool_not_found : DcpError
  validation_failed hash_mismatch signature_invalid nonce_reused : DcpError
  timestamp_expired checksum_mismatch backpressure out_of_bounds : DcpError
  internal_error resource_exhausted session_not_found capability_denied : DcpError

-- `SecurityError`
pub data SecurityError : Type 0 where
  invalid_signature expired_timestamp replay_attack insufficient_capabilities : SecurityError
  capacity_exceeded validation_failed args_hash_mismatch : SecurityError

-- `err as u8`: the discriminants that the declaration assigns.
pub dcp_code : DcpError → ℕ
dcp_code insufficient_data = 1
dcp_code invalid_magic = 2
dcp_code unknown_message_type = 3
dcp_code tool_not_found = 4
dcp_code validation_failed = 5
dcp_code hash_mismatch = 6
dcp_code signature_invalid = 7
dcp_code nonce_reused = 8
dcp_code timestamp_expired = 9
dcp_code checksum_mismatch = 10
dcp_code backpressure = 11
dcp_code out_of_bounds = 12
dcp_code internal_error = 13
dcp_code resource_exhausted = 14
dcp_code session_not_found = 15
dcp_code capability_denied = 16

pub security_code : SecurityError → ℕ
security_code invalid_signature = 1
security_code expired_timestamp = 2
security_code replay_attack = 3
security_code insufficient_capabilities = 4
security_code capacity_exceeded = 5
security_code validation_failed = 6
security_code args_hash_mismatch = 7

-- `ErrorResponse`
pub record ErrorResponse : Type 0 where
  pub category : ℕ
  pub code : ℕ
  pub context_len : ℕ

-- `ErrorResponse::new`
pub response : ℕ → ℕ → ErrorResponse
response category code = record { category = category; code = code; context_len = 0 }

-- `ErrorResponse::from_dcp_error`
pub from_dcp_error : DcpError → ErrorResponse
unfolding response dcp_code
from_dcp_error e = response 1 (dcp_code e)

-- `ErrorResponse::from_security_error`
pub from_security_error : SecurityError → ErrorResponse
unfolding response security_code
from_security_error e = response 2 (security_code e)
