-- ===== src/Error/Laws.antt =====
-- What an error response tells its reader.
use dcp.Base.{ℕ, ◌≡◌, refl, ◌⊎◌, inl, inr, ◌==◌, if◌then◌else◌, Option, none, some}
use dcp.Error.{
  DcpError, SecurityError, ErrorResponse, from_dcp_error, from_security_error, insufficient_data,
  invalid_magic, unknown_message_type, tool_not_found, hash_mismatch, signature_invalid,
  nonce_reused, timestamp_expired, checksum_mismatch, backpressure, out_of_bounds, internal_error,
  resource_exhausted, session_not_found, capability_denied, invalid_signature, expired_timestamp,
  replay_attack, insufficient_capabilities, capacity_exceeded, args_hash_mismatch,
}

-- The error of a response, in the two numberings.
abbrev dcp_of : ℕ → Option DcpError
dcp_of n =
    if n == 1
    then some insufficient_data
    else if n == 2
    then some invalid_magic
    else if n == 3
    then some unknown_message_type
    else if n == 4
    then some tool_not_found
    else if n == 5
    then some DcpError.validation_failed
    else if n == 6
    then some hash_mismatch
    else if n == 7
    then some signature_invalid
    else if n == 8
    then some nonce_reused
    else if n == 9
    then some timestamp_expired
    else if n == 10
    then some checksum_mismatch
    else if n == 11
    then some backpressure
    else if n == 12
    then some out_of_bounds
    else if n == 13
    then some internal_error
    else if n == 14
    then some resource_exhausted
    else if n == 15
    then some session_not_found
    else if n == 16
    then some capability_denied
    else none

abbrev security_of : ℕ → Option SecurityError
security_of n =
    if n == 1
    then some invalid_signature
    else if n == 2
    then some expired_timestamp
    else if n == 3
    then some replay_attack
    else if n == 4
    then some insufficient_capabilities
    else if n == 5
    then some capacity_exceeded
    else if n == 6
    then some SecurityError.validation_failed
    else if n == 7
    then some args_hash_mismatch
    else none

-- What a reader makes of the two bytes of a response.
abbrev pub read_response : ErrorResponse → Option (DcpError ⊎ SecurityError)
read_response r =
    if r.category == 1
    then (elim (dcp_of r.code) [ some e ↦ some (inl e) | none ↦ none ])
    else if r.category == 2
    then (elim (security_of r.code) [ some e ↦ some (inr e) | none ↦ none ])
    else none

read-dcp : (e : DcpError) → read_response (from_dcp_error e) ≡ some (inl e)
unfolding from_dcp_error
read-dcp insufficient_data = refl
read-dcp _ = refl

read-security : (e : SecurityError) → read_response (from_security_error e) ≡ some (inr e)
unfolding from_security_error
read-security invalid_signature = refl
read-security _ = refl

-- The category and the code of a response determine the error that it was made from, over both
-- kinds of error.
pub read-from_error :
    (e : DcpError) (s : SecurityError)
    → (read_response (from_dcp_error e) ≡ some (inl e))
      × (read_response (from_security_error s) ≡ some (inr s))
read-from_error e s = (read-dcp e, read-security s)
