-- ===== src/Dispatch/Args.antt =====
-- `src/dispatch/handler.rs`: the shared arguments and the result of a tool.
pub mod Reads
use dcp.Base.{
  ℕ, ◌+◌, ◌-◌, ◌^◌, Bool, true, false, not, List, [], Option, none, some, ltb, leb, ◌==◌,
  if◌then◌else◌, length, get_or, checked_add, Result, ok, err, ◌>>=◌, ok_or,
}
use dcp.Base.Bytes.{slice, from_le}
use dcp.Error.{DcpError, out_of_bounds, validation_failed}

-- `SharedArgs`
pub record SharedArgs : Type 0 where
  pub bytes : List ℕ
  pub layout : ℕ

-- `read_bytes_at`
unfoldable pub read_bytes_at : SharedArgs → ℕ → ℕ → Result (List ℕ) DcpError
unfolding slice
read_bytes_at args offset len = do
  end ← ok_or (checked_add offset len) out_of_bounds
  if ltb (length args.bytes) end then err out_of_bounds else ok (slice offset len args.bytes)

-- `read_u32_at`
unfoldable pub read_u32_at : SharedArgs → ℕ → Result ℕ DcpError
unfolding read_bytes_at
read_u32_at args offset = do bytes ← read_bytes_at args offset 4; ok (from_le bytes)

-- A signed integer.
pub data ℤ : Type 0 where
  pos : ℕ → ℤ
  negsuc : ℕ → ℤ

-- The two's complement reading of `w + 1` bits.
unfoldable pub to_signed : ℕ → ℕ → ℤ
to_signed w n = if ltb n (2 ^ w) then pos n else negsuc (2 ^ (w + 1) - 1 - n)

-- `read_i32_at`
unfoldable pub read_i32_at : SharedArgs → ℕ → Result ℤ DcpError
read_i32_at args offset = do bytes ← read_bytes_at args offset 4; ok (to_signed 31 (from_le bytes))

-- `read_i64_at`
unfoldable pub read_i64_at : SharedArgs → ℕ → Result ℤ DcpError
read_i64_at args offset = do bytes ← read_bytes_at args offset 8; ok (to_signed 63 (from_le bytes))

-- `read_f64_at`; a float is its 64 bits.
unfoldable pub read_f64_at : SharedArgs → ℕ → Result ℕ DcpError
read_f64_at args offset = do bytes ← read_bytes_at args offset 8; ok (from_le bytes)

-- `read_str_at`, over `std::str::from_utf8`.
unfoldable pub read_str_at {ℓ} :
    {Text : Type ℓ} → (List ℕ → Option Text) → SharedArgs → ℕ → ℕ → Result Text DcpError
read_str_at from_utf8 args offset len = do
  bytes ← read_bytes_at args offset len
  ok_or (from_utf8 bytes) validation_failed

-- `read_bool_at`
unfoldable pub read_bool_at : SharedArgs → ℕ → Result Bool DcpError
read_bool_at args offset =
    if leb (length args.bytes) offset
    then err out_of_bounds
    else ok (not (get_or args.bytes offset 0 == 0))

-- `ToolResult`
pub data ToolResult : Type 0 where
  success : List ℕ → ToolResult
  empty : ToolResult
  error : DcpError → ToolResult

unfoldable pub is_success : ToolResult → Bool
is_success (success payload) = true
is_success empty = true
is_success (error e) = false

unfoldable pub payload_of : ToolResult → Option (List ℕ)
payload_of (success payload) = some payload
payload_of empty = some []
payload_of (error e) = none
