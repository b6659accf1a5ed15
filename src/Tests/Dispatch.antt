-- ===== src/Tests/Dispatch.antt =====
-- The router's theorems at the echo tool.
use dcp.Base.{
  ℕ, ◌+◌, ◌<◌, ◌≡◌, ◌≢◌, ◌↔◌, refl, true, false, none, some, List, [], ◌∷◌, ◌++◌, length, ok, err,
  arith, ◌==◌, if◌then◌else◌,
}
use dcp.Dispatch.Args.{read_bytes_at}
use dcp.Dispatch.Args.Reads.{read_bytes_at_iff}
use dcp.Error.{out_of_bounds}
use Prim.Native.String.{String}
use mathlib.Core.Path.{subst}
use dcp.Base.Map.{string_eq, contains_key}
use dcp.Capability.Manifest as Manifest
use dcp.Dispatch.Args.{ToolResult, success}
use dcp.Dispatch.Router.{
  ToolHandler, dispatch, register, resolve_name, execute_authorized, execute_signed_authorized, new,
}
use dcp.Dispatch.Router.Authorized.{IsSigned, execute_authorized_iff, execute_signed_authorized_iff}
use dcp.Dispatch.Router.Registry.{IsRouter, new-IsRouter, register_lem, register-IsRouter}
use dcp.Dispatch.Router.Replayed.{Call, call, calls, executed_once}
use dcp.Error.{DcpError}
use dcp.Protocol.Schema.{validate_shared_args}
use dcp.Protocol.Schema.Accepts.{IsSchema, IsAccepted, validate_shared_args_iff}
use dcp.Security.Replay as Replay
use dcp.Security.Replay.{NonceStore, check_nonce}
use dcp.Binary.Invocation.{from_u8}
use dcp.Base.Bytes.{bytes_eq}
use dcp.Security.Signing.{verify_invocation, verify_args_hash}
use dcp.Tests.Data.{
  toy, echo_schema, echo_handler, echo_args, echo_router, echo_granted, echo_call, key, payload,
}

abbrev store : NonceStore
store = record { nonces = []; max_nonces = 10; expiration_secs = 300 }

abbrev first_call : Call
first_call = record {
  router = echo_router;
  granted = echo_granted;
  inv = echo_call;
  key = key;
  args = echo_args;
  now = 100;
  later = 100;
}

first_runs : (call toy store first_call).0 ≡ ok (success payload)
unfolding execute_signed_authorized verify_invocation bytes_eq verify_args_hash check_nonce
    Replay.is_expired contains_key Replay.len Manifest.require_tool validate_shared_args from_u8
first_runs = refl

echo_schema-IsSchema : IsSchema echo_schema
echo_schema-IsSchema = record {
  required_ok = omega arith;
  fields_ok = ((omega arith, omega arith), tt);
}

echo_router_widths : (h : ToolHandler) → dispatch echo_router 7 ≡ some h → IsSchema h.schema.input
unfolding dispatch
echo_router_widths h e =
    let is : echo_handler ≡ h = cc in
    subst (λ (x : ToolHandler). IsSchema x.schema.input) is echo_schema-IsSchema

validate_shared_args_iff_example :
    (validate_shared_args echo_schema echo_args ≡ ok tt) ↔ IsAccepted echo_schema echo_args
validate_shared_args_iff_example =
    validate_shared_args_iff echo_schema echo_args echo_schema-IsSchema

execute_authorized_iff_example :
    (execute_authorized echo_router echo_granted 7 echo_args ≡ ok (success payload)) ↔ (
      (Manifest.has_tool echo_granted 7 ≡ true)
      × ((h : ToolHandler) × (dispatch echo_router 7 ≡ some h)
          × IsAccepted h.schema.input echo_args
          × (h.run echo_args ≡ ok (success payload))))
execute_authorized_iff_example =
    execute_authorized_iff echo_router echo_granted 7 echo_args (success payload) echo_router_widths

execute_signed_authorized_iff_example :
    let out =
      execute_signed_authorized toy echo_router echo_granted echo_call key store echo_args 100
        100 in
    let checked = check_nonce store 42 100 100 100 in
    ((res : ToolResult)
      → (out.0 ≡ ok res) ↔ (
          IsSigned toy echo_call key echo_args
          × (checked.0 ≡ ok tt)
          × (execute_authorized echo_router echo_granted 7 echo_args ≡ ok res)))
    × (IsSigned toy echo_call key echo_args → out.1 ≡ checked.1)
    × (¬ IsSigned toy echo_call key echo_args → out.1 ≡ store)
execute_signed_authorized_iff_example =
    execute_signed_authorized_iff toy echo_router echo_granted echo_call key store echo_args 100 100

executed_once_example :
    (call toy (calls toy (call toy store first_call).1 (first_call ∷ [])) first_call).0
    ≢ ok (success payload)
executed_once_example =
    executed_once toy store first_call (first_call ∷ []) first_call (success payload)
      (success payload) first_runs (omega arith, omega arith, tt) (omega arith) refl refl

register_lem_example :
    (((register new echo_handler).0 ≡ ok 7) ↔ (
      (7 < Manifest.max_tools)
      × (contains_key "echo" new.name_to_id ≡ false)
      × (dispatch new 7 ≡ none)))
    × ((register new echo_handler).0 ≡ ok 7
        → ((j : ℕ)
            → dispatch (register new echo_handler).1 j
              ≡ (if j == 7 then some echo_handler else dispatch new j))
          × ((name : String)
              → resolve_name (register new echo_handler).1 name
                ≡ (if string_eq.beq "echo" name then some 7 else resolve_name new name)))
    × ((register new echo_handler).0 ≢ ok 7
        → register new echo_handler ≡ (err DcpError.validation_failed, new))
register_lem_example = register_lem new echo_handler

register-IsRouter_example : IsRouter (register new echo_handler).1
register-IsRouter_example = register-IsRouter new echo_handler new-IsRouter

abbrev middle : List ℕ
middle = 2 ∷ 3 ∷ []

read_bytes_at_iff_example :
    ((read_bytes_at echo_args 1 2 ≡ ok middle) ↔ (
      (before : List ℕ) × (rest : List ℕ) × (payload ≡ before ++ (middle ++ rest))
      × (length before ≡ 1)
      × (length middle ≡ 2)))
    × (length payload < 1 + 2 → read_bytes_at echo_args 1 2 ≡ err out_of_bounds)
read_bytes_at_iff_example = read_bytes_at_iff echo_args 1 2 middle (omega arith)
