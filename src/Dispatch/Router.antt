-- ===== src/Dispatch/Router.antt =====
-- `src/dispatch/router.rs`: the tool router. A handler is what it answers: its execution is a
-- function of the arguments.
pub mod Registry
pub mod Authorized
pub mod Replayed
use Prim.Native.String.{String}
use dcp.Base.{
  ℕ, zero, suc, ◌+◌, ◌-◌, ◌<◌, max, not, Bool, true, false, Option, none, some, List, [], ◌∷◌, ◌++◌,
  ltb, leb, if◌then◌else◌, length, get_elem?, get_or, set, Result, ok, err, ◌>>=◌, ◌>>◌, ok_or,
  map_err, ensure,
}
use dcp.Base.Map.{Map, find, contains_key, insert, string_eq}
use dcp.Error.{
  DcpError, SecurityError, capability_denied, insufficient_capabilities, args_hash_mismatch,
}
use dcp.Binary.Signed.{SignedInvocation}
use dcp.Capability.Manifest.{CapabilityManifest, max_tools, require_tool}
use dcp.Protocol.Schema.{ToolSchema, validate_shared_args}
use dcp.Security.Signing.{Crypto, verify_invocation, verify_args_hash}
use dcp.Security.Replay.{NonceStore, check_nonce}
use dcp.Dispatch.Args.{SharedArgs, ToolResult}

-- `dyn ToolHandler`
pub record ToolHandler : Type 0 where
  pub run : SharedArgs → Result ToolResult DcpError
  pub schema : ToolSchema
  pub tool_id : ℕ
  pub tool_name : String

-- The default methods `tool_id` and `tool_name` of the trait.
unfoldable pub handler_of : (SharedArgs → Result ToolResult DcpError) → ToolSchema → ToolHandler
handler_of run schema = record {
  run = run;
  schema = schema;
  tool_id = schema.id;
  tool_name = schema.name;
}

-- `BinaryTrieRouter`
pub record BinaryTrieRouter : Type 0 where
  pub handlers : List (Option ToolHandler)
  pub name_to_id : Map String ℕ
  pub max_tool_id : ℕ

unfoldable pub new : BinaryTrieRouter
new = record { handlers = []; name_to_id = []; max_tool_id = 0 }

-- `dispatch`: `get(id).and_then(|h| h.as_ref())`
unfoldable pub dispatch : BinaryTrieRouter → ℕ → Option ToolHandler
dispatch r tool_id = get_or r.handlers tool_id none

-- `while self.handlers.len() <= id { self.handlers.push(None) }`, with the rounds that are left.
unfoldable pub grow : ℕ → List (Option ToolHandler) → List (Option ToolHandler)
grow zero handlers = handlers
grow (suc left) handlers = grow left (handlers ++ (none ∷ []))

abbrev pub is_some {ℓ} : {A : Type ℓ} → Option A → Bool
is_some none = false
is_some (some a) = true

-- The end of `register`, after its guards.
unfoldable pub insert_handler : BinaryTrieRouter → ToolHandler → BinaryTrieRouter
unfolding grow insert
insert_handler r h =
    let grown = grow (h.tool_id + 1 - length r.handlers) r.handlers in
    record {
      handlers = set grown h.tool_id (some h);
      name_to_id = insert h.tool_name h.tool_id r.name_to_id;
      max_tool_id = if ltb r.max_tool_id h.tool_id then h.tool_id else r.max_tool_id;
    }

unfoldable pub register : BinaryTrieRouter → ToolHandler → Result ℕ DcpError × BinaryTrieRouter
unfolding dispatch insert_handler
register r h =
    if leb max_tools h.tool_id
    then (err DcpError.validation_failed, r)
    else if contains_key h.tool_name r.name_to_id
    then (err DcpError.validation_failed, r)
    else if is_some (dispatch r h.tool_id)
    then (err DcpError.validation_failed, r)
    else (ok h.tool_id, insert_handler r h)

unfoldable pub has_tool : BinaryTrieRouter → ℕ → Bool
unfolding dispatch
has_tool r tool_id = is_some (dispatch r tool_id)

unfoldable pub resolve_name : BinaryTrieRouter → String → Option ℕ
unfolding find
resolve_name r name = find name r.name_to_id

-- Raw execution is denied.
unfoldable pub execute : BinaryTrieRouter → ℕ → SharedArgs → Result ToolResult DcpError
execute r tool_id args = err capability_denied

unfoldable pub validate_authorized_tool :
    BinaryTrieRouter → CapabilityManifest → ℕ → SharedArgs → Result ToolHandler SecurityError
unfolding dispatch
validate_authorized_tool r capabilities tool_id args = do
  require_tool capabilities tool_id
  handler ← ok_or (dispatch r tool_id) insufficient_capabilities
  map_err (validate_shared_args handler.schema.input args) SecurityError.validation_failed
  ok handler

unfoldable pub execute_authorized :
    BinaryTrieRouter → CapabilityManifest → ℕ → SharedArgs → Result ToolResult SecurityError
unfolding validate_authorized_tool
execute_authorized r capabilities tool_id args = do
  handler ← validate_authorized_tool r capabilities tool_id args
  map_err (handler.run args) insufficient_capabilities

-- The rest of `execute_signed_authorized`, on what `check_nonce` answers and the store it leaves.
unfoldable pub after_nonce :
    BinaryTrieRouter
    → CapabilityManifest
    → ℕ
    → SharedArgs
    → Result (Unit {0}) SecurityError × NonceStore
    → Result ToolResult SecurityError × NonceStore
unfolding validate_authorized_tool
after_nonce r capabilities tool_id args (checked, store) = (
  do
    checked
    handler ← validate_authorized_tool r capabilities tool_id args
    map_err (handler.run args) insufficient_capabilities,
  store,
)

module _ (crypto : Crypto) where
  -- The checks of `execute_signed_authorized` up to the nonce: `Ok` carries the tool id.
  unfoldable pub check_signed : SignedInvocation → List ℕ → SharedArgs → Result ℕ SecurityError
  check_signed inv key args = do
    verify_invocation crypto inv key
    ensure (verify_args_hash crypto inv args.bytes) args_hash_mismatch
    ensure (ltb inv.tool_id 65536) insufficient_capabilities
    ok inv.tool_id

  -- `execute_signed_authorized`, with the two clock readings of `check_nonce`.
  unfoldable pub execute_signed_authorized :
      BinaryTrieRouter
      → CapabilityManifest
      → SignedInvocation
      → List ℕ
      → NonceStore
      → SharedArgs
      → ℕ
      → ℕ
      → Result ToolResult SecurityError × NonceStore
  unfolding check_signed after_nonce
  execute_signed_authorized r capabilities inv key store args now later =
      elim (check_signed inv key args) [
        | err e ↦ (err e, store)
        | ok tool_id ↦
            after_nonce r capabilities tool_id args
              (check_nonce store inv.nonce inv.timestamp now later)
      ]
