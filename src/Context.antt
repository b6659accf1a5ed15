-- ===== src/Context.antt =====
-- `src/context/mod.rs`: the shared context, a buffer with a header and 25 tool states. One thread at a
-- time writes it; the fences of the code order what other threads see.
pub mod Slots
pub mod Laws
use dcp.Base.{
  ℕ, zero, suc, ◌+◌, ◌*◌, ◌%◌, ◌^◌, ◌==◌, not, Bool, Option, none, some, List, [], ◌∷◌, ◌++◌, ltb,
  leb, if◌then◌else◌, length, replicate, take, Result, ok, err,
}
use dcp.Base.Bytes.{to_le, from_le, slice}
use dcp.Base.Slices.{write_at}
use dcp.Error.{DcpError, insufficient_data, invalid_magic, out_of_bounds}

-- `CONTEXT_MAGIC`, `MAX_TOOL_STATES`, `MESSAGE_COUNT_OFFSET`, `TOOL_STATES_OFFSET`, `ToolState::SIZE` and
-- `ContextLayout::SIZE`
abbrev pub context_magic : ℕ
context_magic = 0x4443505F43545831

abbrev pub max_tool_states : ℕ
max_tool_states = 25

abbrev pub message_count_offset : ℕ
message_count_offset = 16

abbrev pub tool_states_offset : ℕ
tool_states_offset = 24

abbrev pub tool_state_size : ℕ
tool_state_size = 40

abbrev pub layout_size : ℕ
layout_size = 8 + 8 + 8 + max_tool_states * tool_state_size

-- u32, u32, u64 and 24 bytes.
pub record ToolState : Type 0 where
  pub tool_id : ℕ
  pub flags : ℕ
  pub last_invoked : ℕ
  pub data_bytes : List ℕ

-- `ToolState::new`
unfoldable pub new_state : ℕ → ToolState
new_state tool_id = record {
  tool_id = tool_id;
  flags = 0;
  last_invoked = 0;
  data_bytes = replicate 24 0;
}

-- The pointer cast of `ToolState::from_bytes` on a little-endian target.
unfoldable pub cast : List ℕ → ToolState
cast bytes = record {
  tool_id = from_le (slice 0 4 bytes);
  flags = from_le (slice 4 4 bytes);
  last_invoked = from_le (slice 8 8 bytes);
  data_bytes = slice 16 24 bytes;
}

unfoldable pub from_bytes : List ℕ → Result ToolState DcpError
from_bytes bytes =
    if ltb (length bytes) tool_state_size then err insufficient_data else ok (cast bytes)

unfoldable pub as_bytes : ToolState → List ℕ
as_bytes s = to_le 4 s.tool_id ++ (to_le 4 s.flags ++ (to_le 8 s.last_invoked ++ s.data_bytes))

pub record ContextLayout : Type 0 where
  pub header : ℕ
  pub conversation_id : ℕ
  pub message_count : ℕ
  pub tool_states : List ToolState

-- `ContextLayout::new`
unfoldable pub new_layout : ℕ → ContextLayout
new_layout conversation_id = record {
  header = context_magic;
  conversation_id = conversation_id;
  message_count = 0;
  tool_states = replicate max_tool_states (new_state 0);
}

unfoldable pub states_as_bytes : List ToolState → List ℕ
states_as_bytes [] = []
states_as_bytes (s ∷ states) = as_bytes s ++ states_as_bytes states

-- `ContextLayout::as_bytes`
unfoldable pub layout_as_bytes : ContextLayout → List ℕ
layout_as_bytes l =
    to_le 8 l.header
    ++ (to_le 8 l.conversation_id ++ (to_le 8 l.message_count ++ states_as_bytes l.tool_states))

pub record DcpContext : Type 0 where
  pub buffer : List ℕ
  pub version : ℕ

unfoldable pub new : ℕ → DcpContext
new conversation_id = record {
  buffer = write_at 0 (layout_as_bytes (new_layout conversation_id)) (replicate layout_size 0);
  version = 1;
}

unfoldable pub from_shared : List ℕ → Result DcpContext DcpError
from_shared buffer =
    if ltb (length buffer) layout_size
    then err insufficient_data
    else if not (from_le (slice 0 8 buffer) == context_magic)
    then err invalid_magic
    else ok (record { buffer = buffer; version = 1 })

unfoldable pub conversation_id : DcpContext → ℕ
conversation_id c = from_le (slice 8 8 c.buffer)

unfoldable pub message_count : DcpContext → ℕ
message_count c = from_le (slice message_count_offset 8 c.buffer)

-- The atomic counter wraps, and so does the addition to what it held.
unfoldable pub increment_message_count : DcpContext → ℕ × DcpContext
increment_message_count c = (
  (message_count c + 1) % 2 ^ 64,
  record c {
    buffer = write_at message_count_offset (to_le 8 ((message_count c + 1) % 2 ^ 64)) c.buffer;
  },
)

unfoldable pub tool_state_offset : ℕ → ℕ
tool_state_offset index = tool_states_offset + index * tool_state_size

unfoldable pub get_tool_state : DcpContext → ℕ → Option ToolState
get_tool_state c index =
    if leb max_tool_states index
    then none
    else some (cast (slice (tool_state_offset index) tool_state_size c.buffer))

-- Whether slot `index` is there and belongs to a tool.
unfoldable pub owns : ℕ → Option ToolState → Bool
owns tool_id none = Bool.false
owns tool_id (some s) = s.tool_id == tool_id

-- The loop of `find_tool_state`, over the `n` slots from `index` on.
unfoldable pub find_from : DcpContext → ℕ → ℕ → ℕ → Option ToolState
find_from c tool_id zero index = none
find_from c tool_id (suc n) index =
    let rest = find_from c tool_id n (index + 1) in
    if owns tool_id (get_tool_state c index) then get_tool_state c index else rest

unfoldable pub find_tool_state : DcpContext → ℕ → Option ToolState
find_tool_state c tool_id = find_from c tool_id max_tool_states 0

unfoldable pub update_tool_state :
    DcpContext → ℕ → ToolState → Result (Unit {0}) DcpError × DcpContext
update_tool_state c index s =
    if leb max_tool_states index
    then (err out_of_bounds, c)
    else (ok tt, record c { buffer = write_at (tool_state_offset index) (as_bytes s) c.buffer })

-- The loops of `set_tool_state`: the first slot of a tool.
unfoldable pub slot_from : DcpContext → ℕ → ℕ → ℕ → Option ℕ
slot_from c tool_id zero index = none
slot_from c tool_id (suc n) index =
    let rest = slot_from c tool_id n (index + 1) in
    if owns tool_id (get_tool_state c index) then some index else rest

unfoldable pub placed : ℕ → Result (Unit {0}) DcpError × DcpContext → Result ℕ DcpError × DcpContext
placed index (ok done, c) = (ok index, c)
placed index (err error, c) = (err error, c)

unfoldable pub set_tool_state : DcpContext → ToolState → Result ℕ DcpError × DcpContext
set_tool_state c s = elim (slot_from c s.tool_id max_tool_states 0) [
  | some index ↦ placed index (update_tool_state c index s)
  | none ↦ elim (slot_from c 0 max_tool_states 0) [
    | some index ↦ placed index (update_tool_state c index s)
    | none ↦ (err out_of_bounds, c)
  ]
]

unfoldable pub clear_tool_state : DcpContext → ℕ → Result (Unit {0}) DcpError × DcpContext
clear_tool_state c index = update_tool_state c index (new_state 0)
