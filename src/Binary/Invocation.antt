-- ===== src/Binary/Invocation.antt =====
-- `src/binary/invocation.rs`: a tool invocation of twenty-four bytes, whose 64-bit layout word holds
-- the types of up to sixteen arguments, four bits each.
pub mod RoundTrip
pub mod Layout
use dcp.Base.{
  ℕ, zero, suc, ◌+◌, ◌-◌, ◌*◌, ◌/◌, ◌%◌, ◌^◌, not, Bool, true, false, List, [], ◌∷◌, ◌++◌, Option,
  none, some, ltb, leb, ◌==◌, if◌then◌else◌, length, replicate, any, Result, ok, err, bit_and,
  bit_or,
}
use dcp.Base.Bytes.{to_le, from_le, slice}
use dcp.Base.Bits.{bit_not}
use dcp.Error.{DcpError, insufficient_data}

pub data ArgType : Type 0 where
  null bool i32 i64 f64 string bytes array object : ArgType

-- `arg_type as u8`
unfoldable pub arg_code : ArgType → ℕ
arg_code null = 0
arg_code bool = 1
arg_code i32 = 2
arg_code i64 = 3
arg_code f64 = 4
arg_code string = 5
arg_code bytes = 6
arg_code array = 7
arg_code object = 8

-- `ArgType::from_u8`
unfoldable pub from_u8 : ℕ → Option ArgType
from_u8 value =
    if value == 0
    then some null
    else if value == 1
    then some bool
    else if value == 2
    then some i32
    else if value == 3
    then some i64
    else if value == 4
    then some f64
    else if value == 5
    then some string
    else if value == 6
    then some bytes
    else if value == 7
    then some array
    else if value == 8
    then some object
    else none

-- `ToolInvocation`: u32, u64, u32 and u32.
pub record ToolInvocation : Type 0 where
  pub tool_id : ℕ
  pub arg_layout : ℕ
  pub args_offset : ℕ
  pub args_len : ℕ

abbrev pub invocation_size : ℕ
invocation_size = 24

abbrev pub max_args : ℕ
max_args = 16

-- `ToolInvocation::new`
unfoldable pub new : ℕ → ℕ → ℕ → ℕ → ToolInvocation
new tool_id arg_layout args_offset args_len = record {
  tool_id = tool_id;
  arg_layout = arg_layout;
  args_offset = args_offset;
  args_len = args_len;
}

-- The fields that `from_bytes` reads.
unfoldable pub fields : List ℕ → ToolInvocation
unfolding slice
fields src = record {
  tool_id = from_le (slice 0 4 src);
  arg_layout = from_le (slice 8 8 src);
  args_offset = from_le (slice 16 4 src);
  args_len = from_le (slice 20 4 src);
}

unfoldable pub from_bytes : List ℕ → Result ToolInvocation DcpError
from_bytes src =
    if ltb (length src) invocation_size
    then err insufficient_data
    else if not (length src == invocation_size)
    then err DcpError.validation_failed
    else if any (λ byte. not (byte == 0)) (slice 4 4 src)
    then err DcpError.validation_failed
    else ok (fields src)

-- `as_bytes`: bytes 4 to 8 of the zeroed array are not written.
unfoldable pub as_bytes : ToolInvocation → List ℕ
as_bytes i =
    to_le 4 i.tool_id
    ++ (replicate 4 0 ++ (to_le 8 i.arg_layout ++ (to_le 4 i.args_offset ++ to_le 4 i.args_len)))

unfoldable pub get_arg_type : ToolInvocation → ℕ → Option ArgType
get_arg_type i index =
    let shift = index * 4 in
    let type_bits = bit_and (i.arg_layout / 2 ^ shift) 0xf in
    if leb max_args index then none else from_u8 type_bits

unfoldable pub set_arg_type : ToolInvocation → ℕ → ArgType → ToolInvocation
unfolding arg_code
set_arg_type i index arg_type =
    let shift = index * 4 in
    let cleared = bit_and i.arg_layout (bit_not 64 (0xf * 2 ^ shift % 2 ^ 64)) in
    if leb max_args index
    then i
    else record i { arg_layout = bit_or cleared (arg_code arg_type * 2 ^ shift % 2 ^ 64) }

abbrev pub is_null : ArgType → Bool
is_null null = true
is_null _ = false

-- The loop of `arg_count`, with the rounds that are left: an unknown type is passed over, and
-- `Null` ends the count.
unfoldable pub count_from : ToolInvocation → ℕ → ℕ → ℕ → ℕ
count_from i zero index count = count
count_from i (suc left) index count = elim (get_arg_type i index) [
  | none ↦ count_from i left (index + 1) count
  | some t ↦ elim (is_null t) [ true ↦ count | false ↦ count_from i left (index + 1) (count + 1) ]
]

unfoldable pub arg_count : ToolInvocation → ℕ
unfolding count_from
arg_count i = count_from i max_args 0 0
