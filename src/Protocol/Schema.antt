-- ===== src/Protocol/Schema.antt =====
-- `src/protocol/schema.rs`: the schema of a tool and the validation of its arguments.
mod Fields
mod Mask
pub mod Accepts
use Prim.Native.String.{String}
use dcp.Base.{
  ℕ, zero, suc, ◌+◌, ◌-◌, ◌*◌, ◌/◌, ◌^◌, max, not, Bool, true, false, ◌||◌, Option, none, some,
  List, [], ◌∷◌, ◌++◌, ltb, leb, ◌==◌, if◌then◌else◌, length, get_elem?, checked_add, Result, ok,
  err, ◌>>=◌, ◌>>◌, ok_or, ensure, bit_and, bit_or,
}
use dcp.Base.Bits.{bit_not}
use dcp.Error.{DcpError, out_of_bounds}
use dcp.Binary.Invocation.{ArgType, null, i32, from_u8, arg_code, is_null}
use dcp.Dispatch.Args.{SharedArgs}

-- `FieldDef`
pub record FieldDef : Type 0 where
  pub name : String
  pub field_type : ArgType
  pub offset : ℕ
  pub size : ℕ
  pub enum_range : Option (ℕ × ℕ)

-- `InputSchema`
pub record InputSchema : Type 0 where
  pub required : ℕ
  pub fields : List FieldDef

-- `ToolSchema`
pub record ToolSchema : Type 0 where
  pub name : String
  pub id : ℕ
  pub description : String
  pub input : InputSchema

-- `InputSchema::new`
unfoldable pub new : InputSchema
new = record { required = 0; fields = [] }

unfoldable pub add_field : InputSchema → FieldDef → InputSchema
add_field s f = record s { fields = s.fields ++ (f ∷ []) }

unfoldable pub set_required : InputSchema → ℕ → InputSchema
set_required s idx = if ltb idx 64 then record s { required = bit_or s.required (2 ^ idx) } else s

unfoldable pub is_required : InputSchema → ℕ → Bool
is_required s idx = if leb 64 idx then false else not (bit_and s.required (2 ^ idx) == 0)

-- `FieldDef::new`
unfoldable pub new_field : String → ArgType → ℕ → ℕ → FieldDef
new_field name field_type offset size = record {
  name = name;
  field_type = field_type;
  offset = offset;
  size = size;
  enum_range = none;
}

-- `FieldDef::new_enum`
unfoldable pub new_enum : String → ℕ → ℕ → ℕ → ℕ → FieldDef
new_enum name offset size lo hi = record {
  name = name;
  field_type = i32;
  offset = offset;
  size = size;
  enum_range = some (lo, hi);
}

unfoldable pub validate_required : InputSchema → ℕ → Result (Unit {0}) DcpError
validate_required s present_mask =
    if not (bit_and s.required (bit_not 64 present_mask) == 0)
    then err DcpError.validation_failed
    else ok tt

abbrev pub in_range : Option (ℕ × ℕ) → ℕ → Result (Unit {0}) DcpError
in_range none value = ok tt
in_range (some (lo, hi)) value =
    if ltb value lo || ltb hi value then err DcpError.validation_failed else ok tt

unfoldable pub validate_enum : FieldDef → ℕ → Result (Unit {0}) DcpError
validate_enum f value = in_range f.enum_range value

abbrev pub validate_values : InputSchema → List (ℕ × ℕ) → Result (Unit {0}) DcpError
unfolding validate_enum
validate_values s [] = ok tt
validate_values s ((idx, value) ∷ rest) = do
  field ← ok_or (get_elem? s.fields idx) DcpError.validation_failed
  validate_enum field value
  validate_values s rest

unfoldable pub validate_input : InputSchema → ℕ → List (ℕ × ℕ) → Result (Unit {0}) DcpError
unfolding validate_required
validate_input s present_mask field_values = do
  validate_required s present_mask
  validate_values s field_values

-- `checked_mul` does not overflow: the index is below 2 ^ 62 at every call.
unfoldable pub arg_type_from_layout : ℕ → ℕ → Result ArgType DcpError
arg_type_from_layout layout index =
    ok_or (from_u8 (bit_and (layout / 2 ^ (index * 4)) 0xf)) DcpError.validation_failed

-- The enum check of one field of `validate_shared_args`.
unfoldable pub check_enum : SharedArgs → FieldDef → Result (Unit {0}) DcpError
unfolding validate_enum
check_enum args f = elim f.enum_range [
  | none ↦ ok tt
  | some range ↦ do
    value ← ok_or (get_elem? args.bytes f.offset) out_of_bounds
    validate_enum f value
]

-- One round of the first loop of `validate_shared_args` for a present argument: the mask and the
-- declared length that the next round starts from.
unfoldable pub check_present : SharedArgs → ℕ → FieldDef → ArgType → ℕ → ℕ → Result (ℕ × ℕ) DcpError
unfolding arg_code check_enum
check_present args idx f actual_type mask declared = do
  ensure (arg_code actual_type == arg_code f.field_type) DcpError.validation_failed
  end ← ok_or (checked_add f.offset f.size) out_of_bounds
  ensure (leb end (length args.bytes)) out_of_bounds
  check_enum args f
  ok (bit_or mask (2 ^ idx), max declared end)

-- One round of that loop.
unfoldable pub check_field : SharedArgs → ℕ → FieldDef → ℕ → ℕ → Result (ℕ × ℕ) DcpError
unfolding arg_type_from_layout check_present
check_field args idx f mask declared = do
  ensure (ltb idx 16) DcpError.validation_failed
  actual_type ← arg_type_from_layout args.layout idx
  (if is_null actual_type
      then ok (mask, declared)
      else check_present args idx f actual_type mask declared)

unfoldable pub check_fields : SharedArgs → ℕ → List FieldDef → ℕ → ℕ → Result (ℕ × ℕ) DcpError
unfolding check_field
check_fields args idx [] mask declared = ok (mask, declared)
check_fields args idx (f ∷ fs) mask declared = do
  state ← check_field args idx f mask declared
  check_fields args (idx + 1) fs state.0 state.1

-- The second loop: the types past the last field, with the rounds that are left.
unfoldable pub check_unused : SharedArgs → ℕ → ℕ → Result (Unit {0}) DcpError
unfolding arg_type_from_layout
check_unused args idx zero = ok tt
check_unused args idx (suc left) = do
  t ← arg_type_from_layout args.layout idx
  ensure (is_null t) DcpError.validation_failed
  check_unused args (idx + 1) left

unfoldable pub validate_shared_args : InputSchema → SharedArgs → Result (Unit {0}) DcpError
unfolding check_fields check_unused validate_required
validate_shared_args s args = do
  state ← check_fields args 0 s.fields 0 0
  check_unused args (length s.fields) (16 - length s.fields)
  ensure (leb (length args.bytes) state.1) DcpError.validation_failed
  validate_required s state.0
