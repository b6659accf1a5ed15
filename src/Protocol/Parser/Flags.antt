-- ===== src/Protocol/Parser/Flags.antt =====
-- The flag byte: which values are valid, and how it is unpacked and packed.
use dcp.Base.{
  ℕ, ◌<◌, ◌≡◌, refl, ◌↔◌, Bool, true, false, not, ◌==◌, ==_iff, if◌then◌else◌, ltb, ok, arith,
  holds_below, at-holds_below, bit_and,
}
use dcp.Binary.Envelope.{Envelope, new, MessageType}
use dcp.Protocol.Parser.{MessageFlags, validate_flags, extract_flags, to_u8}

mask_table : holds_below (λ f. if bit_and f 248 == 0 then ltb f 8 else not (ltb f 8)) 256 ≡ true
unfolding holds_below
mask_table = refl

-- A flag byte is valid exactly when it is below 8.
pub validate_flags_iff : (f : ℕ) → f < 256 → (validate_flags f ≡ ok tt) ↔ (f < 8)
unfolding validate_flags
validate_flags_iff f h = (
  λ v. ground (arith, at-holds_below _ f 256 h mask_table),
  λ lt. ground (arith, at-holds_below _ f 256 h mask_table),
)

pub validate_flags-ok : (f : ℕ) → f < 8 → validate_flags f ≡ ok tt
validate_flags-ok f h = (validate_flags_iff f (omega arith)).1 h

flag_of : ℕ → MessageFlags
flag_of n = record {
  streaming = not (bit_and n 1 == 0);
  compressed = not (bit_and n 2 == 0);
  signed = not (bit_and n 4 == 0);
}

flags_table : holds_below (λ f. to_u8 (flag_of f) == f) 8 ≡ true
unfolding holds_below to_u8 flag_of
flags_table = refl

-- Packing the flags that were extracted from a valid byte gives the byte back.
pub to_u8-extract_flags : (e : Envelope) → e.flags < 8 → to_u8 (extract_flags e) ≡ e.flags
unfolding extract_flags
to_u8-extract_flags e h =
    (==_iff _ _).0 (unfold flag_of in at-holds_below _ e.flags 8 h flags_table)

-- The flags that are packed into a new envelope are extracted from it, and the byte is valid.
pub extract_flags-to_u8 :
    (t : MessageType) (f : MessageFlags) (n : ℕ)
    → (extract_flags (new t (to_u8 f) n) ≡ f) × (to_u8 f < 8)
extract_flags-to_u8 t f n = go f.streaming f.compressed f.signed
  where
    go :
        (a b c : Bool)
        → let g : MessageFlags = record { streaming = a; compressed = b; signed = c } in
          (extract_flags (new t (to_u8 g) n) ≡ g) × (to_u8 g < 8)
    go true true true = unfold extract_flags to_u8 new in (refl, omega arith)
    go true true false = unfold extract_flags to_u8 new in (refl, omega arith)
    go true false true = unfold extract_flags to_u8 new in (refl, omega arith)
    go true false false = unfold extract_flags to_u8 new in (refl, omega arith)
    go false true true = unfold extract_flags to_u8 new in (refl, omega arith)
    go false true false = unfold extract_flags to_u8 new in (refl, omega arith)
    go false false true = unfold extract_flags to_u8 new in (refl, omega arith)
    go false false false = unfold extract_flags to_u8 new in (refl, omega arith)
