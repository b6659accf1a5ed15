-- ===== src/Dispatch/Args/Reads.antt =====
-- What the bounded readers of `dispatch/handler.rs` answer.
use dcp.Base.{
  ℕ, ◌+◌, ◌≤◌, ◌<◌, ◌^◌, ◌≡◌, ◌↔◌, ap, ◌∙◌, sym, List, ◌++◌, length, take, drop, ok, err, arith,
  take-append-drop, length-take, length-append, take-append, drop-append,
}
use dcp.Base.Bytes.{slice, length-slice}
use dcp.Error.{out_of_bounds}
use dcp.Dispatch.Args.{SharedArgs, read_bytes_at}

-- Reading `len` bytes at `offset` of a slice answers `out` exactly when the slice is some `offset`
-- bytes, then `out` of `len` bytes, then a rest; if the slice ends before, the answer is
-- `OutOfBounds`, also where the end would overflow.
pub read_bytes_at_iff :
    (args : SharedArgs) (offset len : ℕ) (out : List ℕ)
    → length args.bytes < 2 ^ 64
    → ((read_bytes_at args offset len ≡ ok out) ↔ (
        (before : List ℕ) × (rest : List ℕ) × (args.bytes ≡ before ++ (out ++ rest))
        × (length before ≡ offset)
        × (length out ≡ len)))
      × (length args.bytes < offset + len → read_bytes_at args offset len ≡ err out_of_bounds)
unfolding read_bytes_at
read_bytes_at_iff args offset len out small = (
  (
    λ e.
        let fits : offset + len ≤ length args.bytes = ground (arith, e) in
        let is : slice offset len args.bytes ≡ out = ground (arith, e) in
        let tail = drop offset args.bytes in
        (
          take offset args.bytes,
          drop len tail,
          sym (take-append-drop offset args.bytes)
              ∙ ap (λ (t : List ℕ). take offset args.bytes ++ t)
                  (sym (take-append-drop len tail)
                    ∙ ap (λ (t : List ℕ). t ++ drop len tail) (unfold slice in is)),
          omega (arith, length-take offset args.bytes, fits),
          sym (ap length is) ∙ length-slice offset len args.bytes fits,
        ),
    λ (before, rest, whole, at, size).
        let fits : offset + len ≤ length args.bytes =
          omega
            (arith, ap length whole, length-append before (out ++ rest), length-append out rest) in
        let is : slice offset len args.bytes ≡ out =
          unfold slice in
          ap (λ (t : List ℕ). take len (drop offset t)) whole
          ∙ ap (take len) (drop-append before (out ++ rest) at)
          ∙ take-append out rest size in
        ground (arith, fits, is, small),
  ),
  λ over. ground (arith, over),
)
