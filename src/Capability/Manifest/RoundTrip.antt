-- ===== src/Capability/Manifest/RoundTrip.antt =====
-- Reading the bytes of a manifest inverts writing them, and the signed bytes leave out the signature only.
use dcp.Base.{
  ℕ, ◌-◌, ◌≤◌, ◌≡◌, ◌↔◌, refl, ap, ◌∙◌, sym, List, ◌++◌, length, take, ok, arith, length-append,
  take-append, append_assoc,
}
use dcp.Base.Bytes.{IsBytes, to_le, slice, length-to_le, to_le_injective, append_injective}
use dcp.Capability.Manifest.BitSet.{IsWords}
use dcp.Capability.Manifest.{CapabilityManifest}
use dcp.Capability.Manifest.Wire.{
  manifest_size, words_as_bytes, cast, from_bytes, as_bytes, signed_bytes,
}
use dcp.Capability.Manifest.Layout.{
  IsLayout, length-words_as_bytes, words_as_bytes_injective, cast-IsLayout, as_bytes-cast,
}

-- Everything that is written before the signature, from each array or reserved field on.
abbrev from_prompts : CapabilityManifest → List ℕ
from_prompts m = words_as_bytes m.prompts ++ to_le 8 m.extensions

abbrev from_resources : CapabilityManifest → List ℕ
from_resources m = words_as_bytes m.resources ++ from_prompts m

abbrev from_tools : CapabilityManifest → List ℕ
from_tools m = words_as_bytes m.tools ++ from_resources m

abbrev from_reserved2 : CapabilityManifest → List ℕ
from_reserved2 m = to_le 4 m.reserved2 ++ from_tools m

abbrev from_reserved : CapabilityManifest → List ℕ
from_reserved m = to_le 2 m.reserved ++ from_reserved2 m

front : CapabilityManifest → List ℕ
front m = to_le 2 m.version ++ from_reserved m

front-as_bytes : (m : CapabilityManifest) → as_bytes m ≡ front m ++ m.signature
unfolding as_bytes front
front-as_bytes m = sym (simp append_assoc)

length-front : (m : CapabilityManifest) → IsLayout m → length (front m) ≡ manifest_size - 64
unfolding front
length-front m v = grind (
  arith, length-append, length-to_le, length-words_as_bytes, v.tools_ok.sized, v.resources_ok.sized,
  v.prompts_ok.sized,
)

-- The signed bytes are all the bytes but the signature's.
signed_bytes-front : (m : CapabilityManifest) → IsLayout m → signed_bytes m ≡ front m
unfolding signed_bytes
signed_bytes-front m v =
    ap (take (manifest_size - 64)) (front-as_bytes m)
    ∙ take-append (front m) m.signature (length-front m v)

module _ (a b : CapabilityManifest) (va : IsLayout a) (vb : IsLayout b) where
  words-length :
      {n : ℕ} (xs ys : List ℕ)
      → IsWords n xs
      → IsWords n ys
      → length (words_as_bytes xs) ≡ length (words_as_bytes ys)
  words-length xs ys v w =
      omega (arith, length-words_as_bytes xs, length-words_as_bytes ys, v.sized, w.sized)

  words_injective :
      {n : ℕ} (xs ys : List ℕ)
      → IsWords n xs
      → IsWords n ys
      → words_as_bytes xs ≡ words_as_bytes ys
      → xs ≡ ys
  words_injective xs ys v w e =
      words_as_bytes_injective xs ys (v.sized ∙ sym w.sized) v.fits w.fits e

  -- Manifests with the same signed bytes agree on every field but the signature.
  pub signed_bytes_injective :
      signed_bytes a ≡ signed_bytes b → record a { signature = b.signature } ≡ b
  signed_bytes_injective same =
      let e = sym (signed_bytes-front a va) ∙ same ∙ signed_bytes-front b vb in
      let (version, e) =
        append_injective (to_le 2 a.version) (to_le 2 b.version) (from_reserved a) (from_reserved b)
          refl (unfold front in e) in
      let (reserved, e) =
        append_injective (to_le 2 a.reserved) (to_le 2 b.reserved) (from_reserved2 a)
          (from_reserved2 b) refl e in
      let (reserved2, e) =
        append_injective (to_le 4 a.reserved2) (to_le 4 b.reserved2) (from_tools a) (from_tools b)
          refl e in
      let (tools, e) =
        append_injective (words_as_bytes a.tools) (words_as_bytes b.tools) (from_resources a)
          (from_resources b) (words-length a.tools b.tools va.tools_ok vb.tools_ok) e in
      let (resources, e) =
        append_injective (words_as_bytes a.resources) (words_as_bytes b.resources) (from_prompts a)
          (from_prompts b) (words-length a.resources b.resources va.resources_ok vb.resources_ok)
          e in
      let (prompts, e) =
        append_injective (words_as_bytes a.prompts) (words_as_bytes b.prompts)
          (to_le 8 a.extensions) (to_le 8 b.extensions)
          (words-length a.prompts b.prompts va.prompts_ok vb.prompts_ok) e in
      cc (
        to_le_injective 2 a.version b.version (omega (arith, va.version_ok))
            (omega (arith, vb.version_ok)) version,
        to_le_injective 2 a.reserved b.reserved (omega (arith, va.reserved_ok))
            (omega (arith, vb.reserved_ok)) reserved,
        to_le_injective 4 a.reserved2 b.reserved2 (omega (arith, va.reserved2_ok))
            (omega (arith, vb.reserved2_ok)) reserved2,
        words_injective a.tools b.tools va.tools_ok vb.tools_ok tools,
        words_injective a.resources b.resources va.resources_ok vb.resources_ok resources,
        words_injective a.prompts b.prompts va.prompts_ok vb.prompts_ok prompts,
        to_le_injective 8 a.extensions b.extensions (omega (arith, va.extensions_ok))
            (omega (arith, vb.extensions_ok)) e,
      )

  as_bytes_injective : as_bytes a ≡ as_bytes b → a ≡ b
  as_bytes_injective same =
      let (signed, signature) =
        append_injective (front a) (front b) a.signature b.signature
          (length-front a va ∙ sym (length-front b vb))
          (sym (front-as_bytes a) ∙ same ∙ front-as_bytes b) in
      let others =
        signed_bytes_injective (signed_bytes-front a va ∙ signed ∙ sym (signed_bytes-front b vb)) in
      ap (λ (x : List ℕ). record a { signature = x }) signature ∙ others

accepted :
    (bytes : List ℕ) (m : CapabilityManifest)
    → from_bytes bytes ≡ ok m
    → (manifest_size ≤ length bytes) × (cast bytes ≡ m)
unfolding from_bytes
accepted bytes m e = ground arith

answered :
    (bytes : List ℕ) (m : CapabilityManifest)
    → manifest_size ≤ length bytes
    → cast bytes ≡ m
    → from_bytes bytes ≡ ok m
unfolding from_bytes
answered bytes m long is = rw is (ground (arith, long))

-- On byte strings `from_bytes` gives `m` exactly when the fields of `m` fit their widths and the input
-- starts with `as_bytes` of `m`.
pub from_bytes_iff :
    (bytes : List ℕ) (m : CapabilityManifest)
    → IsBytes bytes
    → (from_bytes bytes ≡ ok m)
      ↔ (IsLayout m × (manifest_size ≤ length bytes) × (slice 0 manifest_size bytes ≡ as_bytes m))
from_bytes_iff bytes m b = (
  λ e.
      let (long, is) = accepted bytes m e in
      rw (← is) (cast-IsLayout bytes b long, long, sym (as_bytes-cast bytes b long)),
  λ p.
      let is : cast bytes ≡ m =
        as_bytes_injective (cast bytes) m (cast-IsLayout bytes b p.1) p.0
          (as_bytes-cast bytes b p.1 ∙ p.2) in
      answered bytes m p.1 is,
)
