-- ===== src/Tests/Policy.antt =====
-- Manifests at concrete values.
use dcp.Base.{◌≡◌, refl, ◌==◌, ◌&&◌, true, ltb, if◌then◌else◌, ◌∷◌, replicate, ok, err}
use dcp.Base.Bytes.{slice}
use dcp.Error.{insufficient_data}
use dcp.Capability.Manifest.Wire.{from_bytes, cast, read_words}
use dcp.Capability.Manifest.{
  CapabilityManifest, new, negotiate, set_tool, has_tool, has_resource, has_prompt, has_extension,
  max_tools,
}
use dcp.Capability.Manifest.Laws.{
  IsManifest, IsMeet, new-IsManifest, negotiate-IsMeet, has_tool-set_tool,
}

-- Tool 3 alone.
abbrev client : CapabilityManifest
client = set_tool (new 2) 3

client-IsManifest : IsManifest client
client-IsManifest = (has_tool-set_tool (new 2) 3 3 (new-IsManifest 2)).0

negotiate-IsMeet_example : IsMeet client (new 1) (negotiate client (new 1))
negotiate-IsMeet_example = negotiate-IsMeet client (new 1) client-IsManifest (new-IsManifest 1)

has_tool-set_tool_example :
    IsManifest (set_tool client 70)
    × (has_tool (set_tool client 70) 3
        ≡ (if (3 == 70) && ltb 70 max_tools then true else has_tool client 3))
    × (has_resource (set_tool client 70) 3 ≡ has_resource client 3)
    × (has_prompt (set_tool client 70) 3 ≡ has_prompt client 3)
    × (has_extension (set_tool client 70) 3 ≡ has_extension client 3)
has_tool-set_tool_example = has_tool-set_tool client 70 3 client-IsManifest

-- The cast reads whatever the reserved bytes hold.
from_bytes-reserved_test :
    from_bytes (1 ∷ 0 ∷ 7 ∷ 0 ∷ replicate 1292 0) ≡ ok (record (new 1) { reserved = 7 })
unfolding from_bytes cast read_words slice new
from_bytes-reserved_test = refl

from_bytes-short_test : from_bytes (replicate 1295 0) ≡ err insufficient_data
unfolding from_bytes
from_bytes-short_test = refl
