-- ===== src/Capability/Manifest.antt =====
-- `src/capability/manifest.rs`: capabilities as bit sets over arrays of u64 words.
mod BitSet
pub mod Members
pub mod Laws
pub mod Wire
pub mod Layout
pub mod RoundTrip
unfoldable pub use BitSet.*
use dcp.Base.{
  ℕ, zero, suc, ◌+◌, ◌*◌, ◌/◌, ◌%◌, ◌^◌, min, not, Bool, true, false, List, [], ◌∷◌, ◌++◌, ltb, leb,
  ◌==◌, if◌then◌else◌, replicate, Result, ok, err, bit_and, bit_or,
}
use dcp.Base.Bits.{bit, bit_not}
use dcp.Error.{SecurityError, insufficient_capabilities}

abbrev pub max_tools : ℕ
max_tools = 8192

abbrev pub max_resources : ℕ
max_resources = 1024

abbrev pub max_prompts : ℕ
max_prompts = 512

-- `CapabilityManifest`; the last two of its first three fields are private there.
pub record CapabilityManifest : Type 0 where
  pub version : ℕ
  pub reserved : ℕ
  pub reserved2 : ℕ
  pub tools : List ℕ
  pub resources : List ℕ
  pub prompts : List ℕ
  pub extensions : ℕ
  pub signature : List ℕ

-- `CapabilityManifest::new`
unfoldable pub new : ℕ → CapabilityManifest
new version = record {
  version = version;
  reserved = 0;
  reserved2 = 0;
  tools = replicate 128 0;
  resources = replicate 16 0;
  prompts = replicate 8 0;
  extensions = 0;
  signature = replicate 64 0;
}

unfoldable pub intersect : CapabilityManifest → CapabilityManifest → CapabilityManifest
unfolding new and_words
intersect a b = record (new (min a.version b.version)) {
  tools = and_words 128 a.tools b.tools;
  resources = and_words 16 a.resources b.resources;
  prompts = and_words 8 a.prompts b.prompts;
  extensions = bit_and a.extensions b.extensions;
}

unfoldable pub negotiate : CapabilityManifest → CapabilityManifest → CapabilityManifest
negotiate client server = intersect client server

unfoldable pub set_tool : CapabilityManifest → ℕ → CapabilityManifest
unfolding set_member
set_tool m id = record m { tools = set_member max_tools m.tools id }

unfoldable pub clear_tool : CapabilityManifest → ℕ → CapabilityManifest
unfolding clear_member
clear_tool m id = record m { tools = clear_member max_tools m.tools id }

unfoldable pub has_tool : CapabilityManifest → ℕ → Bool
unfolding has_member
has_tool m id = has_member max_tools m.tools id

unfoldable pub set_resource : CapabilityManifest → ℕ → CapabilityManifest
unfolding set_member
set_resource m id = record m { resources = set_member max_resources m.resources id }

unfoldable pub clear_resource : CapabilityManifest → ℕ → CapabilityManifest
unfolding clear_member
clear_resource m id = record m { resources = clear_member max_resources m.resources id }

unfoldable pub has_resource : CapabilityManifest → ℕ → Bool
unfolding has_member
has_resource m id = has_member max_resources m.resources id

unfoldable pub set_prompt : CapabilityManifest → ℕ → CapabilityManifest
unfolding set_member
set_prompt m id = record m { prompts = set_member max_prompts m.prompts id }

unfoldable pub clear_prompt : CapabilityManifest → ℕ → CapabilityManifest
unfolding clear_member
clear_prompt m id = record m { prompts = clear_member max_prompts m.prompts id }

unfoldable pub has_prompt : CapabilityManifest → ℕ → Bool
unfolding has_member
has_prompt m id = has_member max_prompts m.prompts id

unfoldable pub set_extension : CapabilityManifest → ℕ → CapabilityManifest
set_extension m b = if ltb b 64 then record m { extensions = bit_or m.extensions (2 ^ b) } else m

unfoldable pub clear_extension : CapabilityManifest → ℕ → CapabilityManifest
clear_extension m b =
    if ltb b 64 then record m { extensions = bit_and m.extensions (bit_not 64 (2 ^ b)) } else m

unfoldable pub has_extension : CapabilityManifest → ℕ → Bool
has_extension m b = if leb 64 b then false else not (bit_and m.extensions (2 ^ b) == 0)

-- The answer of `require_tool`, `require_resource`, `require_prompt` and `require_extension`.
abbrev pub require : Bool → Result (Unit {0}) SecurityError
require true = ok tt
require false = err insufficient_capabilities

unfoldable pub require_tool : CapabilityManifest → ℕ → Result (Unit {0}) SecurityError
unfolding has_tool
require_tool m id = require (has_tool m id)

unfoldable pub require_resource : CapabilityManifest → ℕ → Result (Unit {0}) SecurityError
unfolding has_resource
require_resource m id = require (has_resource m id)

unfoldable pub require_prompt : CapabilityManifest → ℕ → Result (Unit {0}) SecurityError
unfolding has_prompt
require_prompt m id = require (has_prompt m id)

unfoldable pub require_extension : CapabilityManifest → ℕ → Result (Unit {0}) SecurityError
unfolding has_extension
require_extension m b = require (has_extension m b)

-- `count_ones` of a u64.
abbrev pub count_ones : ℕ → ℕ → ℕ
count_ones zero w = 0
count_ones (suc n) w = w % 2 + count_ones n (w / 2)

abbrev pub sum_ones : List ℕ → ℕ
sum_ones [] = 0
sum_ones (w ∷ ws) = count_ones 64 w + sum_ones ws

unfoldable pub tool_count : CapabilityManifest → ℕ
tool_count m = sum_ones m.tools

-- The bits of one word that are set, as ids.
abbrev pub word_ids : ℕ → ℕ → ℕ → ℕ → List ℕ
word_ids word_idx word zero b = []
word_ids word_idx word (suc left) b =
    let rest = word_ids word_idx word left (b + 1) in
    if not (bit_and word (2 ^ b) == 0) then ((word_idx * 64 + b) % 2 ^ 16) ∷ rest else rest

abbrev pub ids_from : ℕ → List ℕ → List ℕ
ids_from word_idx [] = []
ids_from word_idx (w ∷ ws) = word_ids word_idx w 64 0 ++ ids_from (word_idx + 1) ws

unfoldable pub tool_ids : CapabilityManifest → List ℕ
tool_ids m = ids_from 0 m.tools
