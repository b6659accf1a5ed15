-- ===== src/Capability/Manifest/Laws.antt =====
-- A manifest as four sets of ids: what the operations of `capability/manifest.rs` do to them.
use dcp.Base.{
  ℕ, ◌^◌, ◌<◌, ◌≡◌, refl, ap, min, true, false, ltb, ◌==◌, if◌then◌else◌, err, bit_and, bit_or,
  arith, ◌&&◌,
}
use dcp.Base.Bits.{bit_not, bit_or-lt, bit_and-lt}
use dcp.Error.{insufficient_capabilities}
use dcp.Capability.Manifest.BitSet.{IsWords, test_lem, test-and, test-set, test-clear, pow-lt}
use dcp.Capability.Manifest.Members.{
  has_member-set_member, has_member-clear_member, set_member-IsWords, clear_member-IsWords,
  and_words-IsWords, has_member-and_words, has_member-zeros, replicate-IsWords, test-zero,
}
use dcp.Capability.Manifest.{
  CapabilityManifest, new, intersect, negotiate, set_tool, clear_tool, has_tool, has_resource,
  has_prompt, set_extension, clear_extension, has_extension, require, require_tool,
  require_resource, require_prompt, require_extension, max_tools, max_resources, max_prompts,
}

-- The arrays have their lengths, and every word is a u64.
pub record IsManifest (m : CapabilityManifest) : Type 0 where
  pub tools_ok : IsWords 128 m.tools
  pub resources_ok : IsWords 16 m.resources
  pub prompts_ok : IsWords 8 m.prompts
  pub extensions_ok : m.extensions < 2 ^ 64

pub new-IsManifest : (version : ℕ) → IsManifest (new version)
unfolding new
new-IsManifest version = record {
  tools_ok = replicate-IsWords 128;
  resources_ok = replicate-IsWords 16;
  prompts_ok = replicate-IsWords 8;
  extensions_ok = omega arith;
}

-- The negotiated manifest `r` has what both sides have, and nothing else.
pub record IsMeet (a b r : CapabilityManifest) : Type 0 where
  pub valid : IsManifest r
  pub meet_version : r.version ≡ min a.version b.version
  pub meet_tools : (j : ℕ) → has_tool r j ≡ has_tool a j && has_tool b j
  pub meet_resources : (j : ℕ) → has_resource r j ≡ has_resource a j && has_resource b j
  pub meet_prompts : (j : ℕ) → has_prompt r j ≡ has_prompt a j && has_prompt b j
  pub meet_extensions : (j : ℕ) → has_extension r j ≡ has_extension a j && has_extension b j

has_extension-bit_and :
    (a b : CapabilityManifest) (j : ℕ)
    → has_extension (intersect a b) j ≡ has_extension a j && has_extension b j
unfolding has_extension intersect
has_extension-bit_and a b j = ground (
  arith,
  test_lem j (bit_and a.extensions b.extensions),
  test_lem j a.extensions,
  test_lem j b.extensions,
  test-and a.extensions b.extensions j,
)

-- Negotiation is the meet of two valid manifests: the answer is valid, its version is the lower one,
-- and each tool, resource, prompt and extension is in it exactly when both sides have it.
pub negotiate-IsMeet :
    (client server : CapabilityManifest)
    → IsManifest client
    → IsManifest server
    → IsMeet client server (negotiate client server)
unfolding negotiate
negotiate-IsMeet client server hc hs = record {
  valid =
      unfold intersect in
      record {
        tools_ok = and_words-IsWords 128 _ _ hc.tools_ok hs.tools_ok;
        resources_ok = and_words-IsWords 16 _ _ hc.resources_ok hs.resources_ok;
        prompts_ok = and_words-IsWords 8 _ _ hc.prompts_ok hs.prompts_ok;
        extensions_ok = bit_and-lt 64 _ _ hc.extensions_ok;
      };
  meet_version = unfold intersect in refl;
  meet_tools = λ j. unfold intersect has_tool in has_member-and_words 128 max_tools _ _ j refl;
  meet_resources =
      λ j. unfold intersect has_resource in has_member-and_words 16 max_resources _ _ j refl;
  meet_prompts = λ j. unfold intersect has_prompt in has_member-and_words 8 max_prompts _ _ j refl;
  meet_extensions = has_extension-bit_and client server;
}

-- Setting a tool in a valid manifest keeps it valid and adds exactly that tool, or nothing if the id
-- is 8192 or more; the other sets are as before.
pub has_tool-set_tool :
    (m : CapabilityManifest) (id j : ℕ)
    → IsManifest m
    → IsManifest (set_tool m id)
      × (has_tool (set_tool m id) j
          ≡ (if (j == id) && ltb id max_tools then true else has_tool m j))
      × (has_resource (set_tool m id) j ≡ has_resource m j)
      × (has_prompt (set_tool m id) j ≡ has_prompt m j)
      × (has_extension (set_tool m id) j ≡ has_extension m j)
unfolding set_tool has_tool has_resource has_prompt has_extension
has_tool-set_tool m id j h = (
  record {
    tools_ok = set_member-IsWords 128 max_tools refl m.tools h.tools_ok id;
    resources_ok = h.resources_ok;
    prompts_ok = h.prompts_ok;
    extensions_ok = h.extensions_ok;
  },
  has_member-set_member 128 max_tools refl m.tools h.tools_ok id j,
  refl,
  refl,
  refl,
)

-- Clearing a tool in a valid manifest keeps it valid and removes exactly that tool; the other sets
-- are as before.
pub has_tool-clear_tool :
    (m : CapabilityManifest) (id j : ℕ)
    → IsManifest m
    → IsManifest (clear_tool m id)
      × (has_tool (clear_tool m id) j ≡ (if j == id then false else has_tool m j))
      × (has_resource (clear_tool m id) j ≡ has_resource m j)
      × (has_prompt (clear_tool m id) j ≡ has_prompt m j)
      × (has_extension (clear_tool m id) j ≡ has_extension m j)
unfolding clear_tool has_tool has_resource has_prompt has_extension
has_tool-clear_tool m id j h = (
  record {
    tools_ok = clear_member-IsWords 128 max_tools refl m.tools h.tools_ok id;
    resources_ok = h.resources_ok;
    prompts_ok = h.prompts_ok;
    extensions_ok = h.extensions_ok;
  },
  has_member-clear_member 128 max_tools refl m.tools h.tools_ok id j,
  refl,
  refl,
  refl,
)

-- In a valid manifest setting or clearing extension bit `b` changes that bit alone, setting changes
-- nothing if `b` is 64 or more, and the extensions stay a u64.
pub has_extension-set_extension :
    (m : CapabilityManifest) (b j : ℕ)
    → IsManifest m
    → (has_extension (set_extension m b) j
        ≡ (if (j == b) && ltb b 64 then true else has_extension m j))
      × (has_extension (clear_extension m b) j ≡ (if j == b then false else has_extension m j))
      × (set_extension m b).extensions < 2 ^ 64
      × (clear_extension m b).extensions < 2 ^ 64
unfolding set_extension clear_extension has_extension
has_extension-set_extension m b j h = (
  ground (
    arith,
    test_lem j (bit_or m.extensions (2 ^ b)),
    test_lem j m.extensions,
    test-set m.extensions b j,
  ),
  ground (
    arith,
    test_lem j (bit_and m.extensions (bit_not 64 (2 ^ b))),
    test_lem j m.extensions,
    test-clear m.extensions b j,
  ),
  ground (arith, h.extensions_ok, pow-lt b, bit_or-lt 64 m.extensions (2 ^ b)),
  ground (arith, h.extensions_ok, bit_and-lt 64 m.extensions (bit_not 64 (2 ^ b))),
)

-- A new manifest grants nothing.
pub new_denies :
    (version j : ℕ)
    → (require_tool (new version) j ≡ err insufficient_capabilities)
      × (require_resource (new version) j ≡ err insufficient_capabilities)
      × (require_prompt (new version) j ≡ err insufficient_capabilities)
      × (require_extension (new version) j ≡ err insufficient_capabilities)
unfolding require_tool require_resource require_prompt require_extension new has_tool has_resource
    has_prompt has_extension
new_denies version j = (
  ap require (has_member-zeros max_tools 128 j),
  ap require (has_member-zeros max_resources 16 j),
  ap require (has_member-zeros max_prompts 8 j),
  ground (arith, test_lem j 0, test-zero j),
)
