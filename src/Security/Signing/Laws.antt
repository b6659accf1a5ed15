-- ===== src/Security/Signing/Laws.antt =====
-- What is signed is verified, and what is verified is what the canonical signed bytes say.
use dcp.Base.{ℕ, ◌≡◌, ◌≢◌, ◌<◌, ◌^◌, refl, ◌↔◌, true, List, length, ok, err, arith}
use dcp.Base.Bytes.{IsBytes, bytes_eq_iff}
use dcp.Error.{invalid_signature}
use dcp.Binary.Signed.{SignedInvocation, invocation_signed_bytes}
use dcp.Binary.Signed.Invocation.{IsInvocation}
use dcp.Binary.Signed.ToolDef.{IsToolDef}
use dcp.Security.Signing.{
  Crypto, sign_tool_def, sign_invocation, verify_tool_def, verify_invocation, verify_args_hash,
}

module _ (crypto : Crypto) where
  open crypto use {SigningKey, public_key, sign, valid_key, verify, blake3}

  -- A signed invocation verifies under the signer's key, carries the hash of its arguments, and
  -- fits the wire format.
  pub verify-sign_invocation :
      (k : SigningKey) (tool_id nonce timestamp : ℕ) (args : List ℕ)
      → tool_id < 2 ^ 32
      → nonce < 2 ^ 64
      → timestamp < 2 ^ 64
      → let inv = sign_invocation crypto k tool_id nonce timestamp args in
        (verify_invocation crypto inv (public_key k) ≡ ok tt)
        × (verify_args_hash crypto inv args ≡ true)
        × IsInvocation inv
  unfolding sign_invocation verify_invocation verify_args_hash
  verify-sign_invocation k tool_id nonce timestamp args ht hn hs = (
    rw (crypto.valid_key-public_key k, crypto.verify-sign k _),
    (bytes_eq_iff (blake3 args) (blake3 args)).1 refl,
    record {
      tool_ok = ht;
      nonce_ok = hn;
      timestamp_ok = hs;
      hash_ok = crypto.length-blake3 args;
      hash_bytes = crypto.blake3-IsBytes args;
      signature_ok = crypto.length-sign k _;
      signature_bytes = crypto.sign-IsBytes k _;
    },
  )

  -- A signed tool definition verifies under the key that it carries, and fits the wire format.
  pub verify-sign_tool_def :
      (k : SigningKey) (tool_id : ℕ) (schema_hash : List ℕ) (capabilities : ℕ)
      → tool_id < 2 ^ 32
      → length schema_hash ≡ 32
      → IsBytes schema_hash
      → capabilities < 2 ^ 64
      → let d = sign_tool_def crypto k tool_id schema_hash capabilities in
        (verify_tool_def crypto d ≡ ok tt) × IsToolDef d
  unfolding sign_tool_def verify_tool_def
  verify-sign_tool_def k tool_id schema_hash capabilities ht hl hb hc = (
    rw (crypto.valid_key-public_key k, crypto.verify-sign k _),
    record {
      tool_ok = ht;
      hash_ok = hl;
      hash_bytes = hb;
      capabilities_ok = hc;
      signature_ok = crypto.length-sign k _;
      signature_bytes = crypto.sign-IsBytes k _;
      key_ok = crypto.length-public_key k;
      key_bytes = crypto.public_key-IsBytes k;
    },
  )

  -- An invocation is accepted exactly when the key is valid and the signature verifies over the
  -- canonical signed bytes; the only other answer is `InvalidSignature`.
  pub verify_invocation_iff :
      (inv : SignedInvocation) (key : List ℕ)
      → ((verify_invocation crypto inv key ≡ ok tt) ↔ (
          (valid_key key ≡ true) × (verify key (invocation_signed_bytes inv) inv.signature ≡ true)))
        × (verify_invocation crypto inv key ≢ ok tt
            → verify_invocation crypto inv key ≡ err invalid_signature)
  unfolding verify_invocation invocation_signed_bytes
  verify_invocation_iff inv key = ((λ h. ground arith, λ h. ground arith), λ h. ground arith)
