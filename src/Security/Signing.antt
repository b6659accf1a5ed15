-- ===== src/Security/Signing.antt =====
-- `src/security/signing.rs`. Ed25519 and Blake3 are other packages: they are a parameter, with the
-- behaviour that their documentation states as laws.
pub mod Laws
use dcp.Base.{
  ℕ, ◌≡◌, ◌<◌, Bool, true, List, [], ◌++◌, if◌then◌else◌, length, Result, ok, err, ◌>>=◌, ◌>>◌,
  ensure, ok_or,
}
use dcp.Base.Bytes.{IsBytes, to_le, bytes_eq}
use dcp.Error.{SecurityError, invalid_signature}
use dcp.Binary.Signed.{SignedToolDef, SignedInvocation}

-- `SigningKey`, `VerifyingKey`, `Signature` and `blake3::hash`. A key that `from_bytes` does not
-- accept is refused by `valid_key`.
pub record Crypto : Type 1 where
  pub SigningKey : Type 0
  pub key_of_seed : List ℕ → SigningKey
  pub public_key : SigningKey → List ℕ
  pub sign : SigningKey → List ℕ → List ℕ
  pub valid_key : List ℕ → Bool
  pub verify : List ℕ → List ℕ → List ℕ → Bool
  pub blake3 : List ℕ → List ℕ
  pub valid_key-public_key : (k : SigningKey) → valid_key (public_key k) ≡ true
  pub verify-sign : (k : SigningKey) (m : List ℕ) → verify (public_key k) m (sign k m) ≡ true
  pub length-public_key : (k : SigningKey) → length (public_key k) ≡ 32
  pub length-sign : (k : SigningKey) (m : List ℕ) → length (sign k m) ≡ 64
  pub length-blake3 : (m : List ℕ) → length (blake3 m) ≡ 32
  pub public_key-IsBytes : (k : SigningKey) → IsBytes (public_key k)
  pub sign-IsBytes : (k : SigningKey) (m : List ℕ) → IsBytes (sign k m)
  pub blake3-IsBytes : (m : List ℕ) → IsBytes (blake3 m)

module _ (crypto : Crypto) where
  open crypto use {SigningKey, key_of_seed, public_key, sign, valid_key, verify, blake3}

  -- `Signer::from_seed`
  unfoldable pub from_seed : List ℕ → SigningKey
  from_seed seed = key_of_seed seed

  -- `Signer::sign_tool_def`
  unfoldable pub sign_tool_def : SigningKey → ℕ → List ℕ → ℕ → SignedToolDef
  sign_tool_def signer tool_id schema_hash capabilities =
      let message = (([] ++ to_le 4 tool_id) ++ schema_hash) ++ to_le 8 capabilities in
      record {
        tool_id = tool_id;
        schema_hash = schema_hash;
        capabilities = capabilities;
        signature = sign signer message;
        public_key = public_key signer;
      }

  -- `Signer::sign_invocation`
  unfoldable pub sign_invocation : SigningKey → ℕ → ℕ → ℕ → List ℕ → SignedInvocation
  sign_invocation signer tool_id nonce timestamp args =
      let args_hash = blake3 args in
      let message =
        ((([] ++ to_le 4 tool_id) ++ to_le 8 nonce) ++ to_le 8 timestamp) ++ args_hash in
      record {
        tool_id = tool_id;
        nonce = nonce;
        timestamp = timestamp;
        args_hash = args_hash;
        signature = sign signer message;
      }

  -- `Verifier::verify_tool_def`
  unfoldable pub verify_tool_def : SignedToolDef → Result (Unit {0}) SecurityError
  verify_tool_def d =
      let message = (([] ++ to_le 4 d.tool_id) ++ d.schema_hash) ++ to_le 8 d.capabilities in
      do
        ensure (valid_key d.public_key) invalid_signature
        ensure (verify d.public_key message d.signature) invalid_signature

  -- `Verifier::verify_invocation`
  unfoldable pub verify_invocation : SignedInvocation → List ℕ → Result (Unit {0}) SecurityError
  verify_invocation inv key =
      let message =
        ((([] ++ to_le 4 inv.tool_id) ++ to_le 8 inv.nonce) ++ to_le 8 inv.timestamp)
        ++ inv.args_hash in
      do
        ensure (valid_key key) invalid_signature
        ensure (verify key message inv.signature) invalid_signature

  -- `Verifier::verify_args_hash`
  unfoldable pub verify_args_hash : SignedInvocation → List ℕ → Bool
  verify_args_hash inv args = bytes_eq (blake3 args) inv.args_hash
