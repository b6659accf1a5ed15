-- ===== src/Dispatch/Router/Authorized.antt =====
-- What must hold before a handler runs.
use dcp.Base.{
  ℕ, ◌<◌, ◌≡◌, ◌↔◌, ◌⊎◌, inl, inr, refl, true, some, List, Result, ok, err, arith, >>=-eq-ok,
  Option-cases, Result-cases,
}
use dcp.Error.{SecurityError}
use dcp.Binary.Signed.{SignedInvocation}
use dcp.Capability.Manifest as Manifest
use dcp.Capability.Manifest.{CapabilityManifest, require_tool}
use dcp.Protocol.Schema.{validate_shared_args}
use dcp.Protocol.Schema.Accepts.{IsSchema, IsAccepted, validate_shared_args_iff}
use dcp.Security.Signing.{Crypto, verify_invocation, verify_args_hash}
use dcp.Security.Replay.{NonceStore, check_nonce}
use dcp.Dispatch.Args.{SharedArgs, ToolResult}
use dcp.Dispatch.Router.{
  ToolHandler, BinaryTrieRouter, dispatch, validate_authorized_tool, execute_authorized,
  check_signed, after_nonce, execute_signed_authorized,
}

pub require_tool_iff :
    (m : CapabilityManifest) (id : ℕ)
    → (require_tool m id ≡ ok tt) ↔ (Manifest.has_tool m id ≡ true)
unfolding require_tool
require_tool_iff m id = ground arith

-- `validate_authorized_tool` answers a handler exactly when the capability is granted, the handler
-- is registered and the arguments pass its schema.
validate_authorized_tool_iff :
    (r : BinaryTrieRouter) (m : CapabilityManifest) (id : ℕ) (args : SharedArgs) (h : ToolHandler)
    → (validate_authorized_tool r m id args ≡ ok h) ↔ (
        (Manifest.has_tool m id ≡ true)
        × (dispatch r id ≡ some h)
        × (validate_shared_args h.schema.input args ≡ ok tt))
unfolding validate_authorized_tool
validate_authorized_tool_iff r m id args h = elim (Option-cases (dispatch r id)) [
  | inl e ↦ ground (arith, e, require_tool_iff m id)
  | inr (g, e) ↦
      ground
        (arith, e, require_tool_iff m id, Result-cases (validate_shared_args g.schema.input args))
]

-- Only a granted tool that is registered runs, and only on arguments that its schema accepts: for a
-- router whose schemas have the widths of their types, `execute_authorized` answers a tool's result
-- exactly when the manifest grants the id, a handler stands at the id, the arguments are accepted by
-- its schema, and its run answers that result.
pub execute_authorized_iff :
    (r : BinaryTrieRouter) (m : CapabilityManifest) (id : ℕ) (args : SharedArgs) (res : ToolResult)
    → ((h : ToolHandler) → dispatch r id ≡ some h → IsSchema h.schema.input)
    → (execute_authorized r m id args ≡ ok res) ↔ (
        (Manifest.has_tool m id ≡ true)
        × ((h : ToolHandler) × (dispatch r id ≡ some h)
            × IsAccepted h.schema.input args
            × (h.run args ≡ ok res)))
unfolding execute_authorized
execute_authorized_iff r m id args res widths = (
  λ e.
      let (h, found, ran) = >>=-eq-ok (validate_authorized_tool r m id args) _ e in
      let (granted, at, passed) = (validate_authorized_tool_iff r m id args h).0 found in
      (
        granted,
        (
          h,
          at,
          (validate_shared_args_iff h.schema.input args (widths h at)).0 passed,
          ground arith,
        ),
      ),
  λ (granted, (h, at, accepted, ran)).
      let passed = (validate_shared_args_iff h.schema.input args (widths h at)).1 accepted in
      let found = (validate_authorized_tool_iff r m id args h).1 (granted, at, passed) in
      rw (found, ran),
)

module _ (crypto : Crypto) where
  check_signed_iff :
      (inv : SignedInvocation) (key : List ℕ) (args : SharedArgs) (id : ℕ)
      → (check_signed crypto inv key args ≡ ok id) ↔ (
          (verify_invocation crypto inv key ≡ ok tt)
          × (verify_args_hash crypto inv args.bytes ≡ true)
          × (inv.tool_id < 65536)
          × (id ≡ inv.tool_id))
  unfolding check_signed
  check_signed_iff inv key args id = ground arith

  -- The signature verifies, the arguments have the signed hash, and the tool id is a u16.
  abbrev pub IsSigned : SignedInvocation → List ℕ → SharedArgs → Type 0
  IsSigned inv key args =
      (verify_invocation crypto inv key ≡ ok tt)
      × (verify_args_hash crypto inv args.bytes ≡ true)
      × (inv.tool_id < 65536)

  module _ (r : BinaryTrieRouter) (m : CapabilityManifest) (inv : SignedInvocation) (key : List ℕ)
      (store : NonceStore) (args : SharedArgs) (now later : ℕ) where
    passed :
        (id : ℕ)
        → check_signed crypto inv key args ≡ ok id
        → execute_signed_authorized crypto r m inv key store args now later
          ≡ after_nonce r m id args (check_nonce store inv.nonce inv.timestamp now later)
    unfolding execute_signed_authorized after_nonce
    passed id e = rw (e, execute_signed_authorized) refl

    stopped :
        (e : SecurityError)
        → check_signed crypto inv key args ≡ err e
        → execute_signed_authorized crypto r m inv key store args now later ≡ (err e, store)
    unfolding execute_signed_authorized
    stopped e h = rw (h, execute_signed_authorized) refl

    after_nonce_iff :
        (checked : Result (Unit {0}) SecurityError × NonceStore) (res : ToolResult)
        → ((after_nonce r m inv.tool_id args checked).0 ≡ ok res)
          ↔ ((checked.0 ≡ ok tt) × (execute_authorized r m inv.tool_id args ≡ ok res))
    unfolding after_nonce execute_authorized
    after_nonce_iff (ok u, s) res = ground arith
    after_nonce_iff (err e, s) res = ground arith

    pub store_cases :
        let out = execute_signed_authorized crypto r m inv key store args now later in
        (out.1 ≡ (check_nonce store inv.nonce inv.timestamp now later).1) ⊎ (out.1 ≡ store)
    store_cases = elim (Result-cases (check_signed crypto inv key args)) [
      | inr (e, bad) ↦ inr (rw (stopped e bad) refl)
      | inl (id, good) ↦ inl (rw (passed id good) (unfold after_nonce in refl))
    ]

    -- A signed invocation runs exactly when every check passes: the signature, the hash of the
    -- arguments, a tool id of sixteen bits, the nonce, and then the checks and the run of
    -- `execute_authorized` with that id. A failed signature, hash or id leaves the nonce store as it
    -- was; once these pass, the store is the one that `check_nonce` leaves, whatever the later
    -- answers are.
    pub execute_signed_authorized_iff :
        let out = execute_signed_authorized crypto r m inv key store args now later in
        let checked = check_nonce store inv.nonce inv.timestamp now later in
        ((res : ToolResult)
          → (out.0 ≡ ok res) ↔ (
              IsSigned inv key args
              × (checked.0 ≡ ok tt)
              × (execute_authorized r m inv.tool_id args ≡ ok res)))
        × (IsSigned inv key args → out.1 ≡ checked.1)
        × (¬ IsSigned inv key args → out.1 ≡ store)
    execute_signed_authorized_iff = elim (Result-cases (check_signed crypto inv key args)) [
      | inr (e, bad) ↦
          let out = stopped e bad in
          let unsigned : ¬ IsSigned inv key args = λ p.
            ground (arith, (check_signed_iff inv key args inv.tool_id).1 (p.0, p.1, p.2, refl)) in
          rw out (λ res. (λ h. cc, λ h. absurd (unsigned h.0)), λ h. absurd (unsigned h), λ h. refl)
      | inl (id, good) ↦
          let (sig, hash, small, is) = (check_signed_iff inv key args id).0 good in
          let out =
            passed inv.tool_id
              ((check_signed_iff inv key args inv.tool_id).1 (sig, hash, small, refl)) in
          rw out (
            λ res.
                let rest =
                  after_nonce_iff (check_nonce store inv.nonce inv.timestamp now later) res in
                (λ h. ((sig, hash, small), (rest.0 h).0, (rest.0 h).1), λ h. rest.1 (h.1, h.2)),
            λ h. unfold after_nonce in refl,
            λ h. absurd (h (sig, hash, small)),
          )
    ]
