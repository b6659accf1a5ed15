-- ===== src/Dispatch/Router/Replayed.antt =====
-- Signed invocations in sequence, over one nonce store.
use dcp.Base.{ℕ, ◌≤◌, ◌≡◌, ◌≢◌, Result, inl, inr, ap₂, ◌∙◌, sym, List, [], ◌∷◌, ok, arith}
use mathlib.Core.Path.{subst}
use dcp.Error.{SecurityError}
use dcp.Binary.Signed.{SignedInvocation}
use dcp.Capability.Manifest.{CapabilityManifest}
use dcp.Security.Signing.{Crypto}
use dcp.Security.Replay.{NonceStore, check_nonce}
use dcp.Security.Replay.Once.{Guarded, step-Guarded, refuse-Guarded, accept-Guarded}
use dcp.Dispatch.Args.{SharedArgs, ToolResult}
use dcp.Dispatch.Router.{BinaryTrieRouter, execute_signed_authorized}
use dcp.Dispatch.Router.Authorized.{store_cases, execute_signed_authorized_iff}

-- One call of `execute_signed_authorized`, with the clock readings that it makes.
pub record Call : Type 0 where
  pub router : BinaryTrieRouter
  pub granted : CapabilityManifest
  pub inv : SignedInvocation
  pub key : List ℕ
  pub args : SharedArgs
  pub now : ℕ
  pub later : ℕ

-- The clock readings run forward from `clock`, call by call.
abbrev pub ForwardCalls : ℕ → List Call → Type 0
ForwardCalls clock [] = Unit {0}
ForwardCalls clock (c ∷ cs) = (clock ≤ c.now) × (c.now ≤ c.later) × ForwardCalls c.later cs

abbrev pub end_of_calls : ℕ → List Call → ℕ
end_of_calls clock [] = clock
end_of_calls clock (c ∷ cs) = end_of_calls c.later cs

module _ (crypto : Crypto) where
  abbrev pub call : NonceStore → Call → Result ToolResult SecurityError × NonceStore
  call s c = execute_signed_authorized crypto c.router c.granted c.inv c.key s c.args c.now c.later

  -- The store after the calls, in their order.
  abbrev pub calls : NonceStore → List Call → NonceStore
  calls s [] = s
  calls s (c ∷ cs) = calls (call s c).1 cs

  call-Guarded :
      (s : NonceStore) (c : Call) (n t clock : ℕ)
      → clock ≤ c.now
      → c.now ≤ c.later
      → Guarded s n t clock
      → Guarded (call s c).1 n t c.later
  call-Guarded s c n t clock lo ord g =
      elim (store_cases crypto c.router c.granted c.inv c.key s c.args c.now c.later) [
        | inl checked ↦
            subst (λ (x : NonceStore). Guarded x n t c.later) (sym checked)
              (step-Guarded s c.inv.nonce c.inv.timestamp c.now c.later n t clock lo ord g)
        | inr same ↦ subst (λ (x : NonceStore). Guarded x n t c.later) (sym same) (weaken g)
      ]
    where
      weaken : Guarded s n t clock → Guarded s n t c.later
      weaken (inl f) = inl f
      weaken (inr old) = inr (omega arith)

  calls-Guarded :
      (s : NonceStore) (cs : List Call) (n t clock : ℕ)
      → ForwardCalls clock cs
      → Guarded s n t clock
      → Guarded (calls s cs) n t (end_of_calls clock cs)
  calls-Guarded s [] n t clock h g = g
  calls-Guarded s (c ∷ cs) n t clock (lo, ord, h) g =
      calls-Guarded (call s c).1 cs n t c.later h (call-Guarded s c n t clock lo ord g)

  -- A signed invocation that ran is not run again: after a call that answered a result, and any
  -- further calls by anyone, a call with the same nonce and timestamp answers no result, while the
  -- clock runs forward and the store is not cleared.
  pub executed_once :
      (s : NonceStore) (first : Call) (between : List Call) (again : Call) (res res' : ToolResult)
      → (call s first).0 ≡ ok res
      → ForwardCalls first.later between
      → end_of_calls first.later between ≤ again.now
      → again.inv.nonce ≡ first.inv.nonce
      → again.inv.timestamp ≡ first.inv.timestamp
      → (call (calls (call s first).1 between) again).0 ≢ ok res'
  executed_once s first between again res res' ran forward lo same_nonce same_time second =
      let signed =
        (execute_signed_authorized_iff crypto first.router first.granted first.inv first.key s
          first.args first.now first.later) in
      let (sig, fresh, done) = (signed.0 res).0 ran in
      let n = first.inv.nonce in
      let t = first.inv.timestamp in
      let after_first : Guarded (call s first).1 n t first.later =
        subst (λ (x : NonceStore). Guarded x n t first.later) (sym (signed.1 sig))
          (accept-Guarded s n t first.now first.later first.later fresh) in
      let store = calls (call s first).1 between in
      let guarded = calls-Guarded (call s first).1 between n t first.later forward after_first in
      let signed_again =
        (execute_signed_authorized_iff crypto again.router again.granted again.inv again.key store
          again.args again.now again.later) in
      let (sig', fresh', done') = (signed_again.0 res').0 second in
      refuse-Guarded store n t again.now again.later (end_of_calls first.later between) lo guarded (
        ap₂ (λ (a b : ℕ). (check_nonce store a b again.now again.later).0) (sym same_nonce)
          (sym same_time)
        ∙ fresh')
