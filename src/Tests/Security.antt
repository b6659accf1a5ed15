-- ===== src/Tests/Security.antt =====
-- Signing and replay at concrete values.
use dcp.Base.{◌≡◌, ◌≢◌, refl, true, [], ◌∷◌, ok, arith}
use dcp.Base.Map.{contains_key}
use dcp.Binary.Signed.Invocation.{IsInvocation}
use dcp.Security.Replay.{NonceStore, check_nonce, is_expired, len}
use dcp.Security.Replay.Bounds.{IsStore, check_nonce-IsStore}
use dcp.Security.Replay.Once.{Request, serve, accepted_once}
use dcp.Security.Signing.{sign_invocation, verify_invocation, verify_args_hash}
use dcp.Security.Signing.Laws.{verify-sign_invocation}
use dcp.Tests.Data.{toy, key, payload}

abbrev small_store : NonceStore
small_store = record { nonces = (5, 90) ∷ []; max_nonces = 2; expiration_secs = 300 }

abbrev other_request : Request
other_request = record { nonce = 9; timestamp = 101; now = 101; later = 102 }

fresh_nonce : (check_nonce small_store 42 100 100 100).0 ≡ ok tt
unfolding check_nonce is_expired contains_key len
fresh_nonce = refl

accepted_once_example :
    (check_nonce
      (serve (check_nonce small_store 42 100 100 100).1 (other_request ∷ []))
      42
      100
      110
      110).0
    ≢ ok tt
accepted_once_example =
    accepted_once small_store 42 100 100 100 (other_request ∷ []) 110 110 fresh_nonce
      (omega arith, omega arith, tt) (omega arith)

check_nonce-IsStore_example :
    IsStore (check_nonce small_store 42 100 100 100).1
    × ((check_nonce small_store 42 100 100 100).1.max_nonces ≡ small_store.max_nonces)
    × ((check_nonce small_store 42 100 100 100).1.expiration_secs ≡ small_store.expiration_secs)
unfolding contains_key
check_nonce-IsStore_example =
    check_nonce-IsStore small_store 42 100 100 100
      (record { distinct = (refl, tt); bounded = omega arith })

verify-sign_invocation_example :
    (verify_invocation toy (sign_invocation toy tt 7 42 100 payload) key ≡ ok tt)
    × (verify_args_hash toy (sign_invocation toy tt 7 42 100 payload) payload ≡ true)
    × IsInvocation (sign_invocation toy tt 7 42 100 payload)
verify-sign_invocation_example =
    verify-sign_invocation toy tt 7 42 100 payload (omega arith) (omega arith) (omega arith)
