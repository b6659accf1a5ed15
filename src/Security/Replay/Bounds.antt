-- ===== src/Security/Replay/Bounds.antt =====
-- The store never tracks a nonce twice, nor more nonces than it is configured for.
use dcp.Base.{ℕ, ◌-◌, ◌≤◌, ◌≡◌, refl, Bool, false, [], ◌∷◌, leb, length, arith}
use dcp.Base.Map.{Map, nat_eq, IsMap, contains_key, insert-IsMap, length-insert_new}
use dcp.Security.Replay.{NonceStore, retain, cleanup_expired, len, check_nonce}

pub record IsStore (s : NonceStore) : Type 0 where
  pub distinct : IsMap s.nonces
  pub bounded : length s.nonces ≤ s.max_nonces

pub contains_key-retain :
    (keep : ℕ → Bool) (k : ℕ) (m : Map ℕ ℕ)
    → contains_key k m ≡ false
    → contains_key k (retain keep m) ≡ false
unfolding contains_key retain
contains_key-retain keep k [] h = refl
contains_key-retain keep k (p ∷ m) h = ground (arith, contains_key-retain keep k m)

pub retain-IsMap : (keep : ℕ → Bool) (m : Map ℕ ℕ) → IsMap m → IsMap (retain keep m)
unfolding retain
retain-IsMap keep [] h = tt
retain-IsMap keep (p ∷ m) h =
    ground (arith, retain-IsMap keep m h.1, contains_key-retain keep p.0 m h.0)

length-retain : (keep : ℕ → Bool) (m : Map ℕ ℕ) → length (retain keep m) ≤ length m
unfolding retain
length-retain keep [] = omega arith
length-retain keep (p ∷ m) = ground (arith, length-retain keep m)

abbrev stale : NonceStore → ℕ → ℕ → Bool
stale s later ts = leb (later - ts) s.expiration_secs

-- `check_nonce` keeps the store's nonces distinct and within `max_nonces`, on every branch, and
-- leaves the configuration as it was.
pub check_nonce-IsStore :
    (s : NonceStore) (nonce timestamp now later : ℕ)
    → IsStore s
    → let s' = (check_nonce s nonce timestamp now later).1 in
      IsStore s' × (s'.max_nonces ≡ s.max_nonces) × (s'.expiration_secs ≡ s.expiration_secs)
unfolding check_nonce cleanup_expired len
check_nonce-IsStore s nonce timestamp now later v =
    let kept = retain (stale s later) s.nonces in
    ground (
      arith,
      retain-IsMap (stale s later) s.nonces v.distinct,
      length-retain (stale s later) s.nonces,
      contains_key-retain (stale s later) nonce s.nonces,
      insert-IsMap nonce timestamp s.nonces v.distinct,
      insert-IsMap nonce timestamp kept,
      length-insert_new nonce timestamp s.nonces,
      length-insert_new nonce timestamp kept,
    )
