-- ===== src/Security/Replay/Once.antt =====
-- No signed request is accepted twice while the clock runs forward.
use dcp.Base.{
  ℕ, ◌+◌, ◌-◌, ◌≤◌, ◌<◌, ◌≡◌, ◌≢◌, ◌⊎◌, inl, inr, Bool, true, List, [], ◌∷◌, leb, ok, arith, some,
  Bool-cases,
}
use dcp.Base.Map.{Map, nat_eq, find, contains_key-of_find, find-insert}
use dcp.Security.Replay.{NonceStore, is_expired, retain, cleanup_expired, check_nonce}

-- A request, with the two clock readings of its call.
pub record Request : Type 0 where
  pub nonce : ℕ
  pub timestamp : ℕ
  pub now : ℕ
  pub later : ℕ

-- The requests that a store meets one after the other.
abbrev pub serve : NonceStore → List Request → NonceStore
serve s [] = s
serve s (r ∷ rs) = serve (check_nonce s r.nonce r.timestamp r.now r.later).1 rs

-- The clock runs forward from `c`.
abbrev pub Forward : ℕ → List Request → Type 0
Forward c [] = Unit {0}
Forward c (r ∷ rs) = (c ≤ r.now) × (r.now ≤ r.later) × Forward r.later rs

-- The clock at the end.
abbrev pub end_of : ℕ → List Request → ℕ
end_of c [] = c
end_of c (r ∷ rs) = end_of r.later rs

find-retain :
    (keep : ℕ → Bool) (k v : ℕ) (m : Map ℕ ℕ)
    → find k m ≡ some v
    → keep v ≡ true
    → find k (retain keep m) ≡ some v
unfolding find retain
find-retain keep k v [] h e = cc
find-retain keep k v (p ∷ m) h e = ground (arith, find-retain keep k v m)

-- The nonce is still tracked, or its timestamp has expired by the clock `c`.
abbrev pub Guarded : NonceStore → ℕ → ℕ → ℕ → Type 0
Guarded s n t c = (find n s.nonces ≡ some t) ⊎ (t + s.expiration_secs < c)

expiration-check_nonce :
    (s : NonceStore) (nonce timestamp now later : ℕ)
    → (check_nonce s nonce timestamp now later).1.expiration_secs ≡ s.expiration_secs
unfolding check_nonce cleanup_expired
expiration-check_nonce s nonce timestamp now later = ground arith

-- A tracked nonce stays tracked, unless its timestamp has expired when the store cleans up.
check_nonce_keeps :
    (s : NonceStore) (k u now later n t : ℕ)
    → leb (later - t) s.expiration_secs ≡ true
    → find n s.nonces ≡ some t
    → find n (check_nonce s k u now later).1.nonces ≡ some t
unfolding check_nonce cleanup_expired
check_nonce_keeps s k u now later n t fresh f =
    let keep : ℕ → Bool = λ ts. leb (later - ts) s.expiration_secs in
    ground (
      arith,
      find-retain keep n t s.nonces f fresh,
      contains_key-of_find n s.nonces t f,
      find-insert k n u s.nonces,
      find-insert k n u (retain keep s.nonces),
    )

check_nonce_nonces :
    (s : NonceStore) (k u now later n t : ℕ)
    → find n s.nonces ≡ some t
    → Guarded (check_nonce s k u now later).1 n t later
check_nonce_nonces s k u now later n t f = elim (Bool-cases (leb (later - t) s.expiration_secs)) [
  | inl fresh ↦ inl (check_nonce_keeps s k u now later n t fresh f)
  | inr old ↦ inr (ground (arith, expiration-check_nonce s k u now later))
]

pub step-Guarded :
    (s : NonceStore) (k u now later n t c : ℕ)
    → c ≤ now
    → now ≤ later
    → Guarded s n t c
    → Guarded (check_nonce s k u now later).1 n t later
step-Guarded s k u now later n t c lo ord (inl f) = check_nonce_nonces s k u now later n t f
step-Guarded s k u now later n t c lo ord (inr old) =
    inr (omega (arith, expiration-check_nonce s k u now later))

serve-Guarded :
    (s : NonceStore) (rs : List Request) (n t c : ℕ)
    → Forward c rs
    → Guarded s n t c
    → Guarded (serve s rs) n t (end_of c rs)
serve-Guarded s [] n t c h g = g
serve-Guarded s (r ∷ rs) n t c (lo, ord, h) g =
    serve-Guarded (check_nonce s r.nonce r.timestamp r.now r.later).1 rs n t r.later h
      (step-Guarded s r.nonce r.timestamp r.now r.later n t c lo ord g)

pub refuse-Guarded :
    (s : NonceStore) (n t now later c : ℕ)
    → c ≤ now
    → Guarded s n t c
    → (check_nonce s n t now later).0 ≢ ok tt
unfolding check_nonce is_expired
refuse-Guarded s n t now later c lo (inl f) = ground (arith, contains_key-of_find n s.nonces t f)
refuse-Guarded s n t now later c lo (inr old) = ground arith

pub accept-Guarded :
    (s : NonceStore) (n t now later c : ℕ)
    → (check_nonce s n t now later).0 ≡ ok tt
    → Guarded (check_nonce s n t now later).1 n t c
unfolding check_nonce
accept-Guarded s n t now later c h =
    inl (
      ground
        (arith, find-insert n n t s.nonces, find-insert n n t (cleanup_expired s later).nonces))

-- A pair of a nonce and a timestamp that was accepted once is not accepted again, whatever other
-- requests come in between, while the clock runs forward and the store is not cleared.
pub accepted_once :
    (s : NonceStore) (n t now later : ℕ) (rs : List Request) (now' later' : ℕ)
    → (check_nonce s n t now later).0 ≡ ok tt
    → Forward later rs
    → end_of later rs ≤ now'
    → (check_nonce (serve (check_nonce s n t now later).1 rs) n t now' later').0 ≢ ok tt
accepted_once s n t now later rs now' later' first forward lo =
    refuse-Guarded (serve (check_nonce s n t now later).1 rs) n t now' later' (end_of later rs) lo (
      serve-Guarded (check_nonce s n t now later).1 rs n t later forward
        (accept-Guarded s n t now later later first))
