-- ===== src/Security/Replay.antt =====
-- `src/security/replay.rs`: the nonce store. The clock is a parameter: a call reads it once for the
-- expiration test, and once more if it cleans up.
pub mod Bounds
pub mod Once
use dcp.Base.{
  ℕ, ◌+◌, ◌-◌, ◌%◌, ◌^◌, Bool, not, List, [], ◌∷◌, ltb, leb, ◌==◌, if◌then◌else◌, length, Result,
  ok, err,
}
use dcp.Base.Map.{Map, nat_eq, contains_key, insert}
use dcp.Error.{SecurityError, expired_timestamp, replay_attack, capacity_exceeded}

abbrev pub default_expiration_secs : ℕ
default_expiration_secs = 300

abbrev pub default_max_nonces : ℕ
default_max_nonces = 10000

-- `NonceStore`: the timestamps of the nonces seen.
pub record NonceStore : Type 0 where
  pub nonces : Map ℕ ℕ
  pub max_nonces : ℕ
  pub expiration_secs : ℕ

-- `NonceStore::with_config`
unfoldable pub with_config : ℕ → ℕ → NonceStore
with_config max_nonces expiration_secs = record {
  nonces = [];
  max_nonces = max_nonces;
  expiration_secs = expiration_secs;
}

-- `NonceStore::new`
unfoldable pub new : NonceStore
unfolding with_config
new = with_config default_max_nonces default_expiration_secs

-- `now + 60` is a u64 sum.
unfoldable pub is_expired : NonceStore → ℕ → ℕ → Bool
is_expired s timestamp now =
    if ltb now timestamp
    then ltb ((now + 60) % 2 ^ 64) timestamp
    else ltb s.expiration_secs (now - timestamp)

-- `HashMap::retain`, by a test on the value.
unfoldable pub retain : (ℕ → Bool) → Map ℕ ℕ → Map ℕ ℕ
retain keep [] = []
retain keep (p ∷ m) = let rest = retain keep m in if keep p.1 then p ∷ rest else rest

-- `-` on ℕ is `saturating_sub`.
unfoldable pub cleanup_expired : NonceStore → ℕ → NonceStore
unfolding retain
cleanup_expired s now = record s {
  nonces = retain (λ ts. leb (now - ts) s.expiration_secs) s.nonces;
}

unfoldable pub len : NonceStore → ℕ
len s = length s.nonces

-- The end of `check_nonce`: the nonce is recorded.
unfoldable pub record_nonce : NonceStore → ℕ → ℕ → Result (Unit {0}) SecurityError × NonceStore
record_nonce s nonce timestamp = (ok tt, record s { nonces = insert nonce timestamp s.nonces })

-- `check_nonce`, at the clock `now`, with the clock at `later` if it cleans up.
unfoldable pub check_nonce :
    NonceStore → ℕ → ℕ → ℕ → ℕ → Result (Unit {0}) SecurityError × NonceStore
unfolding record_nonce
check_nonce s nonce timestamp now later =
    let cleaned = cleanup_expired s later in
    if is_expired s timestamp now
    then (err expired_timestamp, s)
    else if contains_key nonce s.nonces
    then (err replay_attack, s)
    else if leb s.max_nonces (len s)
    then (if leb cleaned.max_nonces (len cleaned)
        then (err capacity_exceeded, cleaned)
        else record_nonce cleaned nonce timestamp)
    else record_nonce s nonce timestamp

unfoldable pub clear : NonceStore → NonceStore
clear s = record s { nonces = [] }
