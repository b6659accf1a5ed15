-- ===== src/Capability/Manifest/Members.antt =====
-- A bit set as a set of ids: setting, clearing and intersecting, id by id.
use dcp.Base.{
  ℕ, zero, suc, ◌+◌, ◌*◌, ◌/◌, ◌%◌, ◌^◌, ◌<◌, ◌≡◌, ◌≢◌, refl, ap, ◌∙◌, sym, Bool, true, false, List,
  [], ◌∷◌, ltb, ◌==◌, ==_iff, if◌then◌else◌, length, get_or, set, get_or-set_self, get_or-set_ne,
  length-set, bit_and, bit_or, arith, ◌&&◌, inl, inr, Bool-cases, replicate, length-replicate,
}
use dcp.Base.Bits.{bit-zero, bit_not, bit_or-lt, bit_and-lt}
use dcp.Capability.Manifest.BitSet.{
  set_member, clear_member, has_member, and_from, and_words, IsWords, test, test-set, test-clear,
  test-and, has_member_lem, has_member_beyond, pow-lt,
}

get_or-set_lt :
    (words : List ℕ) (i j v : ℕ)
    → ((k : ℕ) → get_or words k 0 < 2 ^ 64)
    → v < 2 ^ 64
    → get_or (set words i v) j 0 < 2 ^ 64
get_or-set_lt [] i j v h hv = omega arith
get_or-set_lt (x ∷ xs) zero zero v h hv = hv
get_or-set_lt (x ∷ xs) zero (suc j) v h hv = h (suc j)
get_or-set_lt (x ∷ xs) (suc i) zero v h hv = h zero
get_or-set_lt (x ∷ xs) (suc i) (suc j) v h hv = get_or-set_lt xs i j v (λ k. h (suc k)) hv

-- One word is rewritten, and the test of one id moves with it.
module _ (n limit : ℕ) (whole : limit ≡ n * 64) (words : List ℕ) (ok : IsWords n words) where
  has-set_word :
      (id j v : ℕ) (expected : Bool)
      → id < limit
      → j < limit
      → (j / 64 ≡ id / 64 → test (j % 64) v ≡ expected)
      → (j / 64 ≢ id / 64 → has_member limit words j ≡ expected)
      → has_member limit (set words (id / 64) v) j ≡ expected
  has-set_word id j v expected hi hj same other =
      has_member_lem limit (set words (id / 64) v) j hj ∙ elim (Bool-cases (j / 64 == id / 64)) [
        | inl e ↦
            let e' : j / 64 ≡ id / 64 = (==_iff _ _).0 e in
            rw (e', get_or-set_self words (id / 64) v 0 (omega (arith, ok.sized))) (same e')
        | inr d ↦
            let d' : j / 64 ≢ id / 64 = ground arith in
            ap (test (j % 64)) (get_or-set_ne words (id / 64) (j / 64) v 0 (λ p. d' (sym p)))
            ∙ sym (has_member_lem limit words j hj)
            ∙ other d'
      ]

  -- Setting an id below the maximum adds it, and changes no other; any other id changes nothing.
  pub has_member-set_member :
      (id j : ℕ)
      → has_member limit (set_member limit words id) j
        ≡ (if (j == id) && ltb id limit then true else has_member limit words j)
  unfolding set_member
  has_member-set_member id j = elim (Bool-cases (ltb id limit)) [
    | inr out ↦ ground (arith, out)
    | inl below ↦ elim (Bool-cases (ltb j limit)) [
      | inr beyond ↦ rw below (
          ground (
            arith,
            has_member_beyond limit words j,
            has_member_beyond limit
                (set words (id / 64) (bit_or (get_or words (id / 64) 0) (2 ^ (id % 64)))) j,
          ))
      | inl inside ↦ rw below (
          has-set_word id j (bit_or (get_or words (id / 64) 0) (2 ^ (id % 64)))
            (if (j == id) && true then true else has_member limit words j) (ground arith)
            (ground arith)
            (λ e. ground (
              arith,
              test-set (get_or words (id / 64) 0) (id % 64) (j % 64),
              has_member_lem limit words j,
              ap (λ (t : ℕ). get_or words t 0) e,
            ))
            (λ d. ground arith))
    ]
  ]

  -- Clearing an id removes it, and changes no other.
  pub has_member-clear_member :
      (id j : ℕ)
      → has_member limit (clear_member limit words id) j
        ≡ (if j == id then false else has_member limit words j)
  unfolding clear_member
  has_member-clear_member id j = elim (Bool-cases (ltb id limit)) [
    | inr out ↦ ground (arith, out, has_member_beyond limit words j)
    | inl below ↦ elim (Bool-cases (ltb j limit)) [
      | inr beyond ↦ rw below (
          ground (
            arith,
            has_member_beyond limit words j,
            has_member_beyond limit
                (set words (id / 64)
                  (bit_and (get_or words (id / 64) 0) (bit_not 64 (2 ^ (id % 64)))))
                j,
          ))
      | inl inside ↦ rw below (
          has-set_word id j (bit_and (get_or words (id / 64) 0) (bit_not 64 (2 ^ (id % 64))))
            (if j == id then false else has_member limit words j) (ground arith) (ground arith)
            (λ e. ground (
              arith,
              test-clear (get_or words (id / 64) 0) (id % 64) (j % 64),
              has_member_lem limit words j,
              ap (λ (t : ℕ). get_or words t 0) e,
            ))
            (λ d. ground arith))
    ]
  ]

  pub set_member-IsWords : (id : ℕ) → IsWords n (set_member limit words id)
  unfolding set_member
  set_member-IsWords id = elim (Bool-cases (ltb id limit)) [
    | inr out ↦ rw out ok
    | inl below ↦ rw below (record {
      sized = length-set words _ _ ∙ ok.sized;
      fits = λ i.
          get_or-set_lt words _ i _ ok.fits
            (bit_or-lt 64 _ _ (ok.fits _) (pow-lt (id % 64) (omega arith)));
    })
  ]

  pub clear_member-IsWords : (id : ℕ) → IsWords n (clear_member limit words id)
  unfolding clear_member
  clear_member-IsWords id = elim (Bool-cases (ltb id limit)) [
    | inr out ↦ rw out ok
    | inl below ↦ rw below (record {
      sized = length-set words _ _ ∙ ok.sized;
      fits = λ i. get_or-set_lt words _ i _ ok.fits (bit_and-lt 64 _ _ (ok.fits _));
    })
  ]

get_or-and_from :
    (left i k : ℕ) (a b : List ℕ)
    → get_or (and_from left i a b) k 0
      ≡ (if ltb k left then bit_and (get_or a (i + k) 0) (get_or b (i + k) 0) else 0)
unfolding and_from
get_or-and_from zero i k a b = ground arith
get_or-and_from (suc left) i zero a b = let e : i + 0 ≡ i = omega arith in rw e (ground arith)
get_or-and_from (suc left) i (suc k) a b =
    let e : i + suc k ≡ i + 1 + k = omega arith in
    rw (e, get_or-and_from left (i + 1) k a b) (ground arith)

length-and_from : (left i : ℕ) (a b : List ℕ) → length (and_from left i a b) ≡ left
unfolding and_from
length-and_from zero i a b = refl
length-and_from (suc left) i a b = ap suc (length-and_from left (i + 1) a b)

get_or-and_words :
    (n k : ℕ) (a b : List ℕ)
    → k < n
    → get_or (and_words n a b) k 0 ≡ bit_and (get_or a k 0) (get_or b k 0)
unfolding and_words
get_or-and_words n k a b h =
    let e : 0 + k ≡ k = omega arith in rw (get_or-and_from n 0 k a b, e) (ground arith)

pub and_words-IsWords :
    (n : ℕ) (a b : List ℕ) → IsWords n a → IsWords n b → IsWords n (and_words n a b)
and_words-IsWords n a b oka okb = record {
  sized = unfold and_words in length-and_from n 0 a b;
  fits = λ i. elim (Bool-cases (ltb i n)) [
    | inl below ↦ rw (get_or-and_words n i a b (ground arith)) (bit_and-lt 64 _ _ (oka.fits i))
    | inr above ↦ unfold and_words in rw (get_or-and_from n 0 i a b, above) (omega arith)
  ];
}

-- The intersection has the ids that both sets have.
pub has_member-and_words :
    (n limit : ℕ) (a b : List ℕ) (j : ℕ)
    → limit ≡ n * 64
    → has_member limit (and_words n a b) j ≡ has_member limit a j && has_member limit b j
has_member-and_words n limit a b j whole = elim (Bool-cases (ltb j limit)) [
  | inr out ↦
      rw
        (
          has_member_beyond limit (and_words n a b) j (ground arith),
          has_member_beyond limit a j (ground arith),
        )
        refl
  | inl below ↦
      rw
        (
          has_member_lem limit (and_words n a b) j (ground arith),
          has_member_lem limit a j (ground arith),
          has_member_lem limit b j (ground arith),
          get_or-and_words n (j / 64) a b (ground arith),
        )
        (test-and _ _ (j % 64))
]

get_or-zeros : (n k : ℕ) → ◌≡◌ {A = ℕ} (get_or (replicate n 0) k 0) 0
get_or-zeros zero k = refl
get_or-zeros (suc n) zero = refl
get_or-zeros (suc n) (suc k) = get_or-zeros n k

pub test-zero : (b : ℕ) → test b 0 ≡ false
test-zero b = ground (arith, bit-zero b)

-- The array of zeros is the empty set.
pub has_member-zeros : (limit n j : ℕ) → has_member limit (replicate n 0) j ≡ false
has_member-zeros limit n j = elim (Bool-cases (ltb j limit)) [
  | inr out ↦ has_member_beyond limit (replicate n 0) j (ground arith)
  | inl below ↦
      rw (has_member_lem limit (replicate n 0) j (ground arith), get_or-zeros n (j / 64))
        (test-zero (j % 64))
]

pub replicate-IsWords : (n : ℕ) → IsWords n (replicate n 0)
replicate-IsWords n = record {
  sized = length-replicate n 0;
  fits = λ i. rw (get_or-zeros n i) (omega arith);
}
