-- ===== src/Base/Map.antt =====
-- `HashMap` as an association list. The keys of a map that the operations build are distinct.
use Prim.Native.Nat.{ℕ, ◌+◌}
use Prim.Native.String.{String}
use text.Mathlib.Text.{◌==◌ as str_eq}
use text.Mathlib.TextEquality.{eq_iff}
use mathlib.Core.Path.{◌≡◌, refl, subst}
use mathlib.Core.Logic.{◌↔◌, inl, inr}
use mathlib.Core.Bool.{Bool, true, false}
use mathlib.Core.Option.{Option, none, some}
use mathlib.Core.List.{List, [], ◌∷◌}
use native.Mathlib.Omega.{arith}
use dcp.Base.Tests.{◌==◌ as nat_beq, ==_iff, Bool-cases, if◌then◌else◌}
use dcp.Base.Lists.{length, All}

pub record Eq {ℓ} (A : Type ℓ) : Type ℓ where
  pub beq : A → A → Bool
  pub beq_iff : (a b : A) → (beq a b ≡ true) ↔ (a ≡ b)

instance abbrev pub nat_eq : Eq ℕ
nat_eq = record { beq = nat_beq; beq_iff = ==_iff }

instance abbrev pub string_eq : Eq String
string_eq = record { beq = str_eq; beq_iff = eq_iff }

abbrev pub Map {ℓ κ} : Type ℓ → Type κ → Type (ℓ ⊔ κ)
Map K V = List (K × V)

module _ {ℓ κ} {K : Type ℓ} {V : Type κ} ⦃e : Eq K⦄ where
  unfoldable pub find : K → Map K V → Option V
  find k [] = none
  find k (p ∷ m) = if e.beq p.0 k then some p.1 else find k m

  unfoldable pub contains_key : K → Map K V → Bool
  contains_key k [] = false
  contains_key k (p ∷ m) = if e.beq p.0 k then true else contains_key k m

  unfoldable pub insert : K → V → Map K V → Map K V
  insert k v [] = (k, v) ∷ []
  insert k v (p ∷ m) = if e.beq p.0 k then (k, v) ∷ m else p ∷ insert k v m

  unfoldable pub remove : K → Map K V → Map K V
  remove k [] = []
  remove k (p ∷ m) = let rest = remove k m in if e.beq p.0 k then rest else p ∷ rest

  pub find-insert :
      (k j : K) (v : V) (m : Map K V)
      → find j (insert k v m) ≡ (if e.beq k j then some v else find j m)
  unfolding find insert
  find-insert k j v [] = refl
  find-insert k j v (p ∷ m) =
      ground (arith, e.beq_iff k j, e.beq_iff p.0 k, e.beq_iff p.0 j, find-insert k j v m)

  pub find-remove :
      (k j : K) (m : Map K V) → find j (remove k m) ≡ (if e.beq k j then none else find j m)
  unfolding find remove
  find-remove k j [] = ground arith
  find-remove k j (p ∷ m) =
      ground (arith, e.beq_iff k j, e.beq_iff p.0 k, e.beq_iff p.0 j, find-remove k j m)

  pub find-eq-none : (k : K) (m : Map K V) → contains_key k m ≡ false → find k m ≡ none
  unfolding find contains_key
  find-eq-none k [] h = refl
  find-eq-none k (p ∷ m) h = ground (arith, find-eq-none k m)

  pub contains_key-of_find :
      (k : K) (m : Map K V) (v : V) → find k m ≡ some v → contains_key k m ≡ true
  unfolding find contains_key
  contains_key-of_find k [] v h = cc
  contains_key-of_find k (p ∷ m) v h = ground (arith, contains_key-of_find k m v)

  pub contains_key-insert :
      (k j : K) (v : V) (m : Map K V)
      → contains_key j (insert k v m) ≡ (if e.beq k j then true else contains_key j m)
  unfolding contains_key insert
  contains_key-insert k j v [] = refl
  contains_key-insert k j v (p ∷ m) =
      ground (arith, e.beq_iff k j, e.beq_iff p.0 k, e.beq_iff p.0 j, contains_key-insert k j v m)

  pub contains_key-remove :
      (k j : K) (m : Map K V)
      → contains_key j (remove k m) ≡ (if e.beq k j then false else contains_key j m)
  unfolding contains_key remove
  contains_key-remove k j [] = ground arith
  contains_key-remove k j (p ∷ m) =
      ground (arith, e.beq_iff k j, e.beq_iff p.0 k, e.beq_iff p.0 j, contains_key-remove k j m)

  pub length-insert_new :
      (k : K) (v : V) (m : Map K V)
      → contains_key k m ≡ false
      → length (insert k v m) ≡ length m + 1
  unfolding contains_key insert
  length-insert_new k v [] h = omega arith
  length-insert_new k v (p ∷ m) h = ground (arith, length-insert_new k v m)

  pub length-insert_old :
      (k : K) (v : V) (m : Map K V) → contains_key k m ≡ true → length (insert k v m) ≡ length m
  unfolding contains_key insert
  length-insert_old k v [] h = cc
  length-insert_old k v (p ∷ m) h = ground (arith, length-insert_old k v m)

  pub remove_none : (k : K) (m : Map K V) → contains_key k m ≡ false → remove k m ≡ m
  unfolding contains_key remove
  remove_none k [] h = refl
  remove_none k (p ∷ m) h = ground (arith, remove_none k m)

  -- No key stands twice.
  abbrev pub IsMap : Map K V → Type 0
  IsMap [] = Unit {0}
  IsMap (p ∷ m) = (contains_key p.0 m ≡ false) × IsMap m

  pub insert-IsMap : (k : K) (v : V) (m : Map K V) → IsMap m → IsMap (insert k v m)
  unfolding insert contains_key
  insert-IsMap k v [] h = (refl, tt)
  insert-IsMap k v (p ∷ m) h =
      ground
        (arith, e.beq_iff p.0 k, e.beq_iff k p.0, insert-IsMap k v m, contains_key-insert k p.0 v m)

  pub remove-IsMap : (k : K) (m : Map K V) → IsMap m → IsMap (remove k m)
  unfolding remove
  remove-IsMap k [] h = tt
  remove-IsMap k (p ∷ m) h = ground (arith, remove-IsMap k m, contains_key-remove k p.0 m)

  pub length-remove :
      (k : K) (m : Map K V) → IsMap m → contains_key k m ≡ true → length (remove k m) + 1 ≡ length m
  unfolding remove contains_key
  length-remove k [] h c = cc
  length-remove k (p ∷ m) h c = ground (arith, e.beq_iff p.0 k, length-remove k m, remove_none k m)

  module _ {μ} (P : K × V → Type μ) where
    pub All-insert : (k : K) (v : V) (m : Map K V) → All P m → P (k, v) → All P (insert k v m)
    unfolding insert
    All-insert k v [] h q = (q, tt)
    All-insert k v (p ∷ m) h q = split (e.beq p.0 k) (All-insert k v m h.1 q)
      where
        split :
            (b : Bool) → All P (insert k v m) → All P (if b then (k, v) ∷ m else p ∷ insert k v m)
        split true r = (q, h.1)
        split false r = (h.0, r)

    pub All-remove : (k : K) (m : Map K V) → All P m → All P (remove k m)
    unfolding remove
    All-remove k [] h = tt
    All-remove k (p ∷ m) h = split (e.beq p.0 k) (All-remove k m h.1)
      where
        split : (b : Bool) → All P (remove k m) → All P (if b then remove k m else p ∷ remove k m)
        split true r = r
        split false r = (h.0, r)

    pub All-find : (k : K) (m : Map K V) (v : V) → All P m → find k m ≡ some v → P (k, v)
    unfolding find
    All-find k [] v h f = cc
    All-find k (p ∷ m) v h f = elim (Bool-cases (e.beq p.0 k)) [
      | inl y ↦ let q : p ≡ (k, v) = ground (arith, e.beq_iff p.0 k) in subst P q h.0
      | inr n ↦ All-find k m v h.1 (ground arith)
    ]
