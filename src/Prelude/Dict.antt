-- ===== src/Prelude/Dict.antt =====
-- Python's `dict`: an association list in the order of insertion, over keys with a Boolean equality.
use Prim.Native.Nat.{ℕ}
use mathlib.Core.Path.{◌≡◌, refl, sym, ◌∙◌}
use mathlib.Core.Logic.{◌≢◌, ◌↔◌, ◌⊎◌, inl, inr}
use mathlib.Core.Bool.{Bool, true, false, ◌&&◌}
use mathlib.Core.List.{List, [], ◌∷◌}
use mathlib.Core.Option.{Option, none, some}
use native.Mathlib.Omega.{arith}
use orch_kv_cache.Prelude.Tests.{
  if◌then◌else◌, is_some, Bool-cases, ◌==◌ as same_nat, ==_iff as same_nat_iff,
}

-- Keys that are compared: `same` is Python's `==` on them.
pub record Key {ℓ} (K : Type ℓ) : Type ℓ where
  pub same : K → K → Bool
  pub same_iff : (a b : K) → (same a b ≡ true) ↔ (a ≡ b)

instance abbrev pub nat_key : Key ℕ
nat_key = record { same = same_nat; same_iff = same_nat_iff }

module _ {ℓ} {K : Type ℓ} ⦃key : Key K⦄ where
  pub same_self : (k : K) → key.same k k ≡ true
  same_self k = (key.same_iff k k).1 refl

  module _ {κ} {V : Type κ} where
    -- `d.get(k)`.
    abbrev pub find : K → List (K × V) → Option V
    find k [] = none
    find k (entry ∷ d) = if key.same entry.0 k then some entry.1 else find k d

    -- `d[k] = v`: an entry that is there keeps its place.
    abbrev pub put : K → V → List (K × V) → List (K × V)
    put k v [] = (k, v) ∷ []
    put k v (entry ∷ d) =
        let rest = put k v d in if key.same entry.0 k then (k, v) ∷ d else entry ∷ rest

    -- `d.pop(k, None)`, without the value.
    abbrev pub without : K → List (K × V) → List (K × V)
    without k [] = []
    without k (entry ∷ d) =
        let rest = without k d in if key.same entry.0 k then rest else entry ∷ rest

    -- `k in d`.
    abbrev pub has_key : K → List (K × V) → Bool
    has_key k d = is_some (find k d)

    pub find-put : (k : K) (v : V) (d : List (K × V)) → find k (put k v d) ≡ some v
    find-put k v [] = ground (arith, same_self k)
    find-put k v (entry ∷ d) = ground (arith, same_self k, find-put k v d)

    pub find-put_ne : (k j : K) (v : V) (d : List (K × V)) → k ≢ j → find j (put k v d) ≡ find j d
    find-put_ne k j v [] h = ground (arith, key.same_iff k j)
    find-put_ne k j v (entry ∷ d) h = ground (
      arith,
      key.same_iff k j,
      key.same_iff entry.0 k,
      key.same_iff entry.0 j,
      find-put_ne k j v d h,
    )

    -- What is found after a write is what was written, or was there before.
    pub find-put_cases :
        (k j : K) (v a : V) (d : List (K × V))
        → find j (put k v d) ≡ some a
        → ((k ≡ j) × (a ≡ v)) ⊎ ((k ≢ j) × (find j d ≡ some a))
    find-put_cases k j v a d h = elim (Bool-cases (key.same k j)) [
      | inl e ↦
          let same_key : k ≡ j = (key.same_iff k j).0 e in
          let found : find j (put k v d) ≡ some v = rw (← same_key) (find-put k v d) in
          inl (same_key, cc)
      | inr e ↦
          let other : k ≢ j = λ q. absurd (ground (arith, (key.same_iff k j).1 q)) in
          inr (other, sym (find-put_ne k j v d other) ∙ h)
    ]

    pub find-without : (k : K) (d : List (K × V)) → find k (without k d) ≡ none
    find-without k [] = refl
    find-without k (entry ∷ d) = ground (arith, find-without k d)

    pub has_key-put :
        (k j : K) (v : V) (d : List (K × V))
        → has_key j (put k v d) ≡ (if key.same k j then true else has_key j d)
    has_key-put k j v [] = ground arith
    has_key-put k j v (entry ∷ d) = ground (
      arith,
      has_key-put k j v d,
      key.same_iff k j,
      key.same_iff entry.0 k,
      key.same_iff entry.0 j,
    )

    pub has_key-without :
        (k j : K) (d : List (K × V))
        → has_key j (without k d) ≡ (if key.same k j then false else has_key j d)
    has_key-without k j [] = ground arith
    has_key-without k j (entry ∷ d) = ground (
      arith,
      has_key-without k j d,
      key.same_iff k j,
      key.same_iff entry.0 k,
      key.same_iff entry.0 j,
    )

    pub find_of_without :
        (k j : K) (v : V) (d : List (K × V)) → find j (without k d) ≡ some v → find j d ≡ some v
    find_of_without k j v [] h = h
    find_of_without k j v (entry ∷ d) h = ground (
      arith,
      find_of_without k j v d,
      find-without k d,
      key.same_iff k j,
      key.same_iff entry.0 k,
      key.same_iff entry.0 j,
    )

-- Tuples of two keys.
pub pair_same_iff {ℓ κ} :
    {A : Type ℓ} {B : Type κ} ⦃a : Key A⦄ ⦃b : Key B⦄ (x y : A × B)
    → ((a.same x.0 y.0 && b.same x.1 y.1) ≡ true) ↔ (x ≡ y)
pair_same_iff ⦃a⦄ ⦃b⦄ x y = ground (arith, a.same_iff x.0 y.0, b.same_iff x.1 y.1)

instance abbrev pub pair_key {ℓ κ} : {A : Type ℓ} {B : Type κ} ⦃a : Key A⦄ ⦃b : Key B⦄ → Key (A × B)
pair_key ⦃a⦄ ⦃b⦄ = record {
  same = λ x y. a.same x.0 y.0 && b.same x.1 y.1;
  same_iff = pair_same_iff;
}
