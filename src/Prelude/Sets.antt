-- ===== src/Prelude/Sets.antt =====
-- Python's `set` of numbers, as a list without an order that counts.
use Prim.Native.Nat.{ℕ, ◌+◌}
use mathlib.Core.Path.{◌≡◌, refl}
use mathlib.Core.Bool.{Bool, true, false}
use mathlib.Core.List.{List, [], ◌∷◌, ◌++◌}
use native.Mathlib.Omega.{arith}
use orch_kv_cache.Prelude.Tests.{if◌then◌else◌, ◌==◌}
use orch_kv_cache.Prelude.Lists.{length}

-- `a in s`.
abbrev pub contains : ℕ → List ℕ → Bool
contains a [] = false
contains a (x ∷ xs) = if x == a then true else contains a xs

-- `s.discard(a)`.
abbrev pub discard : ℕ → List ℕ → List ℕ
discard a [] = []
discard a (x ∷ xs) = let rest = discard a xs in if x == a then xs else x ∷ rest

-- `s.add(a)`.
abbrev pub add : ℕ → List ℕ → List ℕ
add a xs = if contains a xs then xs else xs ++ a ∷ []

-- No number stands twice in the list.
abbrev pub IsDistinct : List ℕ → Type 0
IsDistinct [] = Unit
IsDistinct (x ∷ xs) = (contains x xs ≡ false) × IsDistinct xs

pub contains-append :
    (a : ℕ) (xs ys : List ℕ)
    → contains a (xs ++ ys) ≡ (if contains a xs then true else contains a ys)
contains-append a [] ys = refl
contains-append a (x ∷ xs) ys = ground (arith, contains-append a xs ys)

pub length-discard :
    (a : ℕ) (xs : List ℕ) → contains a xs ≡ true → length (discard a xs) + 1 ≡ length xs
length-discard a [] h = cc
length-discard a (x ∷ xs) h = ground (arith, length-discard a xs)

pub discard_absent : (a : ℕ) (xs : List ℕ) → contains a xs ≡ false → discard a xs ≡ xs
discard_absent a [] h = refl
discard_absent a (x ∷ xs) h = ground (arith, discard_absent a xs)

-- A number that is kept is another one, or stands there again.
pub contains-discard :
    (a b : ℕ) (xs : List ℕ)
    → IsDistinct xs
    → contains b (discard a xs) ≡ (if a == b then false else contains b xs)
contains-discard a b [] d = ground arith
contains-discard a b (x ∷ xs) d = ground (arith, contains-discard a b xs d.1)

pub discard-IsDistinct : (a : ℕ) (xs : List ℕ) → IsDistinct xs → IsDistinct (discard a xs)
discard-IsDistinct a [] d = tt
discard-IsDistinct a (x ∷ xs) d =
    ground (arith, discard-IsDistinct a xs d.1, contains-discard a x xs d.1)

pub append-IsDistinct :
    (a : ℕ) (xs : List ℕ) → contains a xs ≡ false → IsDistinct xs → IsDistinct (xs ++ a ∷ [])
append-IsDistinct a [] h d = (refl, tt)
append-IsDistinct a (x ∷ xs) h d =
    ground (arith, append-IsDistinct a xs, contains-append x xs (a ∷ []))
