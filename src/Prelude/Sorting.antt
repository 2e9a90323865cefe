-- ===== src/Prelude/Sorting.antt =====
-- Python's `list.sort`, which is stable: insertion sort by a Boolean order, equal keys kept in order.
use mathlib.Core.Bool.{Bool, true, false}
use mathlib.Core.List.{List, [], ◌∷◌, Perm}
use mathlib.Core.List.Perm
use orch_kv_cache.Prelude.Tests.{if◌then◌else◌}
use orch_kv_cache.Prelude.Lists.{All}

module _ {ℓ} {A : Type ℓ} (before : A → A → Bool) where
  abbrev pub insert : A → List A → List A
  insert x [] = x ∷ []
  insert x (y ∷ ys) = let rest = insert x ys in if before x y then x ∷ y ∷ ys else y ∷ rest

  abbrev pub sort : List A → List A
  sort [] = []
  sort (x ∷ xs) = insert x (sort xs)

  pub insert-perm : (x : A) (ys : List A) → Perm (insert x ys) (x ∷ ys)
  insert-perm x [] = Perm.refl (x ∷ [])
  insert-perm x (y ∷ ys) =
      elim (before x y) as (λ b. Perm (if b then x ∷ y ∷ ys else y ∷ insert x ys) (x ∷ y ∷ ys)) [
        | true ↦ Perm.refl (x ∷ y ∷ ys)
        | false ↦ Perm.trans (Perm.cons y (insert-perm x ys)) (Perm.swap x y ys)
      ]

  -- Sorting only permutes.
  pub sort-perm : (xs : List A) → Perm (sort xs) xs
  sort-perm [] = Perm.refl []
  sort-perm (x ∷ xs) = Perm.trans (insert-perm x (sort xs)) (Perm.cons x (sort-perm xs))

  pub All-insert {κ} : (P : A → Type κ) (x : A) (ys : List A) → P x → All P ys → All P (insert x ys)
  All-insert P x [] hx h = (hx, tt)
  All-insert P x (y ∷ ys) hx h =
      elim (before x y) as (λ b. All P (if b then x ∷ y ∷ ys else y ∷ insert x ys)) [
        | true ↦ (hx, h)
        | false ↦ (h.0, All-insert P x ys hx h.1)
      ]

  pub All-sort {κ} : (P : A → Type κ) (xs : List A) → All P xs → All P (sort xs)
  All-sort P [] h = tt
  All-sort P (x ∷ xs) h = All-insert P x (sort xs) h.0 (All-sort P xs h.1)
