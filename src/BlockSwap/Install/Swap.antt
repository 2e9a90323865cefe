-- ===== src/BlockSwap/Install/Swap.antt =====
-- What is installed, and which group the patched scheduler takes from its queue.
use orch_kv_cache.Prelude.{
  ℕ, zero, suc, ◌<◌, ◌==◌, ◌≡◌, ◌≢◌, refl, ◌∙◌, ◌⊎◌, inl, inr, Option, some, List, [], ◌∷◌, map,
  arith, length, get_elem?, get_elem?_of_lt, ok, err, type_error, value_error, Bool-cases,
}
use mathlib.Core.List.{Perm}
use mathlib.Core.List.Perm
use orch_kv_cache.Prelude.Float.{Float, IsOrdered}
use orch_kv_cache.BlockSwap.{SeqGroup, BlockTables}
use orch_kv_cache.BlockSwap.Scorers.{
  Scorer, request_scorer, fast_scorer, hybrid_scorer, progress_scorer, select_victim, create_scorer,
  new_request_scorer, new_fast_scorer, new_progress_scorer,
}
use orch_kv_cache.BlockSwap.Scorers.Coldest.{IsColdest}
use orch_kv_cache.BlockSwap.Scorers.Victims.{scores_of, length-map, select_victim-IsColdest}
use orch_kv_cache.BlockSwap.Install.{remove_at, take_at, pop_victim}

module _ {ℓ} {A : Type ℓ} where
  get_elem?-lt : (xs : List A) (i : ℕ) {x : A} → get_elem? xs i ≡ some x → i < length xs
  get_elem?-lt [] i e = cc
  get_elem?-lt (y ∷ xs) zero e = omega arith
  get_elem?-lt (y ∷ xs) (suc i) e = omega (arith, get_elem?-lt xs i e)

  remove_at-perm :
      (xs : List A) (i : ℕ) {x : A} → get_elem? xs i ≡ some x → Perm (x ∷ remove_at i xs) xs
  remove_at-perm [] i e = cc
  remove_at-perm (y ∷ xs) zero {x = x} e =
      let same : y ≡ x = ground arith in rw same (Perm.refl (x ∷ xs))
  remove_at-perm (y ∷ xs) (suc i) {x = x} e =
      Perm.trans (Perm.swap y x (remove_at i xs)) (Perm.cons y (remove_at-perm xs i e))

  -- The element at an index of the list.
  taken :
      (xs : List A) (i : ℕ)
      → i < length xs
      → (x : A) × (rest : List A) × (take_at (some i) xs ≡ ok (x, rest)) × Perm (x ∷ rest) xs
  taken xs i h =
      let (x, found) = get_elem?_of_lt xs i h in
      (x, remove_at i xs, rw found refl, remove_at-perm xs i found)

module _ {ℓ} {F : Type ℓ} ⦃float : Float F⦄ where
  -- `create_scorer` gives a scorer for the versions 1, 2 and 4, raises a `TypeError` for version 3, and
  -- a `ValueError` for any other.
  pub create_scorer_cases :
      (version : ℕ) (tm : Option ℕ) (ema_lambda : F)
      → (((version ≡ 1) ⊎ (version ≡ 2) ⊎ (version ≡ 4))
          × (scorer : Scorer F) × (create_scorer version tm ema_lambda ≡ ok scorer))
        ⊎ ((version ≡ 3) × (create_scorer version tm ema_lambda ≡ err type_error))
        ⊎ ((version ≢ 1)
            × (version ≢ 2)
            × (version ≢ 3)
            × (version ≢ 4)
            × (create_scorer version tm ema_lambda ≡ err value_error))
  unfolding create_scorer
  create_scorer_cases version tm ema_lambda = elim (Bool-cases (version == 1)) [
    | inl e ↦ inl (inl (ground arith), new_request_scorer tm ema_lambda, rw e refl)
    | inr one ↦ elim (Bool-cases (version == 2)) [
      | inl e ↦ inl (inr (inl (ground arith)), new_fast_scorer, rw (one, e) refl)
      | inr two ↦ elim (Bool-cases (version == 3)) [
        | inl e ↦ inr (inl (ground arith, rw (one, two, e) refl))
        | inr three ↦ elim (Bool-cases (version == 4)) [
          | inl e ↦
              inl (inr (inr (ground arith)), new_progress_scorer, rw (one, two, three, e) refl)
          | inr four ↦ inr (
              inr (
                ground arith,
                ground arith,
                ground arith,
                ground arith,
                rw (one, two, three, four) refl,
              ))
        ]
      ]
    ]
  ]

  length-scores_of :
      (scorer : Scorer F) (tables : BlockTables) (groups : List SeqGroup)
      → length (scores_of scorer tables groups) ≡ length groups
  length-scores_of (request_scorer r) tables groups = length-map _ groups
  length-scores_of (fast_scorer r) tables groups = length-map _ groups
  length-scores_of (hybrid_scorer r) tables groups =
      length-map _ (map _ groups) ∙ length-map _ groups
  length-scores_of (progress_scorer r) tables groups = length-map _ groups

module _ {ℓ} {F : Type ℓ} ⦃float : Float F⦄ (o : IsOrdered F) where
  victim_within :
      (ss : List (Option F)) (idx : Option ℕ) (n : ℕ)
      → length ss ≡ suc n
      → IsColdest ss idx
      → (i : ℕ) × (idx ≡ some i) × (i < suc n)
  victim_within ss idx n size (inl (i, s, e, found, low, least)) =
      (i, e, omega (arith, get_elem?-lt ss i found))
  victim_within ss idx n size (inr (e, least)) = (n, rw size at e, omega arith)

  -- Whatever the scorer, the patched scheduler takes one group of a queue that is not empty, and
  -- keeps the others: the group and the rest are the queue, but for their order.
  pub pop_victim-perm :
      (scorer : Scorer F) (tables : BlockTables) (group : SeqGroup) (groups : List SeqGroup)
      → (next : Scorer F) × (victim : SeqGroup) × (rest : List SeqGroup) × (pop_victim
            (some scorer)
            tables
            (group ∷ groups)
          ≡ ok (some next, (victim, rest)))
        × Perm (victim ∷ rest) (group ∷ groups)
  unfolding pop_victim
  pop_victim-perm scorer tables group groups =
      let queue = group ∷ groups in
      let (i, chosen, within) =
        victim_within (scores_of scorer tables queue) (select_victim scorer tables queue).1
          (length groups) (length-scores_of scorer tables queue)
          (select_victim-IsColdest o scorer tables group groups) in
      let (victim, rest, done, perm) = taken queue i within in
      ((select_victim scorer tables queue).0, victim, rest, rw chosen (rw done refl), perm)
