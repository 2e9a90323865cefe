-- ===== src/CacheSim/Bounds/Overflow.antt =====
-- `BeladyOPT` of benchmarks/exp_competitive_ratio.py has every requested block on the GPU, whatever the capacity.
use orch_kv_cache.Prelude.{
  ℕ, ◌≤◌, ◌==◌, ◌≡◌, refl, ◌∙◌, ◌⊎◌, inl, inr, arith, true, Option, none, some, List, [], ◌∷◌, ok,
  if◌then◌else◌, length, Bool-cases,
}
use orch_kv_cache.Prelude.Float.{Float}
use orch_kv_cache.Prelude.Sets.{
  contains, discard, IsDistinct, contains-append, length-discard, contains-discard,
  discard-IsDistinct,
}
use orch_kv_cache.CacheSim.{CacheSimulator, evict, promote, is_full, opt_victim}
use orch_kv_cache.CacheSim.Victims.{MayPick}
use orch_kv_cache.CacheSim.Belady.{opt_victim-IsFarthest, opt_victim-MayPick}
use orch_kv_cache.CacheSim.Strategies.{fetch_block, fetch_all, blocks_of, opt, cache_step}
use orch_kv_cache.CacheSim.Bounds.{IsSound, fetch_block-IsSound, fetch_all-IsSound}
use orch_kv_cache.CacheSim.Bounds.Runs.{IsOrder, order-MayPick}

-- Distinct numbers that all stand in a list are not more than it has.
length-le_of_contains :
    (xs ys : List ℕ)
    → IsDistinct xs
    → IsDistinct ys
    → ((b : ℕ) → contains b xs ≡ true → contains b ys ≡ true)
    → length xs ≤ length ys
length-le_of_contains [] ys d e h = omega arith
length-le_of_contains (x ∷ xs) ys d e h =
    let here : contains x ys ≡ true = h x (ground arith) in
    let rest : length xs ≤ length (discard x ys) =
      length-le_of_contains xs (discard x ys) d.1 (discard-IsDistinct x ys e)
        (λ b k. ground (arith, contains-discard x b ys e, h b)) in
    omega (arith, rest, length-discard x ys here)

promote-contains :
    (c : CacheSimulator) (bid b : ℕ)
    → contains b (promote c bid).gpu_set ≡ (if bid == b then true else contains b c.gpu_set)
promote-contains c bid b = elim (Bool-cases (contains bid c.gpu_set)) [
  | inl old ↦ rw old (ground arith)
  | inr new ↦ rw new (contains-append b c.gpu_set (bid ∷ []) ∙ ground arith)
]

module _ (order : ℕ → List ℕ → List ℕ) (ordered : IsOrder order) (trace : List (List ℕ)) where
  module _ (step_idx : ℕ) (requested : List ℕ) where
    abbrev select : CacheSimulator → Option ℕ
    select c = opt_victim trace step_idx requested (blocks_of order c)

    select-MayPick : (c : CacheSimulator) → MayPick (select c) c.gpu_set
    select-MayPick c =
        order-MayPick order ordered (select c) c.promotions c.gpu_set
          (opt_victim-MayPick trace step_idx requested (blocks_of order c))

    -- A requested block is not evicted.
    evict-keeps :
        (c : CacheSimulator) (b : ℕ)
        → IsSound c
        → contains b requested ≡ true
        → contains b c.gpu_set ≡ true
        → contains b (evict c (select c)).gpu_set ≡ true
    evict-keeps c b s asked on = by_victim (select c) refl
      where
        by_victim : (o : Option ℕ) → select c ≡ o → contains b (evict c o).gpu_set ≡ true
        by_victim none e = on
        by_victim (some v) e =
            let (_, free, _) =
              opt_victim-IsFarthest trace step_idx requested (blocks_of order c) v e in
            elim (Bool-cases (v == b)) [
              | inl same ↦ let eq : v ≡ b = ground arith in absurd (ground arith)
              | inr other ↦ ground (arith, contains-discard v b c.gpu_set s.distinct)
            ]

    fetch_block-keeps :
        (c : CacheSimulator) (bid b : ℕ)
        → IsSound c
        → contains b requested ≡ true
        → (contains b c.gpu_set ≡ true) ⊎ (bid ≡ b)
        → contains b (fetch_block select c bid).gpu_set ≡ true
    unfolding fetch_block
    fetch_block-keeps c bid b s asked held = elim (Bool-cases (contains bid c.gpu_set)) [
      | inl hit ↦ rw hit (elim held [ inl on ↦ on | inr e ↦ rw (← e) hit ])
      | inr miss ↦ elim (Bool-cases (is_full c)) [
        | inl full ↦
            rw (miss, full)
              (promote-contains (evict c (select c)) bid b ∙ elim held [
                | inl on ↦ rw (evict-keeps c b s asked on) (ground arith)
                | inr e ↦ ground arith
              ])
        | inr free ↦ rw (miss, free) (promote-contains c bid b ∙ ground arith)
      ]
    ]

    fetch_all-keeps :
        (c : CacheSimulator) (bids : List ℕ) (b : ℕ)
        → IsSound c
        → contains b requested ≡ true
        → (contains b c.gpu_set ≡ true) ⊎ (contains b bids ≡ true)
        → contains b (fetch_all select c bids).gpu_set ≡ true
    unfolding fetch_all
    fetch_all-keeps c [] b s asked (inl on) = on
    fetch_all-keeps c [] b s asked (inr there) = absurd (cc)
    fetch_all-keeps c (bid ∷ bids) b s asked held =
        let s' = fetch_block-IsSound select c bid (select-MayPick c) s in
        let keeps = fetch_all-keeps (fetch_block select c bid) bids b s' asked in
        elim held [
          | inl on ↦ keeps (inl (fetch_block-keeps c bid b s asked (inl on)))
          | inr there ↦ elim (Bool-cases (bid == b)) [
            | inl e ↦ keeps (inl (fetch_block-keeps c bid b s asked (inr (ground arith))))
            | inr e ↦ keeps (inr (ground arith))
          ]
        ]

  -- After a step of `BeladyOPT` every block that the step requests is on the GPU. So if it requests
  -- more different blocks than `capacity`, there are more than `capacity` blocks on the GPU.
  pub opt_step-Serves {ℓ} :
      {F : Type ℓ} ⦃float : Float F⦄ (c : CacheSimulator) (requested : List ℕ)
      (scores : List (ℕ × F)) (step_idx : ℕ)
      → IsSound c
      → IsDistinct requested
      → (d : CacheSimulator) × (cache_step order trace (opt c) requested scores step_idx
          ≡ ok (opt d))
        × ((b : ℕ) → contains b requested ≡ true → contains b d.gpu_set ≡ true)
        × (length requested ≤ length d.gpu_set)
  unfolding cache_step
  opt_step-Serves c requested scores step_idx s distinct =
      let d = fetch_all (select step_idx requested) c requested in
      let sound : IsSound d =
        fetch_all-IsSound (select step_idx requested) (select-MayPick step_idx requested) c
          requested s in
      let serves = λ (b : ℕ) (h : contains b requested ≡ true).
        fetch_all-keeps step_idx requested c requested b s h (inr h) in
      (d, refl, serves, length-le_of_contains requested d.gpu_set distinct sound.distinct serves)
