-- ===== src/Manager/Schedule/Limits.antt =====
-- How much a scheduling cycle moves.
use orch_kv_cache.Prelude.{
  ℕ, ◌≤◌, ◌<◌, ◌≡◌, ◌==◌, refl, ◌⊎◌, inl, inr, Bool, true, false, not, ◌&&◌, some, List, [], ◌∷◌,
  arith, Bool-cases, keep, length, length-take, ltb, if◌then◌else◌,
}
use orch_kv_cache.Prelude.Budget.{BudgetTest}
use orch_kv_cache.Prelude.Sorting.{sort}
use orch_kv_cache.Manager.{KvCacheManager, all_blocks, gpu_kv_bytes, has_handle}
use orch_kv_cache.Manager.Moves.{demote_block}
use orch_kv_cache.Manager.Schedule.{
  Report, evict_loop, has_room, evict_cold_blocks, cold_candidates, promote_warm_blocks,
  fewer_accesses, more_accesses, may_evict, may_promote, rebalance, run_cycle, schedule,
}

module _ {ℓ} {A : Type ℓ} where
  if_pair-le : (b : Bool) (r : A × ℕ) (a : A) (k : ℕ) → r.1 ≤ k → (if b then r else (a, 0)).1 ≤ k
  if_pair-le true r a k h = h
  if_pair-le false r a k h = omega arith

  if_pair_pos : (b : Bool) (r : A × ℕ) (a : A) → 0 < (if b then r else (a, 0)).1 → b ≡ true
  if_pair_pos true r a h = refl
  if_pair_pos false r a h = absurd (omega arith)

  if_pair_zero : (b : Bool) (r : A × ℕ) (a : A) → b ≡ false → (if b then r else (a, 0)).1 ≡ 0
  if_pair_zero true r a h = cc
  if_pair_zero false r a h = refl

-- The thresholds of eviction and promotion exclude one another.
exclusive :
    (tests : BudgetTest) (bytes budget : ℕ)
    → (ltb 0 budget && not (tests.at_most bytes budget 85)) ≡ true
    → (ltb 0 budget && tests.below bytes budget 60) ≡ false
exclusive tests bytes budget h =
    ground (arith, tests.at_most_of_below bytes budget 60 85 (omega arith))

zero_or : (a b : ℕ) → (0 < a → b ≡ 0) → (a ≡ 0) ⊎ (b ≡ 0)
zero_or a b h = elim (Bool-cases (a == 0)) [
  | inl none_out ↦ inl (ground arith)
  | inr some_out ↦ inr (h (ground arith))
]

module _ {ℓ} (tests : BudgetTest) {T : Type ℓ} where
  -- The eviction loop ends for one of two reasons: it has counted every candidate, or the bytes on the
  -- GPU are at most 70 % of a budget that is not zero.
  pub evict_loop_enough :
      (m : KvCacheManager T) (ids : List ℕ)
      → ((evict_loop tests m ids).1 ≡ length ids)
        ⊎ (((evict_loop tests m ids).1 < length ids)
            × (has_room tests (evict_loop tests m ids).0 ≡ true))
  unfolding evict_loop
  evict_loop_enough m [] = inl refl
  evict_loop_enough m (i ∷ ids) = elim (Bool-cases (has_room tests m)) [
    | inl e ↦ rw (e, evict_loop) (inr (omega arith, e))
    | inr e ↦
        rw (e, evict_loop)
          (elim (evict_loop_enough (demote_block m i) ids) [
            | inl all ↦ inl (omega arith)
            | inr (fewer, room) ↦ inr (omega arith, room)
          ])
  ]

  evict_loop-le : (m : KvCacheManager T) (ids : List ℕ) → (evict_loop tests m ids).1 ≤ length ids
  evict_loop-le m ids = omega (arith, evict_loop_enough m ids)

  abbrev candidates : KvCacheManager T → List ℕ
  candidates m = sort (fewer_accesses m) (keep (may_evict m) (all_blocks m))

  evict_cold_blocks-le : (m : KvCacheManager T) → (evict_cold_blocks tests m).1 ≤ 8
  unfolding evict_cold_blocks
  evict_cold_blocks-le m =
      if_pair-le m.core _ m 8
        (omega (arith, evict_loop-le m (cold_candidates m), length-take 8 (candidates m)))

  promote_warm_blocks-le : (m : KvCacheManager T) → (promote_warm_blocks m).1 ≤ 4
  unfolding promote_warm_blocks
  promote_warm_blocks-le m =
      omega (arith, length-take 4 (sort (more_accesses m) (keep (may_promote m) (all_blocks m))))

  rebalance_limits :
      (bytes : ℕ) (m : KvCacheManager T)
      → ((rebalance tests bytes m).1.0 ≤ 8)
        × ((rebalance tests bytes m).1.1 ≤ 4)
        × (((rebalance tests bytes m).1.0 ≡ 0) ⊎ ((rebalance tests bytes m).1.1 ≡ 0))
  unfolding rebalance
  rebalance_limits bytes m = (
    if_pair-le _ _ m 8 (evict_cold_blocks-le m),
    if_pair-le _ _ _ 4 (promote_warm_blocks-le _),
    zero_or _ _
        (λ h. if_pair_zero _ _ _ (exclusive tests bytes m.gpu_budget_bytes (if_pair_pos _ _ m h))),
  )

  cycle_limits :
      (m : KvCacheManager T)
      → ((run_cycle tests m).1.evicted ≤ 8)
        × ((run_cycle tests m).1.promoted ≤ 4)
        × (((run_cycle tests m).1.evicted ≡ 0) ⊎ ((run_cycle tests m).1.promoted ≡ 0))
  unfolding run_cycle
  cycle_limits m = rebalance_limits (gpu_kv_bytes m) _

  -- One cycle evicts at most 8 blocks and promotes at most 4, and it does not do both.
  pub schedule_limits :
      (m : KvCacheManager T) (r : Report)
      → (schedule tests m).1 ≡ some r
      → (r.evicted ≤ 8) × (r.promoted ≤ 4) × ((r.evicted ≡ 0) ⊎ (r.promoted ≡ 0))
  unfolding schedule
  schedule_limits m r e = elim (Bool-cases (has_handle m)) [
    | inl h ↦
        let q : (run_cycle tests m).1 ≡ r = unfold run_cycle in ground arith in
        rw (← q) (cycle_limits m)
    | inr h ↦ absurd (ground arith)
  ]
