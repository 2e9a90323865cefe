-- ===== src/Manager/Schedule/Sinks.antt =====
-- The blocks of the first tokens stay on the GPU.
use orch_kv_cache.Prelude.{
  ℕ, ◌≡◌, ◌≢◌, ap, Bool, true, false, none, some, List, [], ◌∷◌, arith, Bool-cases, inl, inr, All,
  All-map, All-keep, All-take, keep, ltb, length, if◌then◌else◌,
}
use orch_kv_cache.Prelude.Budget.{BudgetTest}
use orch_kv_cache.Prelude.Sorting.{All-sort}
use orch_kv_cache.Manager.{gpu, KvCacheManager, all_blocks, has_handle, gpu_kv_bytes}
use orch_kv_cache.Manager.Moves.{
  demote_block, promote_block, promote_from_dram, load_from_ssd, save_to_ssd,
}
use orch_kv_cache.Manager.Schedule.{
  evict_loop, has_room, evict_cold_blocks, cold_candidates, promote_all, promote_warm_blocks,
  save_all, spill_dram_to_ssd, fewer_accesses, may_evict, may_spill, rebalance, run_cycle, schedule,
}

-- A sink block on the GPU.
pub record IsPinned {ℓ} {T : Type ℓ} (m : KvCacheManager T) (i : ℕ) : Type 0 where
  pub sink : (m.heap i).is_sink ≡ true
  pub on_gpu : (m.heap i).tier ≡ gpu

module _ {ℓ} {T : Type ℓ} where
  demote_other :
      (m : KvCacheManager T) (i j : ℕ) → i ≢ j → IsPinned m i → IsPinned (demote_block m j) i
  unfolding demote_block
  demote_other m i j h p = ground arith

  save_other :
      (m : KvCacheManager T) (i j : ℕ) → i ≢ j → IsPinned m i → IsPinned (save_to_ssd m j) i
  unfolding save_to_ssd
  save_other m i j h p = ground arith

  -- A promotion leaves a block on the GPU there.
  promote-IsPinned :
      (m : KvCacheManager T) (i j : ℕ) → IsPinned m i → IsPinned (promote_block m j) i
  unfolding promote_block promote_from_dram load_from_ssd
  promote-IsPinned m i j p = ground arith

  save_all-IsPinned :
      (m : KvCacheManager T) (i : ℕ) (ids : List ℕ)
      → All (λ j. i ≢ j) ids
      → IsPinned m i
      → IsPinned (save_all m ids) i
  unfolding save_all
  save_all-IsPinned m i [] h p = p
  save_all-IsPinned m i (j ∷ ids) h p =
      save_all-IsPinned (save_to_ssd m j) i ids h.1 (save_other m i j h.0 p)

  promote_all-IsPinned :
      (m : KvCacheManager T) (i : ℕ) (ids : List ℕ) → IsPinned m i → IsPinned (promote_all m ids) i
  unfolding promote_all
  promote_all-IsPinned m i [] p = p
  promote_all-IsPinned m i (j ∷ ids) p =
      promote_all-IsPinned (promote_block m j) i ids (promote-IsPinned m i j p)

  ne_of_may_evict :
      (m : KvCacheManager T) (i : ℕ) → IsPinned m i → (j : ℕ) → may_evict m j ≡ true → i ≢ j
  ne_of_may_evict m i p j h e = let q = ap (λ k. (m.heap k).is_sink) e in ground arith

  ne_of_may_spill :
      (m : KvCacheManager T) (i : ℕ) → IsPinned m i → (j : ℕ) → may_spill m j ≡ true → i ≢ j
  ne_of_may_spill m i p j h e = let q = ap (λ k. (m.heap k).is_sink) e in ground arith

  IsPinned-if :
      (b : Bool) (m n : KvCacheManager T) (i : ℕ)
      → IsPinned m i
      → IsPinned n i
      → IsPinned (if b then n else m) i
  IsPinned-if true m n i p q = q
  IsPinned-if false m n i p q = p

  IsPinned-if_pair {κ} :
      {B : Type κ} (b : Bool) (m : KvCacheManager T) (r : KvCacheManager T × B) (y : B) (i : ℕ)
      → IsPinned m i
      → IsPinned r.0 i
      → IsPinned (if b then r else (m, y)).0 i
  IsPinned-if_pair true m r y i p q = q
  IsPinned-if_pair false m r y i p q = p

  spill-IsPinned : (m : KvCacheManager T) (i : ℕ) → IsPinned m i → IsPinned (spill_dram_to_ssd m) i
  unfolding spill_dram_to_ssd
  spill-IsPinned m i p =
      IsPinned-if (ltb (length found) 4) _ m i
        (save_all-IsPinned m i _
          (All-take (λ j. i ≢ j) 4 _
            (All-sort (fewer_accesses m) (λ j. i ≢ j) found
              (All-map (ne_of_may_spill m i p) found (All-keep (may_spill m) (all_blocks m)))))
          p)
        p
    where
      found : List ℕ
      found = keep (may_spill m) (all_blocks m)

module _ {ℓ} (tests : BudgetTest) {T : Type ℓ} where
  evict_loop-IsPinned :
      (m : KvCacheManager T) (i : ℕ) (ids : List ℕ)
      → All (λ j. i ≢ j) ids
      → IsPinned m i
      → IsPinned (evict_loop tests m ids).0 i
  unfolding evict_loop
  evict_loop-IsPinned m i [] h p = p
  evict_loop-IsPinned m i (j ∷ ids) h p = elim (Bool-cases (has_room tests m)) [
    | inl e ↦ rw (e, evict_loop) p
    | inr e ↦
        rw (e, evict_loop)
          (evict_loop-IsPinned (demote_block m j) i ids h.1 (demote_other m i j h.0 p))
  ]

  evict-IsPinned :
      (m : KvCacheManager T) (i : ℕ) → IsPinned m i → IsPinned (evict_cold_blocks tests m).0 i
  unfolding evict_cold_blocks
  evict-IsPinned m i p =
      let found = keep (may_evict m) (all_blocks m) in
      IsPinned-if_pair m.core m _ 0 i p (
        evict_loop-IsPinned m i (cold_candidates m)
          (All-take (λ j. i ≢ j) 8 _
            (All-sort (fewer_accesses m) (λ j. i ≢ j) found
              (All-map (ne_of_may_evict m i p) found (All-keep (may_evict m) (all_blocks m)))))
          p)

  rebalance-IsPinned :
      (bytes : ℕ) (m : KvCacheManager T) (i : ℕ)
      → IsPinned m i
      → IsPinned (rebalance tests bytes m).0 i
  unfolding rebalance promote_warm_blocks
  rebalance-IsPinned bytes m i p =
      let evicted = IsPinned-if_pair {B = ℕ} _ m _ 0 i p (evict-IsPinned m i p) in
      let spilled = IsPinned-if _ _ _ i evicted (spill-IsPinned _ i evicted) in
      IsPinned-if_pair {B = ℕ} _ _ _ 0 i spilled (promote_all-IsPinned _ i _ spilled)

  run_cycle-IsPinned :
      (m : KvCacheManager T) (i : ℕ) → IsPinned m i → IsPinned (run_cycle tests m).0 i
  unfolding run_cycle
  run_cycle-IsPinned m i p =
      rebalance-IsPinned (gpu_kv_bytes m) _ i (record { sink = p.sink; on_gpu = p.on_gpu })

  -- A sink block that is on the GPU is on the GPU after a scheduling cycle too, whatever the budget.
  pub schedule-IsPinned :
      (m : KvCacheManager T) (i : ℕ) → IsPinned m i → IsPinned (schedule tests m).0 i
  unfolding schedule
  schedule-IsPinned m i p =
      IsPinned-if_pair (has_handle m) m ((run_cycle tests m).0, some (run_cycle tests m).1) none i p
        (run_cycle-IsPinned m i p)
