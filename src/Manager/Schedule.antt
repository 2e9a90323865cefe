-- ===== src/Manager/Schedule.antt =====
-- `report_attention` and `schedule` with the loops that it runs: eviction to DRAM, spilling to SSD
-- and promotion back to the GPU.
pub mod Keeps
pub mod Sinks
pub mod Limits
pub mod Evicted
use orch_kv_cache.Prelude.{
  ℕ, suc, ◌+◌, ◌≤◌, Bool, true, false, not, ◌&&◌, Option, none, some, List, [], ◌∷◌, ltb, leb,
  is_some, if◌then◌else◌, keep, take, length, min, Result, ok, get_elem?, ok_or, index_error, ◌>>=◌,
}
use orch_kv_cache.Prelude.Budget.{BudgetTest}
use orch_kv_cache.Prelude.Heap.{update}
use orch_kv_cache.Prelude.Sorting.{sort}
use orch_kv_cache.Manager.{
  KvBlock, KvCacheManager, TmCall, Usage, ratio, no_budget, gpu, dram, same_tier, is_on, all_blocks,
  has_handle, call_if, report_attn, set_usage, schedule_once, gpu_kv_bytes,
}
use orch_kv_cache.Manager.Moves.{demote_block, promote_block, save_to_ssd, put_block}
use Prim.Native.String
use Prim.Native.String.{String}

-- What `schedule` returns; `tm_stats` is the core's answer, a function of the calls made so far.
pub record Report : Type 0 where
  pub step : ℕ
  pub gpu_bytes : ℕ
  pub gpu_ratio : Usage
  pub evicted : ℕ
  pub promoted : ℕ
  pub tm_stats : List TmCall

-- Python's truth of an optional text.
abbrev pub is_nonempty : Option String → Bool
is_nonempty none = false
is_nonempty (some String.[]) = false
is_nonempty (some (String.◌∷◌ c s)) = true

module _ {ℓ} {T : Type ℓ} where
  -- The body of the loop of `report_attention`, for weights over `kv_len` tokens.
  abbrev pub report_block : ℕ → KvCacheManager T → ℕ → KvCacheManager T
  report_block kv_len m i =
      let b = m.heap i in
      let end = min (b.token_start + b.token_count) kv_len in
      if leb end b.token_start
      then m
      else put_block (call_if true (report_attn i b.token_start end) m) i
          (record b { access_count = b.access_count + 1 })

  unfoldable pub report_blocks : ℕ → KvCacheManager T → List ℕ → KvCacheManager T
  report_blocks kv_len m [] = m
  report_blocks kv_len m (i ∷ ids) = report_blocks kv_len (report_block kv_len m i) ids

  pub report_attention : KvCacheManager T → ℕ → ℕ → Result (KvCacheManager T)
  report_attention m layer kv_len =
      if has_handle m
      then (do ids ← ok_or index_error (get_elem? m.blocks layer); ok (report_blocks kv_len m ids))
      else ok m

  -- The sort keys: the number of reports that a block took part in.
  abbrev pub fewer_accesses : KvCacheManager T → ℕ → ℕ → Bool
  fewer_accesses m i j = leb (m.heap i).access_count (m.heap j).access_count

  abbrev pub more_accesses : KvCacheManager T → ℕ → ℕ → Bool
  more_accesses m i j = leb (m.heap j).access_count (m.heap i).access_count

  abbrev pub may_evict : KvCacheManager T → ℕ → Bool
  may_evict m i = is_on gpu m i && (not (m.heap i).is_sink && is_some (m.heap i).gpu_data)

  abbrev pub may_promote : KvCacheManager T → ℕ → Bool
  may_promote m i = is_on dram m i && is_some (m.heap i).dram_data

  abbrev pub may_spill : KvCacheManager T → ℕ → Bool
  may_spill m i = is_on dram m i && (is_some (m.heap i).dram_data && not (m.heap i).is_sink)

  unfoldable pub promote_all : KvCacheManager T → List ℕ → KvCacheManager T
  promote_all m [] = m
  promote_all m (i ∷ ids) = promote_all (promote_block m i) ids

  abbrev pub warm_candidates : KvCacheManager T → List ℕ
  warm_candidates m = take 4 (sort (more_accesses m) (keep (may_promote m) (all_blocks m)))

  -- `_promote_warm_blocks`, with the number of promoted blocks.
  unfoldable pub promote_warm_blocks : KvCacheManager T → KvCacheManager T × ℕ
  promote_warm_blocks m = let chosen = warm_candidates m in (promote_all m chosen, length chosen)

  unfoldable pub save_all : KvCacheManager T → List ℕ → KvCacheManager T
  save_all m [] = m
  save_all m (i ∷ ids) = save_all (save_to_ssd m i) ids

  -- `_spill_dram_to_ssd`.
  unfoldable pub spill_dram_to_ssd : KvCacheManager T → KvCacheManager T
  spill_dram_to_ssd m =
      let dram_blocks = keep (may_spill m) (all_blocks m) in
      if ltb (length dram_blocks) 4
      then m
      else save_all m (take 4 (sort (fewer_accesses m) dram_blocks))

  abbrev pub cold_candidates : KvCacheManager T → List ℕ
  cold_candidates m = take 8 (sort (fewer_accesses m) (keep (may_evict m) (all_blocks m)))

module _ {ℓ} (tests : BudgetTest) {T : Type ℓ} where
  -- `self.gpu_budget_bytes > 0 and gpu_bytes <= self.gpu_budget_bytes * 0.7`.
  abbrev pub has_room : KvCacheManager T → Bool
  has_room m = ltb 0 m.gpu_budget_bytes && tests.at_most (gpu_kv_bytes m) m.gpu_budget_bytes 70

  unfoldable pub evict_loop : KvCacheManager T → List ℕ → KvCacheManager T × ℕ
  evict_loop m [] = (m, 0)
  evict_loop m (i ∷ ids) = elim (has_room m) [
    | true ↦ (m, 0)
    | false ↦ let (m', n) = evict_loop (demote_block m i) ids in (m', n + 1)
  ]

  -- `_evict_cold_blocks`: the core's statistics that it asks for are not used.
  unfoldable pub evict_cold_blocks : KvCacheManager T → KvCacheManager T × ℕ
  evict_cold_blocks m = if m.core then evict_loop m (cold_candidates m) else (m, 0)

  abbrev pub usage_of : KvCacheManager T → Usage
  usage_of m =
      if ltb 0 m.gpu_budget_bytes then ratio (gpu_kv_bytes m) m.gpu_budget_bytes else no_budget

  -- The three loops of `schedule`; the byte count is the one at its start.
  unfoldable pub rebalance : ℕ → KvCacheManager T → KvCacheManager T × (ℕ × ℕ)
  rebalance gpu_bytes m =
      let budget = m.gpu_budget_bytes in
      let (m₁, evicted) =
        if ltb 0 budget && not (tests.at_most gpu_bytes budget 85)
        then evict_cold_blocks m
        else (m, 0) in
      let m₂ = if is_nonempty m₁.ssd_dir then spill_dram_to_ssd m₁ else m₁ in
      let (m₃, promoted) =
        if ltb 0 budget && tests.below gpu_bytes budget 60
        then promote_warm_blocks m₂
        else (m₂, 0) in
      (m₃, (evicted, promoted))

  -- `schedule` past its first test.
  unfoldable pub run_cycle : KvCacheManager T → KvCacheManager T × Report
  run_cycle m =
      let bytes = gpu_kv_bytes m in
      let m' = call_if true schedule_once (call_if true (set_usage (usage_of m)) m) in
      let (m'', (evicted, promoted)) = rebalance bytes m' in
      (
        m'',
        record {
          step = m.step;
          gpu_bytes = bytes;
          gpu_ratio = usage_of m;
          evicted = evicted;
          promoted = promoted;
          tm_stats = m'.tm_calls;
        },
      )

  -- `schedule`; without a handle it returns an empty dict.
  unfoldable pub schedule : KvCacheManager T → KvCacheManager T × Option Report
  unfolding run_cycle
  schedule m = if has_handle m then (let (m', r) = run_cycle m in (m', some r)) else (m, none)
