-- ===== src/Manager/Stats.antt =====
-- `get_stats`, and what its counts are.
use orch_kv_cache.Prelude.{ℕ, ◌+◌, ◌*◌, ◌≡◌, ap, List, [], ◌∷◌, arith, count, length, if◌then◌else◌}
use orch_kv_cache.Manager.{
  KvCacheManager, Migrations, TmCall, gpu, dram, ssd, is_on, all_blocks, block_bytes, truthy_handle,
  gpu_kv_bytes,
}

-- The dict of `get_stats`; the two sizes in megabytes are kept in bytes, and `tm` is the core's
-- answer, a function of the calls made so far.
pub record Stats : Type 0 where
  pub step : ℕ
  pub total_tokens : ℕ
  pub blocks_gpu : ℕ
  pub blocks_dram : ℕ
  pub blocks_ssd : ℕ
  pub blocks_total : ℕ
  pub gpu_kv_size : ℕ
  pub dram_kv_size : ℕ
  pub migrations : Migrations
  pub tm : List TmCall

pub record Counts : Type 0 where
  pub on_gpu : ℕ
  pub on_dram : ℕ
  pub on_ssd : ℕ

module _ {ℓ} {T : Type ℓ} where
  -- The loop of `get_stats` over the blocks.
  unfoldable pub count_tiers : KvCacheManager T → List ℕ → Counts → Counts
  count_tiers m [] c = c
  count_tiers m (i ∷ ids) c = count_tiers m ids (
      if is_on gpu m i
      then record c { on_gpu = c.on_gpu + 1 }
      else if is_on dram m i
      then record c { on_dram = c.on_dram + 1 }
      else if is_on ssd m i
      then record c { on_ssd = c.on_ssd + 1 }
      else c)

  unfoldable pub get_stats : KvCacheManager T → Stats
  get_stats m =
      let c = count_tiers m (all_blocks m) (record { on_gpu = 0; on_dram = 0; on_ssd = 0 }) in
      record {
        step = m.step;
        total_tokens = m.total_tokens;
        blocks_gpu = c.on_gpu;
        blocks_dram = c.on_dram;
        blocks_ssd = c.on_ssd;
        blocks_total = c.on_gpu + c.on_dram + c.on_ssd;
        gpu_kv_size = c.on_gpu * block_bytes m.config;
        dram_kv_size = c.on_dram * block_bytes m.config;
        migrations = m.migrations;
        tm = if truthy_handle m then m.tm_calls else [];
      }

  count_tiers_lem :
      (m : KvCacheManager T) (ids : List ℕ) (c : Counts)
      → ((count_tiers m ids c).on_gpu ≡ c.on_gpu + count (is_on gpu m) ids)
        × ((count_tiers m ids c).on_dram ≡ c.on_dram + count (is_on dram m) ids)
        × ((count_tiers m ids c).on_ssd ≡ c.on_ssd + count (is_on ssd m) ids)
        × (count (is_on gpu m) ids + count (is_on dram m) ids + count (is_on ssd m) ids
            ≡ length ids)
  unfolding count_tiers
  count_tiers_lem m [] c = omega arith
  count_tiers_lem m (i ∷ ids) c = ground (
    arith,
    count_tiers_lem m ids (record c { on_gpu = c.on_gpu + 1 }),
    count_tiers_lem m ids (record c { on_dram = c.on_dram + 1 }),
    count_tiers_lem m ids (record c { on_ssd = c.on_ssd + 1 }),
  )

  -- The counts of `get_stats` are those of the blocks on each tier, each block of the manager is
  -- counted once, and the size on the GPU is the one that `schedule` holds against the budget.
  pub get_stats_counts :
      (m : KvCacheManager T)
      → ((get_stats m).blocks_gpu ≡ count (is_on gpu m) (all_blocks m))
        × ((get_stats m).blocks_dram ≡ count (is_on dram m) (all_blocks m))
        × ((get_stats m).blocks_ssd ≡ count (is_on ssd m) (all_blocks m))
        × ((get_stats m).blocks_total ≡ length (all_blocks m))
        × ((get_stats m).gpu_kv_size ≡ gpu_kv_bytes m)
  unfolding get_stats gpu_kv_bytes
  get_stats_counts m =
      let (g, d, s, all) =
        count_tiers_lem m (all_blocks m) (record { on_gpu = 0; on_dram = 0; on_ssd = 0 }) in
      (
        omega arith,
        omega arith,
        omega arith,
        omega arith,
        ap (λ n. n * block_bytes m.config) (omega arith),
      )
