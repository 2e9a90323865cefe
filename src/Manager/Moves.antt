-- ===== src/Manager/Moves.antt =====
-- `_demote_block`, `_promote_block`, `_save_to_ssd` and `_load_from_ssd`: how a block moves between
-- the tiers. A block is named by its address.
pub mod Keeps
pub mod Fetch
use orch_kv_cache.Prelude.{ℕ, ◌+◌, Bool, true, false, Option, none, some, if◌then◌else◌, is_some}
use orch_kv_cache.Prelude.Heap.{update}
use orch_kv_cache.Manager.{
  Tensor, KvBlock, KvCacheManager, gpu, dram, ssd, same_tier, set_block_tier, truthy_handle,
  call_if,
}

module _ {ℓ} {T : Type ℓ} where
  abbrev pub put_block : KvCacheManager T → ℕ → KvBlock T → KvCacheManager T
  put_block m i b = record m { heap = update m.heap i b }

  demoted : KvCacheManager T → ℕ → Tensor T → KvCacheManager T
  demoted m i tensor =
      call_if (truthy_handle m) (set_block_tier i dram)
        (record (put_block m i
          (record (m.heap i) { dram_data = some tensor; gpu_data = none; tier = dram })) {
            migrations = record m.migrations { gpu_to_dram = m.migrations.gpu_to_dram + 1 };
          })

  -- A buffer of an earlier demotion is written again, so `dram_data` is the tensor in both cases.
  unfoldable pub demote_block : KvCacheManager T → ℕ → KvCacheManager T
  unfolding demoted
  demote_block m i = elim (m.heap i).gpu_data [
    | none ↦ m
    | some tensor ↦ if same_tier (m.heap i).tier gpu then demoted m i tensor else m
  ]

  loaded : KvCacheManager T → ℕ → Tensor T → KvCacheManager T
  loaded m i tensor =
      record (put_block m i (record (m.heap i) { dram_data = some tensor; tier = dram })) {
        migrations = record m.migrations { ssd_to_dram = m.migrations.ssd_to_dram + 1 };
      }

  -- The file may be gone: then nothing changes.
  unfoldable pub load_from_ssd : KvCacheManager T → ℕ → KvCacheManager T
  unfolding loaded
  load_from_ssd m i = elim (m.heap i).ssd_path [
    | none ↦ m
    | some path ↦ elim (m.files path) [ none ↦ m | some tensor ↦ loaded m i tensor ]
  ]

  promoted : KvCacheManager T → ℕ → Tensor T → KvCacheManager T
  promoted m i tensor =
      call_if (truthy_handle m) (set_block_tier i gpu)
        (record (put_block m i (record (m.heap i) { gpu_data = some tensor; tier = gpu })) {
          migrations = record m.migrations { dram_to_gpu = m.migrations.dram_to_gpu + 1 };
        })

  -- The second half of `_promote_block`.
  unfoldable pub promote_from_dram : KvCacheManager T → ℕ → KvCacheManager T
  unfolding promoted
  promote_from_dram m i = elim (m.heap i).dram_data [
    | none ↦ m
    | some tensor ↦ if same_tier (m.heap i).tier dram then promoted m i tensor else m
  ]

  unfoldable pub promote_block : KvCacheManager T → ℕ → KvCacheManager T
  promote_block m i =
      promote_from_dram (if same_tier (m.heap i).tier ssd then load_from_ssd m i else m) i

  saved : KvCacheManager T → ℕ → Tensor T → KvCacheManager T
  saved m i tensor =
      call_if (truthy_handle m) (set_block_tier i ssd)
        (record (put_block m i
          (record (m.heap i) { ssd_path = some i; dram_data = none; tier = ssd })) {
            files = update m.files i (some tensor);
            migrations = record m.migrations { dram_to_ssd = m.migrations.dram_to_ssd + 1 };
          })

  unfoldable pub save_to_ssd : KvCacheManager T → ℕ → KvCacheManager T
  unfolding saved
  save_to_ssd m i = elim (m.heap i).dram_data [
    | none ↦ m
    | some tensor ↦ if is_some m.ssd_dir then saved m i tensor else m
  ]
