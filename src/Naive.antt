-- ===== src/Naive.antt =====
-- python/orchkv/kvcache_manager.py: `NaiveOffloadManager`, which evicts the first blocks of a layer.
--
-- Blocks stand in a store, as those of `KVCacheManager`. `report_attention`, `step_done` and `destroy`
-- do nothing, and are left out. A block that is not on the GPU and has no buffer in host
-- memory raises an `AttributeError` when it is fetched. `blocks` has `n_layers` lists, so the loops
-- over `range(self.n_layers)` are loops over them.
pub mod Schedule
pub mod Plain
pub mod Simulation
pub mod Append
pub mod Build
pub mod Session
use orch_kv_cache.Prelude.{
  ℕ, zero, suc, ◌+◌, ◌-◌, ◌*◌, ◌==◌, Bool, true, false, not, ◌&&◌, Option, none, some, List, [],
  ◌∷◌, Result, ok, err, index_error, type_error, value_error, attribute_error, ◌>>=◌, if◌then◌else◌,
  length, replicate, sum_map, ok_or, min, get_elem?, get_last?, set, take, ltb, leb, count, flatten,
  ◌++◌,
}
use orch_kv_cache.Prelude.Heap.{update}
use orch_kv_cache.Prelude.Slices.{slice, assign, assign_slot, last_slot}
use orch_kv_cache.Manager.{Tensor, KvBlock, gpu, dram, same_tier, no_block}

pub record NaiveConfig {ℓ} (T : Type ℓ) : Type ℓ where
  pub n_layers : ℕ
  pub n_kv_heads : ℕ
  pub head_dim : ℕ
  pub block_size : ℕ
  pub itemsize : ℕ
  pub zeros : T
  pub gpu_budget_bytes : ℕ

pub record NaiveManager {ℓ} (T : Type ℓ) : Type ℓ where
  pub config : NaiveConfig T
  pub open config use *
  pub next_block_id : ℕ
  pub total_tokens : ℕ
  pub blocks : List (List ℕ)
  pub heap : ℕ → KvBlock T
  pub gpu_to_dram : ℕ
  pub dram_to_gpu : ℕ
  pub total_blocks : ℕ

module _ {ℓ} {T : Type ℓ} where
  -- `__init__`.
  unfoldable pub new_naive : NaiveConfig T → NaiveManager T
  new_naive c = record {
    config = c;
    next_block_id = 0;
    total_tokens = 0;
    blocks = replicate c.n_layers [];
    heap = λ i. no_block;
    gpu_to_dram = 0;
    dram_to_gpu = 0;
    total_blocks = 0;
  }

  -- `_block_bytes`.
  abbrev pub naive_block_bytes : NaiveConfig T → ℕ
  naive_block_bytes c = 2 * c.n_kv_heads * c.block_size * c.head_dim * c.itemsize

  -- `gpu_kv_bytes`.
  unfoldable pub naive_gpu_bytes : NaiveManager T → ℕ
  naive_gpu_bytes n =
      count (λ i. same_tier (n.heap i).tier gpu) (flatten n.blocks) * naive_block_bytes n.config

  -- A new block with its tensor, at the end of a layer.
  abbrev pub add_block : NaiveManager T → ℕ → List ℕ → ℕ → ℕ → Tensor T → NaiveManager T
  add_block n layer ids pos tokens tensor = record n {
    next_block_id = n.next_block_id + 1;
    blocks = set n.blocks layer (ids ++ n.next_block_id ∷ []);
    heap = update n.heap n.next_block_id (record {
      layer = layer;
      token_start = pos;
      token_count = tokens;
      capacity = n.block_size;
      tier = gpu;
      gpu_data = some tensor;
      dram_data = none;
      ssd_path = none;
      is_sink = false;
      access_count = 0;
    });
    total_blocks = n.total_blocks + 1;
  }

  -- The body of the loop of `ingest_step` over the positions.
  unfoldable pub naive_ingest_block : NaiveManager T → ℕ → List T → ℕ → Result (NaiveManager T)
  naive_ingest_block n layer kv pos = do
    let end = min (pos + n.block_size) (length kv)
    ids ← ok_or index_error (get_elem? n.blocks layer)
    tensor ← assign (replicate n.block_size n.zeros) 0 (end - pos) (slice pos end kv)
    ok (add_block n layer ids pos (end - pos) tensor)

  -- That loop; `length kv` rounds are enough.
  unfoldable pub naive_ingest_from : ℕ → NaiveManager T → ℕ → List T → ℕ → Result (NaiveManager T)
  naive_ingest_from zero n layer kv pos = ok n
  naive_ingest_from (suc fuel) n layer kv pos =
      if ltb pos (length kv)
      then (do
        n' ← naive_ingest_block n layer kv pos
        naive_ingest_from fuel n' layer kv (pos + n.block_size))
      else ok n

  -- `sum(b.token_count for b in blocks)`.
  abbrev pub naive_count : NaiveManager T → List ℕ → ℕ
  naive_count n = sum_map (λ i. (n.heap i).token_count)

  -- The body of the loop of `ingest_step`.
  unfoldable pub naive_ingest_layer : NaiveManager T → ℕ → List T → Result (NaiveManager T)
  naive_ingest_layer n layer kv = do
    ids ← ok_or index_error (get_elem? n.blocks layer)
    if leb (length kv) (naive_count n ids)
        then ok n
        else if n.block_size == 0
        then err value_error
        else naive_ingest_from (length kv) n layer kv (naive_count n ids)

  abbrev pub naive_each_layer :
      (NaiveManager T → ℕ → List T → Result (NaiveManager T))
      → NaiveManager T
      → ℕ
      → List (List T)
      → Result (NaiveManager T)
  naive_each_layer body n layer [] = ok n
  naive_each_layer body n layer (kv ∷ rest) = do
    n' ← body n layer kv
    naive_each_layer body n' (layer + 1) rest

  abbrev pub naive_set_total : List (List T) → NaiveManager T → Result (NaiveManager T)
  naive_set_total [] n = err index_error
  naive_set_total (kv ∷ rest) n = ok (record n { total_tokens = length kv })

  -- `ingest_step`.
  unfoldable pub naive_ingest : NaiveManager T → List (List T) → Result (NaiveManager T)
  naive_ingest n legacy = do
    n' ← naive_each_layer naive_ingest_layer n 0 legacy
    naive_set_total legacy n'

  -- `blk.gpu_data = blk.dram_data.to("cuda")`, and the tier and the count.
  abbrev pub naive_promoted : NaiveManager T → ℕ → Tensor T → NaiveManager T
  naive_promoted n i tensor = record n {
    heap = update n.heap i (record (n.heap i) { gpu_data = some tensor; tier = gpu });
    dram_to_gpu = n.dram_to_gpu + 1;
  }

  unfoldable pub naive_promote : NaiveManager T → ℕ → Result (NaiveManager T)
  naive_promote n i = do
    tensor ← ok_or attribute_error (n.heap i).dram_data
    ok (naive_promoted n i tensor)

  -- `if blk.tier != TIER_GPU`.
  unfoldable pub naive_fetch : NaiveManager T → ℕ → Result (NaiveManager T)
  unfolding naive_promote
  naive_fetch n i = if same_tier (n.heap i).tier gpu then ok n else naive_promote n i

  -- The branch of `append_token` for a last block with room.
  unfoldable pub naive_write_slot : NaiveManager T → ℕ → List T → Result (NaiveManager T)
  naive_write_slot n last kv = do
    let idx = (n.heap last).token_count
    tensor ← ok_or type_error (n.heap last).gpu_data
    token ← last_slot kv
    tensor' ← assign_slot tensor idx token
    ok (record n {
      heap =
          update n.heap last
            (record (n.heap last) { gpu_data = some tensor'; token_count = idx + 1 });
    })

  unfoldable pub naive_append_slot : NaiveManager T → ℕ → List T → Result (NaiveManager T)
  unfolding naive_fetch
  naive_append_slot n last kv = do n' ← naive_fetch n last; naive_write_slot n' last kv

  -- The branch for a full one, or none.
  unfoldable pub naive_append_block : NaiveManager T → ℕ → List ℕ → List T → Result (NaiveManager T)
  naive_append_block n layer ids kv = do
    token ← last_slot kv
    tensor ← assign_slot (replicate n.block_size n.zeros) 0 token
    ok (add_block n layer ids (naive_count n ids) 1 tensor)

  abbrev pub naive_append_to :
      NaiveManager T → ℕ → List ℕ → List T → Option ℕ → Result (NaiveManager T)
  naive_append_to n layer ids kv none = naive_append_block n layer ids kv
  naive_append_to n layer ids kv (some last) =
      if ltb (n.heap last).token_count (n.heap last).capacity
      then naive_append_slot n last kv
      else naive_append_block n layer ids kv

  -- The body of the loop of `append_token`.
  unfoldable pub naive_append_layer : NaiveManager T → ℕ → List T → Result (NaiveManager T)
  naive_append_layer n layer kv = do
    ids ← ok_or index_error (get_elem? n.blocks layer)
    if leb (length kv) (naive_count n ids)
        then ok n
        else naive_append_to n layer ids kv (get_last? ids)

  -- `append_token`.
  unfoldable pub naive_append : NaiveManager T → List (List T) → Result (NaiveManager T)
  naive_append n legacy = do
    n' ← naive_each_layer naive_append_layer n 0 legacy
    naive_set_total legacy n'

  -- The loop of `build_past_kv` over the blocks of a layer.
  unfoldable pub naive_build_blocks :
      NaiveManager T → List ℕ → ℕ → List T → Result (NaiveManager T × List T)
  unfolding naive_fetch
  naive_build_blocks n [] pos out = ok (n, out)
  naive_build_blocks n (i ∷ ids) pos out = elim ((n.heap i).token_count == 0) [
    | true ↦ naive_build_blocks n ids pos out
    | false ↦ do
      n' ← naive_fetch n i
      let k = (n'.heap i).token_count
      tensor ← ok_or type_error (n'.heap i).gpu_data
      out' ← assign out pos k (take k tensor)
      naive_build_blocks n' ids (pos + k) out'
  ]

  -- The loop over the layers; a layer without blocks has no tokens.
  unfoldable pub naive_build_layers :
      NaiveManager T → List (List ℕ) → Result (NaiveManager T × List (List T))
  naive_build_layers n [] = ok (n, [])
  naive_build_layers n (ids ∷ ls) = do
    (n', row) ← naive_build_blocks n ids 0 (replicate (naive_count n ids) n.zeros)
    (n'', rest) ← naive_build_layers n' ls
    ok (n'', row ∷ rest)

  -- `build_past_kv`.
  unfoldable pub naive_build : NaiveManager T → Result (NaiveManager T × List (List T))
  naive_build n = naive_build_layers n n.blocks
