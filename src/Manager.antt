-- ===== src/Manager.antt =====
-- python/orchkv/kvcache_manager.py: the blocks, the state of `KVCacheManager` and its small methods.
-- The children hold its other methods, each with the proofs about it below it.
--
-- A token of one layer is a value of `T`: its key slice and its value slice over all heads, so that
-- a layer of `past_key_values` is the list of its tokens, and a block tensor the list of its slots.
-- A `KVBlock` object stands at an address, which is its `block_id`; the lists of `_blocks` hold
-- addresses, so that a candidate list and `_blocks` share the block. The calls of `orchkv_core`
-- are recorded, the latest first: no method below reads an answer of it but to report it.
pub mod Moves
pub mod Ingest
pub mod Build
pub mod Schedule
pub mod Invariant
pub mod Session
pub mod Stats
pub mod Registration
use orch_kv_cache.Prelude.{
  ℕ, zero, suc, ◌+◌, ◌*◌, Bool, true, false, ◌&&◌, Option, none, some, List, [], ◌∷◌, ◌++◌, Result,
  ok, err, index_error, ◌>>=◌, ltb, is_some, if◌then◌else◌, count, flatten, get_elem?, set,
  replicate, ok_or,
}
use orch_kv_cache.Prelude.Heap.{update}
use Prim.Native.String.{String}

pub data Tier : Type 0 where
  gpu dram ssd : Tier

abbrev pub same_tier : Tier → Tier → Bool
same_tier gpu gpu = true
same_tier dram dram = true
same_tier ssd ssd = true
same_tier _ _ = false

-- A tensor `[2, n_kv_heads, n, head_dim]` as its n slots.
abbrev pub Tensor {ℓ} : Type ℓ → Type ℓ
Tensor T = List T

-- `KVBlock`; `ssd_path` is the number k of `<ssd_dir>/blk_<k>.bin`.
pub record KvBlock {ℓ} (T : Type ℓ) : Type ℓ where
  pub layer : ℕ
  pub token_start : ℕ
  pub token_count : ℕ
  pub capacity : ℕ
  pub tier : Tier
  pub gpu_data : Option (Tensor T)
  pub dram_data : Option (Tensor T)
  pub ssd_path : Option ℕ
  pub is_sink : Bool
  pub access_count : ℕ

-- The ratio that `schedule` reports: `min(bytes / budget, 1.0)`, or 0.0; that of
-- `FastKVCacheManager` is `1.0 - evicted / total`, or 0.0.
pub data Usage : Type 0 where
  ratio : (bytes budget : ℕ) → Usage
  resident : (evicted total : ℕ) → Usage
  no_budget : Usage

-- The calls of `orchkv_core`, their arguments in the order in which the source passes them. The
-- score of `report_attn` is the sum of the attention weights from a token up to another, and that
-- of `report_qk` the sum of the products of query and keys there.
pub data TmCall : Type 0 where
  destroy_manager : TmCall
  register_block_id : (block_id third fourth : ℕ) → TmCall
  set_block_tier : (block_id : ℕ) → Tier → TmCall
  report_attn : (block_id from upto : ℕ) → TmCall
  report_qk : (block_id from upto : ℕ) → TmCall
  end_step : TmCall
  set_usage : Usage → TmCall
  schedule_once : TmCall

pub record Config {ℓ} (T : Type ℓ) : Type ℓ where
  pub n_layers : ℕ
  pub n_kv_heads : ℕ
  pub head_dim : ℕ
  pub block_size : ℕ
  pub itemsize : ℕ  -- of `dtype`
  pub zeros : T  -- a slot of `torch.zeros(…, dtype)`
  pub gpu_budget_bytes : ℕ
  pub ssd_dir : Option String
  pub sink_tokens : ℕ

pub record Migrations : Type 0 where
  pub gpu_to_dram : ℕ
  pub dram_to_gpu : ℕ
  pub dram_to_ssd : ℕ
  pub ssd_to_dram : ℕ
  pub total_blocks : ℕ

pub record KvCacheManager {ℓ} (T : Type ℓ) : Type ℓ where
  pub config : Config T
  pub open config use *
  pub core : Bool  -- `_C is not None`
  pub tm_handle : Option ℕ
  pub tm_calls : List TmCall
  pub next_block_id : ℕ
  pub total_tokens : ℕ
  pub step : ℕ
  pub blocks : List (List ℕ)
  pub heap : ℕ → KvBlock T
  pub files : ℕ → Option (Tensor T)
  pub migrations : Migrations

-- Python's truth of an optional handle.
abbrev pub is_nonzero : Option ℕ → Bool
is_nonzero none = false
is_nonzero (some zero) = false
is_nonzero (some (suc _)) = true

-- `flags = 1 if is_sink else 0`.
abbrev pub flags_of : Bool → ℕ
flags_of b = if b then 1 else 0

module _ {ℓ} {T : Type ℓ} where
  -- What stands at an address that no block has yet.
  abbrev pub no_block : KvBlock T
  no_block = record {
    layer = 0;
    token_start = 0;
    token_count = 0;
    capacity = 0;
    tier = gpu;
    gpu_data = none;
    dram_data = none;
    ssd_path = none;
    is_sink = false;
    access_count = 0;
  }

  -- `__init__`, with the handle that `tm_create` returns if `orchkv_core` is there.
  unfoldable pub init : Config T → Option ℕ → KvCacheManager T
  init c handle = record {
    config = c;
    core = is_some handle;
    tm_handle = handle;
    tm_calls = [];
    next_block_id = 0;
    total_tokens = 0;
    step = 0;
    blocks = replicate c.n_layers [];
    heap = λ _. no_block;
    files = λ _. none;
    migrations = record {
      gpu_to_dram = 0;
      dram_to_gpu = 0;
      dram_to_ssd = 0;
      ssd_to_dram = 0;
      total_blocks = 0;
    };
  }

  -- `self._tm_handle is not None and _C is not None`.
  abbrev pub has_handle : KvCacheManager T → Bool
  has_handle m = is_some m.tm_handle && m.core

  -- `self._tm_handle and _C is not None`.
  abbrev pub truthy_handle : KvCacheManager T → Bool
  truthy_handle m = is_nonzero m.tm_handle && m.core

  -- A call of `orchkv_core` behind a test.
  abbrev pub call_if : Bool → TmCall → KvCacheManager T → KvCacheManager T
  call_if b call m = record m { tm_calls = if b then call ∷ m.tm_calls else m.tm_calls }

  pub destroy : KvCacheManager T → KvCacheManager T
  destroy m =
      if has_handle m then record (call_if true destroy_manager m) { tm_handle = none } else m

  -- `_block_bytes`.
  abbrev pub block_bytes : Config T → ℕ
  block_bytes c = 2 * c.n_kv_heads * c.block_size * c.head_dim * c.itemsize

  abbrev pub is_on : Tier → KvCacheManager T → ℕ → Bool
  is_on t m i = same_tier (m.heap i).tier t

  -- `for layer_blocks in self._blocks: for b in layer_blocks`.
  abbrev pub all_blocks : KvCacheManager T → List ℕ
  all_blocks m = flatten m.blocks

  abbrev pub count_on : Tier → KvCacheManager T → ℕ
  count_on t m = count (is_on t m) (all_blocks m)

  unfoldable pub gpu_kv_bytes : KvCacheManager T → ℕ
  gpu_kv_bytes m = count_on gpu m * block_bytes m.config

  -- `step_done`.
  pub step_done : KvCacheManager T → KvCacheManager T
  step_done m = call_if (has_handle m) end_step (record m { step = m.step + 1 })

  -- What `_alloc_block` makes of the manager. `int(_C.GPU_HBM)` is 0.
  abbrev pub allocated : KvCacheManager T → ℕ → List ℕ → ℕ → KvCacheManager T
  allocated m layer ids token_start =
      let bid = m.next_block_id in
      let sink = ltb token_start m.sink_tokens in
      call_if (has_handle m) (register_block_id bid (flags_of sink) 0) (record m {
        next_block_id = bid + 1;
        blocks = set m.blocks layer (ids ++ bid ∷ []);
        heap = update m.heap bid (record no_block {
          layer = layer;
          token_start = token_start;
          capacity = m.block_size;
          is_sink = sink;
        });
        migrations = record m.migrations { total_blocks = m.migrations.total_blocks + 1 };
      })

  -- `_alloc_block`: the manager, and the address of the new block.
  unfoldable pub alloc_block : KvCacheManager T → ℕ → ℕ → Result (KvCacheManager T × ℕ)
  alloc_block m layer token_start = do
    ids ← ok_or index_error (get_elem? m.blocks layer)
    ok (allocated m layer ids token_start, m.next_block_id)
