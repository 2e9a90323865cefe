-- ===== src/Fifo.antt =====
-- python/orchkv/fast_fifo_manager.py: `FastFIFOManager`, which keeps each layer in one buffer and
-- copies blocks to host memory in the order in which they came.
--
-- A token of one layer is its key slice and its value slice, as in Manager; a buffer of a layer
-- stands for `_key_bufs[li]` and `_val_bufs[li]`. The lists over the layers are functions of the
-- layer; only the indices below `n_layers` are in them. Python's sizes may be negative where
-- the difference in `gpu_kv_bytes` stops at 0; the tests against a positive budget answer the same.
pub mod Copies
pub mod Eviction
pub mod Schedule
pub mod Write
pub mod Session
use orch_kv_cache.Prelude.{
  ℕ, zero, suc, ◌+◌, ◌-◌, ◌*◌, ◌/◌, ◌%◌, ◌==◌, Bool, true, false, ◌&&◌, ◌||◌, not, Option, none,
  some, List, [], ◌∷◌, ◌++◌, map, Result, ok, err, index_error, zero_division_error, ◌>>=◌,
  if◌then◌else◌, length, take, replicate, sum_map, flatten, tabulate, ltb, leb, min,
}
use orch_kv_cache.Prelude.Budget.{BudgetTest}
use orch_kv_cache.Prelude.Heap.{update}
use orch_kv_cache.Prelude.Slices.{slice, assign, assign_slot, last_slot}

pub record FifoConfig {ℓ} (T : Type ℓ) : Type ℓ where
  pub n_layers : ℕ
  pub n_kv_heads : ℕ
  pub head_dim : ℕ
  pub block_size : ℕ
  pub itemsize : ℕ  -- of `dtype`
  pub zeros : T  -- a slot of `torch.zeros(…, dtype)`
  pub unset : T  -- a slot of `torch.empty(…, dtype)`
  pub gpu_budget_bytes : ℕ
  pub sink_tokens : ℕ

pub record FifoManager {ℓ} (T : Type ℓ) : Type ℓ where
  pub config : FifoConfig T
  pub open config use *
  pub max_seq_len : ℕ
  pub total_tokens : ℕ
  pub step : ℕ
  pub bufs : ℕ → List T
  pub evicted_ranges : ℕ → List (ℕ × ℕ)
  pub dram_store : (layer start end : ℕ) → Option (List T)
  pub fifo_queue : List ℕ
  pub gpu_to_dram : ℕ
  pub dram_to_gpu : ℕ
  pub total_blocks : ℕ
  pub evictions_this_step : ℕ

-- The number of slots in `data[:, :, :end - start]`: a negative bound counts from the end.
abbrev pub span : ℕ → ℕ → ℕ → ℕ
span block_size start end =
    if leb start end then min block_size (end - start) else block_size - (start - end)

abbrev pub is_in : ℕ → List ℕ → Bool
is_in b [] = false
is_in b (c ∷ cs) = b == c || is_in b cs

module _ {ℓ} {T : Type ℓ} where
  -- `__init__`.
  unfoldable pub new_fifo : FifoConfig T → ℕ → FifoManager T
  new_fifo c max_seq_len = record {
    config = c;
    max_seq_len = max_seq_len;
    total_tokens = 0;
    step = 0;
    bufs = λ li. replicate max_seq_len c.zeros;
    evicted_ranges = λ li. [];
    dram_store = λ li start end. none;
    fifo_queue = [];
    gpu_to_dram = 0;
    dram_to_gpu = 0;
    total_blocks = 0;
    evictions_this_step = 0;
  }

  -- `(self._total_tokens + self.block_size - 1) // self.block_size`.
  abbrev pub n_blocks : FifoManager T → Result ℕ
  n_blocks m =
      if m.block_size == 0
      then err zero_division_error
      else ok ((m.total_tokens + m.block_size - 1) / m.block_size)

  abbrev pub n_evicted : FifoManager T → ℕ
  n_evicted m = sum_map (λ li. length (m.evicted_ranges li)) (tabulate (λ li. li) m.n_layers 0)

  abbrev pub fifo_block_bytes : FifoConfig T → ℕ
  fifo_block_bytes c = 2 * c.n_kv_heads * c.block_size * c.head_dim * c.itemsize

  -- `gpu_kv_bytes`.
  unfoldable pub fifo_gpu_bytes : FifoManager T → Result ℕ
  fifo_gpu_bytes m = do
    n ← n_blocks m
    ok ((n * m.n_layers - n_evicted m) * fifo_block_bytes m.config)

  -- One entry of `_dram_store` set or deleted.
  abbrev pub put_copy : FifoManager T → ℕ → ℕ → ℕ → Option (List T) → FifoManager T
  put_copy m li start end v = record m {
    dram_store = λ l s e. if l == li && (s == start && e == end) then v else m.dram_store l s e;
  }

  -- The body of the loop of `_evict_fifo` over the layers.
  unfoldable pub evict_layer : FifoManager T → ℕ → ℕ → ℕ → Result (FifoManager T)
  evict_layer m li start end = do
    data_ ←
        assign (replicate m.block_size m.unset) 0 (span m.block_size start end)
          (slice start end (m.bufs li))
    ok (record (put_copy m li start end (some data_)) {
      evicted_ranges = update m.evicted_ranges li (m.evicted_ranges li ++ (start, end) ∷ []);
      gpu_to_dram = m.gpu_to_dram + 1;
    })

  -- That loop, from the layer `li` on, for `n` layers.
  unfoldable pub evict_layers : ℕ → FifoManager T → ℕ → ℕ → ℕ → Result (FifoManager T)
  evict_layers zero m li start end = ok m
  evict_layers (suc n) m li start end = do
    m' ← evict_layer m li start end
    evict_layers n m' (li + 1) start end

  -- One entry of the queue, past the two tests.
  unfoldable pub evict_block : FifoManager T → ℕ → Result (FifoManager T)
  evict_block m bid = do
    let start = bid * m.block_size
    m' ← evict_layers m.n_layers m 0 start (min (start + m.block_size) m.total_tokens)
    ok (record m' { evictions_this_step = m'.evictions_this_step + 1 })

  -- `evicted_bids`.
  abbrev pub evicted_bids : FifoManager T → List ℕ
  evicted_bids m =
      flatten (tabulate (λ li. map (λ r. r.0 / m.block_size) (m.evicted_ranges li)) m.n_layers 0)

  -- The body of the loop of `_restore_evicted_blocks`.
  unfoldable pub restore_range : FifoManager T → ℕ → ℕ × ℕ → Result (FifoManager T)
  restore_range m li r = elim (m.dram_store li r.0 r.1) [
    | none ↦ ok m
    | some data_ ↦ do
      buf ← assign (m.bufs li) r.0 (r.1 - r.0) (take (span m.block_size r.0 r.1) data_)
      ok (record (put_copy m li r.0 r.1 none) {
        bufs = update m.bufs li buf;
        dram_to_gpu = m.dram_to_gpu + 1;
      })
  ]

  unfoldable pub restore_ranges : FifoManager T → ℕ → List (ℕ × ℕ) → Result (FifoManager T)
  restore_ranges m li [] = ok (record m { evicted_ranges = update m.evicted_ranges li [] })
  restore_ranges m li (r ∷ rs) = do m' ← restore_range m li r; restore_ranges m' li rs

  unfoldable pub restore_layers : ℕ → FifoManager T → ℕ → Result (FifoManager T)
  restore_layers zero m li = ok m
  restore_layers (suc n) m li = do
    m' ← restore_ranges m li (m.evicted_ranges li)
    restore_layers n m' (li + 1)

  -- `_restore_evicted_blocks`.
  unfoldable pub restore_evicted_blocks : FifoManager T → Result (FifoManager T)
  restore_evicted_blocks m = restore_layers m.n_layers m 0

  -- The views that `build_past_kv` returns.
  abbrev pub rows : FifoManager T → List (List T)
  rows m = tabulate (λ li. take m.total_tokens (m.bufs li)) m.n_layers 0

  -- `build_past_kv`.
  unfoldable pub fifo_build : FifoManager T → Result (FifoManager T × List (List T))
  fifo_build m = do m' ← restore_evicted_blocks m; ok (m', rows m')

module _ {ℓ} (tests : BudgetTest) {T : Type ℓ} where
  -- The loop of `_evict_fifo`, of which `left` evictions are left.
  unfoldable pub evict_queue : List ℕ → FifoManager T → List ℕ → ℕ → Result (FifoManager T)
  evict_queue bids m [] left = ok (record m { fifo_queue = [] })
  evict_queue bids m (bid ∷ queue) zero = ok (record m { fifo_queue = bid ∷ queue })
  evict_queue bids m (bid ∷ queue) (suc left) =
      elim (is_in bid bids || ltb (bid * m.block_size) m.sink_tokens) [
        | true ↦ evict_queue bids m queue (suc left)
        | false ↦ do
          m' ← evict_block m bid
          bytes ← fifo_gpu_bytes m'
          elim (tests.at_most bytes m'.gpu_budget_bytes 70) [
            | true ↦ ok (record m' { fifo_queue = queue })
            | false ↦ evict_queue bids m' queue left
          ]
      ]

  -- `_evict_fifo`.
  abbrev pub evict_fifo : FifoManager T → Result (FifoManager T)
  evict_fifo m = evict_queue (evicted_bids m) m m.fifo_queue 8

  -- `schedule`, with the number in its answer, or nothing for an empty dict.
  unfoldable pub fifo_schedule : FifoManager T → Result (FifoManager T × Option ℕ)
  fifo_schedule m = if m.gpu_budget_bytes == 0 then ok (m, none) else (do
    bytes ← fifo_gpu_bytes m
    let m' = record m { evictions_this_step = 0 }
    m'' ← if tests.at_most bytes m.gpu_budget_bytes 85 then ok m' else evict_fifo m'
    ok (m'', some m''.step))
