-- ===== src/Fast.antt =====
-- python/orchkv/fast_kvcache_manager.py: `FastKVCacheManager`, which keeps each layer in one buffer
-- and copies the blocks that the core scores lowest to host memory.
--
-- Its buffers, ranges, copies and counts are those of `FastFIFOManager`, and so is the code of
-- `_grow_buffers`, `_restore_evicted_blocks`, `build_past_kv`, `gpu_kv_bytes` and of the
-- two loops over the layers: `base` holds that state, with a queue that nothing here reads.
pub mod Schedule
pub mod Reports
pub mod Session
use orch_kv_cache.Prelude.{
  ℕ, zero, suc, ◌+◌, ◌*◌, ◌/◌, ◌%◌, ◌==◌, Bool, true, false, not, ◌&&◌, Option, none, some, List,
  [], ◌∷◌, Result, ok, err, index_error, zero_division_error, ◌>>=◌, ◌>>◌, guard, is_some,
  if◌then◌else◌, length, take, keep, tabulate, ltb, leb, min,
}
use orch_kv_cache.Prelude.Budget.{BudgetTest}
use orch_kv_cache.Prelude.Heap.{update}
use orch_kv_cache.Prelude.Sorting.{sort}
use orch_kv_cache.Manager.{
  TmCall, destroy_manager, register_block_id, report_attn, report_qk, end_step, set_usage,
  schedule_once, Usage, resident, no_budget, flags_of, is_nonzero,
}
use orch_kv_cache.Fifo.{
  FifoConfig, FifoManager, new_fifo, n_blocks, n_evicted, fifo_gpu_bytes, evict_block, evicted_bids,
  is_in, restore_evicted_blocks, rows,
}
use orch_kv_cache.Fifo.Write.{append_rows, make_room, ingest_rows, grow_buffers}
use Prim.Native.String.{String}

pub record FastManager {ℓ} (T : Type ℓ) : Type ℓ where
  pub base : FifoManager T
  pub open base use *
  pub ssd_dir : Option String
  pub core : Bool  -- `_C is not None`
  pub tm_handle : Option ℕ
  pub tm_calls : List TmCall
  -- A score is a weighted sum of those reported for the block: the reports, the latest first.
  pub block_scores : ℕ → List TmCall

module _ {ℓ} {T : Type ℓ} where
  -- `__init__`, with the handle that `tm_create` returns if `orchkv_core` is there.
  unfoldable pub new_fast : FifoConfig T → ℕ → Option String → Option ℕ → FastManager T
  new_fast c max_seq_len ssd_dir handle = record {
    base = new_fifo c max_seq_len;
    ssd_dir = ssd_dir;
    core = is_some handle;
    tm_handle = handle;
    tm_calls = [];
    block_scores = λ bid. [];
  }

  -- `self._tm_handle is not None and _C is not None`.
  abbrev pub fast_has_handle : FastManager T → Bool
  fast_has_handle m = is_some m.tm_handle && m.core

  -- `self._tm_handle and _C`.
  abbrev pub fast_truthy_handle : FastManager T → Bool
  fast_truthy_handle m = is_nonzero m.tm_handle && m.core

  -- A call of `orchkv_core` behind a test.
  abbrev pub tell : Bool → TmCall → FastManager T → FastManager T
  tell b call m = record m { tm_calls = if b then call ∷ m.tm_calls else m.tm_calls }

  -- `destroy`.
  pub fast_destroy : FastManager T → FastManager T
  fast_destroy m =
      if fast_has_handle m then record (tell true destroy_manager m) { tm_handle = none } else m

  -- `gpu_kv_bytes`.
  abbrev pub fast_gpu_bytes : FastManager T → Result ℕ
  fast_gpu_bytes m = fifo_gpu_bytes m.base

  abbrev pub with_base : FastManager T → FifoManager T → FastManager T
  with_base m base = record m { base = base }

  -- `flags = 1 if start < self.sink_tokens else 0`, and the call with them.
  abbrev pub register_at : FastManager T → ℕ → ℕ → FastManager T
  register_at m bid start =
      tell true (register_block_id bid (flags_of (ltb start m.sink_tokens)) 0) m

  -- The loop of `ingest_step` over the blocks, from `bid` on, for `n` blocks.
  unfoldable pub register_blocks : ℕ → FastManager T → ℕ → FastManager T
  register_blocks zero m bid = m
  register_blocks (suc n) m bid =
      register_blocks n (register_at m bid (bid * m.block_size)) (bid + 1)

  -- The end of `ingest_step`.
  unfoldable pub register_all : FastManager T → Result (FastManager T)
  register_all m =
      if fast_truthy_handle m
      then (do
        n ← n_blocks m.base
        let m' = register_blocks n m 0
        ok (with_base m' (record m'.base { total_blocks = n * m.n_layers })))
      else ok m

  -- `self._total_tokens = legacy[0][0].shape[2]`.
  abbrev pub first_length : List (List T) → Result ℕ
  first_length [] = err index_error
  first_length (kv ∷ rest) = ok (length kv)

  -- `ingest_step`.
  unfoldable pub fast_ingest : FastManager T → List (List T) → Result (FastManager T)
  fast_ingest m legacy = do
    base ← ingest_rows m.base 0 legacy
    len ← first_length legacy
    register_all (with_base m (record base { total_tokens = len }))

  -- `append_token`.
  unfoldable pub fast_append : FastManager T → List (List T) → Result (FastManager T)
  fast_append m legacy = do
    let pos = m.total_tokens
    base ← append_rows (make_room m.base pos) pos 0 legacy
    guard (not (m.block_size == 0)) zero_division_error
    let m' = with_base m (record base { total_tokens = pos + 1 })
    ok (
        if pos % m.block_size == 0 && fast_truthy_handle m
        then register_at m' (pos / m.block_size) pos
        else m')

  -- `_grow_buffers`.
  pub fast_grow : FastManager T → ℕ → FastManager T
  fast_grow m new_max = with_base m (grow_buffers m.base new_max)

  -- `_restore_evicted_blocks`.
  unfoldable pub fast_restore : FastManager T → Result (FastManager T)
  fast_restore m = do base ← restore_evicted_blocks m.base; ok (with_base m base)

  -- `build_past_kv`; it reads the number of tokens first, which restoring leaves alone.
  unfoldable pub fast_build : FastManager T → Result (FastManager T × List (List T))
  unfolding fast_restore
  fast_build m = do m' ← fast_restore m; ok (m', rows m'.base)

  -- `tm_report_attn` of a block, and its entry of `_block_scores`.
  abbrev pub report_score : FastManager T → ℕ → TmCall → FastManager T
  report_score m bid call = record (tell true call m) {
    block_scores = update m.block_scores bid (call ∷ m.block_scores bid);
  }

  -- The loop of `report_attention`, for weights over `kv_len` tokens.
  unfoldable pub fast_report_blocks : ℕ → ℕ → FastManager T → ℕ → FastManager T
  fast_report_blocks zero kv_len m bid = m
  fast_report_blocks (suc n) kv_len m bid = elim (leb kv_len (bid * m.block_size)) [
    | true ↦ m
    | false ↦
        let start = bid * m.block_size in
        let end = min (min (start + m.block_size) m.total_tokens) kv_len in
        fast_report_blocks n kv_len (report_score m bid (report_attn bid start end)) (bid + 1)
  ]

  unfoldable pub fast_report_attention : FastManager T → ℕ → Result (FastManager T)
  fast_report_attention m kv_len =
      if fast_has_handle m
      then (do n ← n_blocks m.base; ok (fast_report_blocks n kv_len m 0))
      else ok m

  -- The loop of `report_qk_norm`.
  unfoldable pub qk_blocks : ℕ → FastManager T → ℕ → FastManager T
  qk_blocks zero m bid = m
  qk_blocks (suc n) m bid =
      let start = bid * m.block_size in
      let end = min (start + m.block_size) m.total_tokens in
      qk_blocks n (report_score m bid (report_qk bid start end)) (bid + 1)

  -- `report_qk_norm`, for a query whose shape fits the keys: `n_q_heads // self.n_kv_heads` only
  -- chooses among its heads.
  unfoldable pub report_qk_norm : FastManager T → ℕ → Result (FastManager T)
  report_qk_norm m layer =
      if fast_has_handle m && not (m.total_tokens == 0)
      then (do
        guard (not (m.n_kv_heads == 0)) zero_division_error
        guard (ltb layer m.n_layers) index_error
        n ← n_blocks m.base
        ok (qk_blocks n m 0))
      else ok m

  -- `step_done`.
  unfoldable pub fast_step_done : FastManager T → FastManager T
  fast_step_done m =
      tell (fast_truthy_handle m) end_step (with_base m (record m.base { step = m.step + 1 }))

  -- The blocks that may be evicted, of `n`.
  abbrev pub fast_candidates : FastManager T → ℕ → List ℕ
  fast_candidates m n =
      keep
        (λ bid.
          not (is_in bid (evicted_bids m.base)) && not (ltb (bid * m.block_size) m.sink_tokens))
        (tabulate (λ bid. bid) n 0)

-- What the core's `tm_get_block_score` says, if it has that function: whether the score of one
-- block is at most that of another, after the calls made so far.
abbrev pub CoreScores : Type 0
CoreScores = Option (List TmCall → ℕ → ℕ → Bool)

abbrev pub order_of {ℓ} : {T : Type ℓ} → CoreScores → FastManager T → ℕ → ℕ → Bool
order_of none m = leb
order_of (some colder) m = if fast_truthy_handle m then colder m.tm_calls else leb

module _ {ℓ} (tests : BudgetTest) (scores : CoreScores) {T : Type ℓ} where
  -- The loop of `_evict_cold_blocks`, with the number of evicted blocks.
  unfoldable pub fast_evict_loop : FastManager T → List ℕ → Result (FastManager T × ℕ)
  fast_evict_loop m [] = ok (m, 0)
  fast_evict_loop m (bid ∷ bids) = do
    base ← evict_block m.base bid
    bytes ← fifo_gpu_bytes base
    elim (tests.at_most bytes base.gpu_budget_bytes 85) [
      | true ↦ ok (with_base m base, 1)
      | false ↦ do (m', n) ← fast_evict_loop (with_base m base) bids; ok (m', n + 1)
    ]

  -- `_evict_cold_blocks`.
  unfoldable pub fast_evict : FastManager T → Result (FastManager T × ℕ)
  fast_evict m = do
    n ← n_blocks m.base
    fast_evict_loop m (take 8 (sort (order_of scores m) (fast_candidates m n)))

  -- `schedule` past its first test, with the ratio that it reports.
  unfoldable pub fast_cycle : FastManager T → Result (FastManager T × Usage)
  fast_cycle m = do
    n ← n_blocks m.base
    let total = n * m.n_layers
    let usage = if ltb 0 total then resident (n_evicted m.base) total else no_budget
    let told = tell true schedule_once (tell true (set_usage usage) m)
    let m' = with_base told (record told.base { evictions_this_step = 0 })
    if m.gpu_budget_bytes == 0 then ok (m', usage) else (do
      bytes ← fast_gpu_bytes m'
      if tests.at_most bytes m.gpu_budget_bytes 85
          then ok (m', usage)
          else (do (m'', evicted) ← fast_evict m'; ok (m'', usage)))

  -- `schedule`; without a handle it returns an empty dict.
  unfoldable pub fast_schedule : FastManager T → Result (FastManager T × Option (ℕ × Usage))
  fast_schedule m =
      if fast_has_handle m
      then (do (m', usage) ← fast_cycle m; ok (m', some (m'.step, usage)))
      else ok (m, none)
