-- ===== src/Lib.antt =====
-- OrchKvCache: the KV-cache managers of python/orchkv, and what it puts into vLLM.
--
-- The program splits the key and value tensors of a transformer's forward passes into blocks of a
-- fixed number of tokens, moves the blocks between GPU memory, host memory and files, and puts
-- the tensors together again before the next forward pass. `KVCacheManager` of
-- python/orchkv/kvcache_manager.py is the part that does so for Hugging Face transformers; it
-- reports the attention that its blocks get to the C core `orchkv_core`, and runs a scheduling
-- cycle when it is told to. `NaiveOffloadManager` does it without the core, and two other
-- managers keep each layer in one buffer. For vLLM there are a connector, which copies blocks to
-- host memory and back, scorers, which choose the request to preempt, and hooks, which report the
-- attention that blocks get; vLLM calls them.
--
-- Files:
--   Prelude            the library names, Boolean tests, list functions and lemmas that all use;
--                      Prelude/Results: exceptions as values; Prelude/Sorting: a stable sort;
--                      Prelude/Slices: assignments to tensor slices; Prelude/Heap: stores as
--                      functions; Prelude/Budget: the tests against the GPU budget, an interface.
--   Manager            `KVBlock`, the state of `KVCacheManager`, `__init__`, `destroy`,
--                      `gpu_kv_bytes`, `step_done`, `_alloc_block`
--   Manager/Moves      `_demote_block`, `_promote_block`, `_save_to_ssd`, `_load_from_ssd`
--   Manager/Ingest     `ingest_step`, `_ingest_layer`, `append_token`
--   Manager/Build      `build_past_kv`
--   Manager/Schedule   `report_attention`, `schedule`, `_evict_cold_blocks`,
--                      `_promote_warm_blocks`, `_spill_dram_to_ssd`; Manager/Schedule/Evicted:
--                      what `_evict_cold_blocks` moves
--   Manager/Stats      `get_stats`
--   Manager/Registration  the binding `tm_register_block_id` of bindings/orchkv_pybind.cpp
--   Manager/Invariant  the tokens that a manager holds, and the invariant of its states
--   Manager/Session    the methods called in any order
--   Fifo               `FastFIFOManager` of python/orchkv/fast_fifo_manager.py, which keeps each
--                      layer in one buffer: its state, `schedule`, `_evict_fifo`,
--                      `_restore_evicted_blocks`, `build_past_kv`; Fifo/Copies, Fifo/Eviction
--                      and Fifo/Schedule: what these do to the buffers and the copies
--   Fifo/Write         `ingest_step`, `append_token`, `_grow_buffers` of it; below: the proofs
--   Fifo/Session       its methods called in any order
--   Fast               `FastKVCacheManager` of python/orchkv/fast_kvcache_manager.py, over the same
--                      buffers, with evictions in the order of the core's scores; Fast/Schedule,
--                      Fast/Reports and Fast/Session: its cycles, its reports to the core, and
--                      its methods called in any order
--   Naive              `NaiveOffloadManager` of python/orchkv/kvcache_manager.py, which evicts the
--                      first blocks; Naive/Schedule: its `schedule`; Naive/Plain and
--                      Naive/Simulation: it is seen as a `KVCacheManager` without files, sinks
--                      and calls of the core; Naive/Append, Naive/Build and Naive/Session: its
--                      methods called in any order
--   Connector          python/orchkv/vllm_integration/connector.py: Connector/Worker, the copies,
--                      in Connector/Worker/Saved those to host memory, and in
--                      Connector/Worker/Transfer the round trip; Connector/Scheduler, what is to
--                      be copied, and in Connector/Scheduler/Plan what comes of it;
--                      Connector/Roles, the class that vLLM calls, in Connector/Roles/Sides what
--                      it refuses, and in Connector/Roles/Runs its methods in any order
--   BlockSwap          python/orchkv/vllm_integration/block_level_swap.py: BlockSwap/Hotness, the
--                      averages of the first version; BlockSwap/Registry, the scores by position;
--                      BlockSwap/Scorers, the scorers; BlockSwap/Install, what the patched
--                      scheduler of vLLM does with one
--   AttentionHook      python/orchkv/vllm_integration/attention_hook.py: the collector, and in
--                      AttentionHook/Reports what it counts; AttentionHook/Modules, the hooks on a
--                      model's modules, and in its child what they do to a call
--   EnginePatch        python/orchkv/vllm_integration/engine_patch.py: the registration
--   BlockSwap/Patch    `apply_scheduler_patch` of block_level_swap.py, on texts; below: searches in a
--                      text that is put together, and what the calls leave in the files
--   CacheSim           benchmarks/exp_competitive_ratio.py: whom its strategies evict; CacheSim/Ema and
--                      CacheSim/Strategies: the classes; CacheSim/Victims, CacheSim/Spared and
--                      CacheSim/Belady: the choices; CacheSim/Bounds: what the runs keep
--   Paging             benchmarks/exp_trace_driven_cr.py: its simulations of paging; Paging/Stack and
--                      Paging/Queue: descriptions of LRU and FIFO; Paging/Future: the next uses
--   Baseline           benchmarks/exp_fair_baseline.py: text generated with a manager and without, over
--                      an interface of managers; Baseline/Matches: its laws and what follows;
--                      Baseline/Managers: the managers that fill it
--   Prelude/Sets       Python's sets of numbers
--   Prelude/Dict, Prelude/Float   dicts in the order of insertion; floats, an interface
--   Tests              runs on small configurations, a child for each component
--
-- How the model stands for the code:
--   - A token of one layer, its key slice and its value slice over all heads, is one value of a
--     type `T`. A layer of `past_key_values` is a list of tokens, a block tensor a list of
--     `block_size` slots. The batch is one sequence, which is what the code reads (`key[0, …]`).
--     A layer's two tensors have the same length.
--   - Block objects are shared between `_blocks`, the candidate lists and local variables: they
--     stand in a store at the address `block_id`, and the lists hold addresses.
--   - Files are a function of the number in their name. No other process removes or changes a
--     file; a missing file is `none`, and `_load_from_ssd` returns then, as in the code. Its copy
--     of the bytes gives back the tensor that was written.
--   - `orchkv_core` is not modelled: the calls of it are recorded, the latest first, with their
--     arguments in the order in which the source passes them, and what `tm_get_stats` returns is
--     taken as a function of the calls so far.
--   - The comparisons with a share of the budget multiply with a floating-point number. They are
--     an interface, `BudgetTest`, with the two laws that the theorems need.
--   - A method that can raise returns a `Result`. The state that it leaves when it raises is not
--     kept, and no theorem is about it. Torch lets a source of one slot fill a longer slice; the
--     source is never that short where the code assigns, and the model does not have it.
--   - `range(new_start, seq_len, block_size)` runs on fuel, the length of the tensor; every round
--     moves on by `block_size`, which is not 0 (`range` raises on 0), so it is enough, which the
--     theorems on `ingest_step` show: the result holds every token.
--   - `build_past_kv` of `FastFIFOManager` returns views of its buffers; the model has their values
--     at the return, and the tensors of the next call are new ones, as `DynamicCache` makes them.
--   - A CUDA stream is a queue of copies, which take effect in their order when the stream or an
--     event of it is waited for. Calls of the connector come one after the other.
--   - The core's order of blocks by score is a parameter, a function of the calls made so far. The
--     order in which a Python set gives its members is one too, and may be another at each loop.
--   - A text is the list of its code points; of the files that `apply_scheduler_patch` touches there
--     are the scheduler and two copies. A language model is a function of its flag, tokens and
--     tensors; that it returns the tensors with the new tokens behind them is a hypothesis.
--   - Floats are an interface of operations; of `<` the theorems use that it is irreflexive and
--     transitive, as it is on doubles.
--   - The weights that `create_scorer` and `install_block_scoring` can be given as further keywords
--     are not modelled; nothing in the repository passes them.
--   - `get_stats` divides sizes by 2 ^ 20 for display; the model keeps the bytes.
--
-- Not modelled: the conversion between `DynamicCache` and tuples, devices, pinned memory, logging
-- and `__repr__`; `get_stats` of the other managers than `KVCacheManager`, which only
-- reads; the C and CUDA core under src; the benchmarks, experiments and figures but for the three
-- scripts above, which measure, draw random traces and plot.
pub mod Prelude
pub mod Manager
pub mod Fifo
pub mod Fast
pub mod Naive
pub mod Connector
pub mod BlockSwap
pub mod AttentionHook
pub mod EnginePatch
pub mod Paging
pub mod CacheSim
pub mod Baseline
pub mod Tests
