-- ===== src/Connector/Worker.antt =====
-- `OrchKvConnectorWorker`: the copies between the GPU and host memory.
--
-- Copies are queued on a stream and take effect in their order when the stream, or an event of it,
-- is waited for. A copy from the GPU has the value that the block has at the call, since vLLM
-- leaves the blocks alone until `wait_for_save`; a copy to the GPU reads its buffer when
-- it takes effect. A buffer stands at an address, so that one that is freed while a
-- copy to it is queued is written, but not found any more. The lock orders the threads that
-- use the dict, and the calls below are one after the other. vLLM registers its caches once.
pub mod Saved
pub mod Transfer
use orch_kv_cache.Prelude.{
  ℕ, zero, suc, ◌+◌, ◌-◌, ◌*◌, ◌^◌, Bool, true, false, not, ◌&&◌, ◌||◌, Option, none, some, List,
  [], ◌∷◌, ◌++◌, Result, ok, index_error, ◌>>=◌, if◌then◌else◌, length, get_elem?, set, sum_map,
  ok_or, option_or,
}
use orch_kv_cache.Prelude.Dict.{Key, find, put, without, nat_key, pair_key}
use orch_kv_cache.Prelude.Heap.{update}
use orch_kv_cache.Connector.{ConnectorMetadata, OrchkvCfg}

-- The calls of `orchkv_core`, with the fields of the configuration that are set.
pub data CoreCall : Type 0 where
  init_core :
      (gpu_pool_bytes dram_pool_bytes d_head tokens_per_block num_cuda_streams io_workers : ℕ)
      → CoreCall
  shutdown_core : CoreCall

-- A copy of a buffer to a block of a layer.
pub record Load {ℓ} (K : Type ℓ) : Type ℓ where
  pub layer : K
  pub block : ℕ
  pub buffer : ℕ

pub record Worker {ℓ} (K B : Type ℓ) : Type ℓ where
  pub orchkv_cfg : OrchkvCfg
  pub core : Bool  -- `_C is not None`
  pub core_calls : List CoreCall
  pub initialized : Bool
  pub unset : B  -- what `torch.empty_like` leaves
  pub kv_caches : List (K × List B)
  pub dram_buffers : List ((K × ℕ) × ℕ)
  pub host : ℕ → B
  pub next_buffer : ℕ
  pub save_stream : List (ℕ × B)
  pub load_stream : List (Load K)
  pub loads_done : ℕ  -- the copies of `load_stream` that have taken effect and left it
  pub load_events : List (K × ℕ)  -- an event is the number of copies queued before it
  pub pending_saves : List (K × ℕ)
  pub pending_loads : List (K × ℕ)
  pub save_count : ℕ
  pub load_count : ℕ

abbrev pub ids_to_save {ℓ} :
    {K : Type ℓ} ⦃key : Key K⦄ → ConnectorMetadata K → K → Option (List ℕ) → List ℕ
ids_to_save meta layer none = option_or (find layer meta.blocks_to_save) []
ids_to_save meta layer (some ids) = ids

-- The copies of the save stream take effect.
abbrev pub run_saves {ℓ} : {B : Type ℓ} → (ℕ → B) → List (ℕ × B) → ℕ → B
run_saves host [] = host
run_saves host (copy ∷ copies) = run_saves (update host copy.0 copy.1) copies

module _ {ℓ} {K B : Type ℓ} ⦃key : Key K⦄ where
  -- `__init__`.
  unfoldable pub new_worker : OrchkvCfg → Bool → B → Worker K B
  new_worker cfg core unset = record {
    orchkv_cfg = cfg;
    core = core;
    core_calls = [];
    initialized = false;
    unset = unset;
    kv_caches = [];
    dram_buffers = [];
    host = λ a. unset;
    next_buffer = 0;
    save_stream = [];
    load_stream = [];
    loads_done = 0;
    load_events = [];
    pending_saves = [];
    pending_loads = [];
    save_count = 0;
    load_count = 0;
  }

  -- `_ensure_init`.
  unfoldable pub ensure_init : Worker K B → Worker K B
  ensure_init w = if w.initialized || not w.core then w else record w {
    core_calls =
        init_core 0 (option_or w.orchkv_cfg.dram_pool_bytes (8 * 2 ^ 30))
          (option_or w.orchkv_cfg.d_head 128) (option_or w.orchkv_cfg.tokens_per_block 16)
          (option_or w.orchkv_cfg.num_cuda_streams 4) (option_or w.orchkv_cfg.io_workers 4)
        ∷ w.core_calls;
    initialized = true;
  }

  -- `register_kv_caches`.
  unfoldable pub register_kv_caches : Worker K B → List (K × List B) → Worker K B
  unfolding ensure_init
  register_kv_caches w kv_caches = ensure_init (record w { kv_caches = kv_caches })

  -- The buffer of a block, a new one if it has none.
  abbrev pub buffer_or_new : Worker K B → K × ℕ → Option ℕ → Worker K B × ℕ
  buffer_or_new w buf_key (some a) = (w, a)
  buffer_or_new w buf_key none = (
    record w {
      dram_buffers = put buf_key w.next_buffer w.dram_buffers;
      host = update w.host w.next_buffer w.unset;
      next_buffer = w.next_buffer + 1;
    },
    w.next_buffer,
  )

  abbrev pub ensure_buffer : Worker K B → K × ℕ → Worker K B × ℕ
  ensure_buffer w buf_key = buffer_or_new w buf_key (find buf_key w.dram_buffers)

  -- The body of the loop of `save_kv_layer`.
  unfoldable pub save_block : Worker K B → K → List B → ℕ → Result (Worker K B)
  save_block w layer kv_layer bid = do
    src ← ok_or index_error (get_elem? kv_layer bid)
    let (w', a) = ensure_buffer w (layer, bid)
    ok (record w' {
      save_stream = w'.save_stream ++ (a, src) ∷ [];
      pending_saves = w'.pending_saves ++ (layer, bid) ∷ [];
    })

  unfoldable pub save_blocks : Worker K B → K → List B → List ℕ → Result (Worker K B)
  save_blocks w layer kv_layer [] = ok w
  save_blocks w layer kv_layer (bid ∷ ids) = do
    w' ← save_block w layer kv_layer bid
    save_blocks w' layer kv_layer ids

  -- `save_kv_layer`.
  unfoldable pub save_kv_layer :
      Worker K B → K → List B → ConnectorMetadata K → Option (List ℕ) → Result (Worker K B)
  save_kv_layer w layer kv_layer meta block_ids = do
    let ids = ids_to_save meta layer block_ids
    w' ← save_blocks w layer kv_layer ids
    ok (record w' { save_count = w'.save_count + length ids })

  abbrev pub sync_saves : Worker K B → Worker K B
  sync_saves w = record w { host = run_saves w.host w.save_stream; save_stream = [] }

  -- `wait_for_save`.
  unfoldable pub wait_for_save : Worker K B → Worker K B
  wait_for_save w = record (sync_saves w) { pending_saves = [] }

  -- The body of the inner loop of `start_load_kv`; a block without a buffer is passed over.
  abbrev pub load_from : Worker K B → K → List B → ℕ → Option ℕ → Result (Worker K B)
  load_from w layer kv_layer bid none = ok w
  load_from w layer kv_layer bid (some a) = do
    block ← ok_or index_error (get_elem? kv_layer bid)
    ok (record w {
      load_stream = w.load_stream ++ record { layer = layer; block = bid; buffer = a } ∷ [];
      pending_loads = w.pending_loads ++ (layer, bid) ∷ [];
    })

  unfoldable pub load_block : Worker K B → K → List B → ℕ → Result (Worker K B)
  load_block w layer kv_layer bid =
      load_from w layer kv_layer bid (find (layer, bid) w.dram_buffers)

  unfoldable pub load_blocks : Worker K B → K → List B → List ℕ → Result (Worker K B)
  load_blocks w layer kv_layer [] = ok w
  load_blocks w layer kv_layer (bid ∷ ids) = do
    w' ← load_block w layer kv_layer bid
    load_blocks w' layer kv_layer ids

  -- The body of the outer loop; a layer that is not registered is passed over.
  unfoldable pub load_cache : Worker K B → K → List ℕ → Option (List B) → Result (Worker K B)
  load_cache w layer ids none = ok w
  load_cache w layer ids (some kv_layer) = do
    w' ← load_blocks w layer kv_layer ids
    ok (record w' {
      load_events = put layer (w'.loads_done + length w'.load_stream) w'.load_events;
    })

  unfoldable pub load_layer : Worker K B → K → List ℕ → Result (Worker K B)
  unfolding load_cache
  load_layer w layer ids = load_cache w layer ids (find layer w.kv_caches)

  unfoldable pub load_layers : Worker K B → List (K × List ℕ) → Result (Worker K B)
  load_layers w [] = ok w
  load_layers w ((layer, ids) ∷ rest) = do w' ← load_layer w layer ids; load_layers w' rest

  -- `start_load_kv`.
  unfoldable pub start_load_kv : Worker K B → ConnectorMetadata K → Result (Worker K B)
  start_load_kv w meta = do
    w' ← load_layers w meta.blocks_to_load
    ok (record w' { load_count = w'.load_count + sum_map (λ e. length e.1) meta.blocks_to_load })

  -- A copy to the GPU takes effect.
  abbrev pub run_into : Worker K B → Load K → Option (List B) → Worker K B
  run_into w copy none = w
  run_into w copy (some kv_layer) = record w {
    kv_caches = put copy.layer (set kv_layer copy.block (w.host copy.buffer)) w.kv_caches;
  }

  unfoldable pub run_load : Worker K B → Load K → Worker K B
  run_load w copy = run_into w copy (find copy.layer w.kv_caches)

  -- The first `n` copies of the load stream take effect.
  unfoldable pub sync_loads : ℕ → Worker K B → List (Load K) → Worker K B
  sync_loads zero w copies = record w { load_stream = copies }
  sync_loads (suc n) w [] = record w { load_stream = [] }
  sync_loads (suc n) w (copy ∷ copies) =
      let w' = run_load w copy in sync_loads n (record w' { loads_done = w'.loads_done + 1 }) copies

  -- `wait_for_layer_load`.
  unfoldable pub wait_for_event : Worker K B → K → Option ℕ → Worker K B
  wait_for_event w layer none = w
  wait_for_event w layer (some event) =
      let w' = record w { load_events = without layer w.load_events } in
      sync_loads (event - w.loads_done) w' w.load_stream

  unfoldable pub wait_for_layer_load : Worker K B → K → Worker K B
  unfolding wait_for_event
  wait_for_layer_load w layer = wait_for_event w layer (find layer w.load_events)

  -- `free_blocks`.
  unfoldable pub free_blocks : Worker K B → K → List ℕ → Worker K B
  free_blocks w layer [] = w
  free_blocks w layer (bid ∷ ids) =
      free_blocks (record w { dram_buffers = without (layer, bid) w.dram_buffers }) layer ids

  -- `shutdown`.
  unfoldable pub shutdown : Worker K B → Worker K B
  shutdown w =
      let s = sync_saves w in
      let l = sync_loads (length s.load_stream) s s.load_stream in
      let c = record l { dram_buffers = [] } in
      if c.initialized && c.core
      then record c { core_calls = shutdown_core ∷ c.core_calls; initialized = false }
      else c

-- `get_stats`.
pub record WorkerStats : Type 0 where
  pub save_count : ℕ
  pub load_count : ℕ
  pub dram_buffers : ℕ

abbrev pub worker_stats {ℓ} : {K B : Type ℓ} → Worker K B → WorkerStats
worker_stats w = record {
  save_count = w.save_count;
  load_count = w.load_count;
  dram_buffers = length w.dram_buffers;
}
