-- ===== src/Tests/Connector.antt =====
-- Runs of the connector: layers and requests are named by numbers, a block's data is a number.
use orch_kv_cache.Prelude.{ℕ, ◌≡◌, refl, some, none, true, [], ◌∷◌, arith, ok}
use orch_kv_cache.Prelude.Dict.{find, nat_key}
use orch_kv_cache.Connector.{ConnectorMetadata, VllmConfig, cfg_of}
use orch_kv_cache.Connector.Worker.{Worker, new_worker, register_kv_caches, start_load_kv}
use orch_kv_cache.Connector.Scheduler.{
  SchedulerSide, new_scheduler, build_connector_meta, request_finished, handle_preemptions,
}
use orch_kv_cache.Connector.Scheduler.Plan.{Reachable, scheduler_never_loads, preemption_offloads}
use orch_kv_cache.Connector.Roles.{
  Connector, scheduler_role, new_connector, connector_preemptions, connector_shutdown,
}
use orch_kv_cache.Connector.Roles.Sides.{ActsAs}
use orch_kv_cache.Connector.Roles.Runs.{ConnectorRun, ConnectorRun-ActsAs}

-- Two layers.
abbrev two_layers : VllmConfig
two_layers = record {
  dram_pool_gb = none;
  extra_d_head = none;
  extra_tokens_per_block = none;
  extra_num_cuda_streams = none;
  extra_io_workers = none;
  extra_n_layers = none;
  head_dim = some 64;
  num_layers = some 2;
}

-- A worker with a cache of three blocks for layer 0.
abbrev ready : Worker ℕ ℕ
ready = register_kv_caches (new_worker (cfg_of two_layers) true 99) ((0, 7 ∷ 8 ∷ 9 ∷ []) ∷ [])

abbrev no_metadata_asked : ConnectorMetadata ℕ
no_metadata_asked = record { blocks_to_save = []; blocks_to_load = [] }

-- Request 5 finishes with the blocks 3 and 4.
abbrev remembered : SchedulerSide ℕ ℕ
remembered = request_finished (λ ids. ids) (new_scheduler (cfg_of two_layers)) 5 (3 ∷ 4 ∷ [])

remembered-Reachable : Reachable (λ l. l) (λ ids. ids) remembered
remembered-Reachable = Reachable.finished 5 (3 ∷ 4 ∷ []) (Reachable.made (cfg_of two_layers))

scheduler_never_loads_example :
    ((build_connector_meta remembered).1.blocks_to_load ≡ [])
    × (g : Worker ℕ ℕ) × (start_load_kv ready (build_connector_meta remembered).1 ≡ ok g)
    × (g.load_stream ≡ ready.load_stream)
    × (g.kv_caches ≡ ready.kv_caches)
scheduler_never_loads_example =
    scheduler_never_loads (λ l. l) (λ ids. ids) remembered ready remembered-Reachable

preemption_offloads_example :
    (find 1
        (build_connector_meta (handle_preemptions (λ l. l) remembered (5 ∷ []))).1.blocks_to_save
      ≡ some (3 ∷ 4 ∷ []))
    × ((build_connector_meta
          (build_connector_meta
            (handle_preemptions (λ l. l) remembered (5 ∷ []))).0).1.blocks_to_save
        ≡ [])
unfolding request_finished
preemption_offloads_example =
    preemption_offloads (λ l. l) (λ i j e. e) remembered 5 3 (4 ∷ []) 1 refl refl (omega arith)

-- A connector of the scheduler's role after `shutdown` and a preemption.
abbrev idle_connector : Connector ℕ ℕ ℕ
idle_connector =
    connector_preemptions (λ l. l)
      (connector_shutdown (new_connector two_layers scheduler_role true 99)) (5 ∷ [])

ConnectorRun-ActsAs_example : ActsAs (λ l. l) scheduler_role idle_connector
ConnectorRun-ActsAs_example =
    ConnectorRun-ActsAs (λ l. l) two_layers scheduler_role true 99 idle_connector
      (ConnectorRun.preempted (5 ∷ []) (ConnectorRun.stopped ConnectorRun.made))
