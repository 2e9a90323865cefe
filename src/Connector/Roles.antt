-- ===== src/Connector/Roles.antt =====
-- `OrchKvOffloadingConnector`: the class that vLLM calls, with the side of its role. The stub of
-- the base class, for a process without vLLM, keeps the metadata.
pub mod Sides
pub mod Runs
use orch_kv_cache.Prelude.{
  ℕ, ◌≡◌, refl, Bool, Option, none, some, List, Result, ok, err, assertion_error, ◌>>=◌, ok_or,
}
use orch_kv_cache.Prelude.Dict.{Key}
use orch_kv_cache.Connector.{ConnectorMetadata, VllmConfig, cfg_of}
use orch_kv_cache.Connector.Worker.{
  Worker, new_worker, register_kv_caches, start_load_kv, wait_for_layer_load, save_kv_layer,
  wait_for_save, shutdown,
}
use orch_kv_cache.Connector.Scheduler.{
  SchedulerSide, new_scheduler, build_connector_meta, get_num_new_matched_tokens,
  update_state_after_alloc, request_finished, handle_preemptions,
}

pub data Role : Type 0 where
  scheduler_role worker_role other_role : Role

-- `_connector_metadata`: `None`, the program's own, or another class's.
pub data BoundMetadata {ℓ} (K : Type ℓ) : Type ℓ where
  no_metadata foreign_metadata : BoundMetadata K
  own_metadata : ConnectorMetadata K → BoundMetadata K

pub record Connector {ℓ} (K R B : Type ℓ) : Type ℓ where
  pub role : Role
  pub connector_metadata : BoundMetadata K
  pub worker : Option (Worker K B)
  pub scheduler : Option (SchedulerSide K R)

unfoldable pub worker_of {ℓ} :
    {K B : Type ℓ} ⦃layer : Key K⦄ → Role → VllmConfig → Bool → B → Option (Worker K B)
worker_of worker_role c core unset = some (new_worker (cfg_of c) core unset)
worker_of _ c core unset = none

unfoldable pub scheduler_of {ℓ} : {K R : Type ℓ} → Role → VllmConfig → Option (SchedulerSide K R)
scheduler_of scheduler_role c = some (new_scheduler (cfg_of c))
scheduler_of _ c = none

module _ {ℓ} {K R B : Type ℓ} ⦃layer : Key K⦄ ⦃request : Key R⦄ where
  -- `__init__`.
  unfoldable pub new_connector : VllmConfig → Role → Bool → B → Connector K R B
  unfolding worker_of scheduler_of
  new_connector c role core unset = record {
    role = role;
    connector_metadata = no_metadata;
    worker = worker_of role c core unset;
    scheduler = scheduler_of role c;
  }

  -- `bind_connector_metadata` and `clear_connector_metadata` of the stub.
  unfoldable pub bind_connector_metadata : Connector K R B → BoundMetadata K → Connector K R B
  bind_connector_metadata c meta = record c { connector_metadata = meta }

  unfoldable pub clear_connector_metadata : Connector K R B → Connector K R B
  clear_connector_metadata c = record c { connector_metadata = no_metadata }

  -- A method that asserts that there is a worker, and calls it.
  abbrev pub on_worker :
      Connector K R B → (Worker K B → Result (Worker K B)) → Result (Connector K R B)
  on_worker c f = do
    w ← ok_or assertion_error c.worker
    w' ← f w
    ok (record c { worker = some w' })

  unfoldable pub connector_register : Connector K R B → List (K × List B) → Result (Connector K R B)
  connector_register c kv_caches = on_worker c (λ w. ok (register_kv_caches w kv_caches))

  unfoldable pub connector_start_load : Connector K R B → Result (Connector K R B)
  connector_start_load c =
      on_worker c
        (λ w. elim c.connector_metadata [ own_metadata meta ↦ start_load_kv w meta | _ ↦ ok w ])

  unfoldable pub connector_wait_for_load : Connector K R B → K → Result (Connector K R B)
  connector_wait_for_load c name = on_worker c (λ w. ok (wait_for_layer_load w name))

  unfoldable pub connector_save : Connector K R B → K → List B → Result (Connector K R B)
  connector_save c name kv_layer = on_worker c (λ w. elim c.connector_metadata [
    | own_metadata meta ↦ save_kv_layer w name kv_layer meta none
    | _ ↦ ok w
  ])

  unfoldable pub connector_wait_for_save : Connector K R B → Result (Connector K R B)
  connector_wait_for_save c = on_worker c (λ w. ok (wait_for_save w))

  -- `shutdown`.
  unfoldable pub connector_shutdown : Connector K R B → Connector K R B
  connector_shutdown c = elim c.worker [
    | none ↦ c
    | some w ↦ record c { worker = some (shutdown w) }
  ]

  -- `handle_preemptions`.
  unfoldable pub connector_preemptions :
      (layer_name : ℕ → K) → Connector K R B → List R → Connector K R B
  connector_preemptions layer_name c ids = elim c.scheduler [
    | none ↦ c
    | some s ↦ record c { scheduler = some (handle_preemptions layer_name s ids) }
  ]

  unfoldable pub connector_matched_tokens : Connector K R B → R → ℕ → Result (ℕ × Bool)
  connector_matched_tokens c req_id n = do
    s ← ok_or assertion_error c.scheduler
    ok (get_num_new_matched_tokens s req_id n)

  -- A method that asserts that there is a scheduler, and changes it.
  abbrev pub on_scheduler :
      Connector K R B → (SchedulerSide K R → SchedulerSide K R) → Result (Connector K R B)
  on_scheduler c f = do
    s ← ok_or assertion_error c.scheduler
    ok (record c { scheduler = some (f s) })

  unfoldable pub connector_after_alloc : Connector K R B → R → List ℕ → ℕ → Result (Connector K R B)
  connector_after_alloc c req_id blocks n =
      on_scheduler c (λ s. update_state_after_alloc s req_id blocks n)

  unfoldable pub connector_build_meta :
      Connector K R B → Result (Connector K R B × ConnectorMetadata K)
  connector_build_meta c = do
    s ← ok_or assertion_error c.scheduler
    let (s', meta) = build_connector_meta s
    ok (record c { scheduler = some s' }, meta)

  unfoldable pub connector_request_finished :
      (set_of : List ℕ → List ℕ) → Connector K R B → R → List ℕ → Result (Connector K R B)
  connector_request_finished set_of c req_id ids =
      on_scheduler c (λ s. request_finished set_of s req_id ids)
