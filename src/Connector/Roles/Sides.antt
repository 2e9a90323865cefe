-- ===== src/Connector/Roles/Sides.antt =====
-- Which calls a connector answers, and which it refuses, in its role.
use orch_kv_cache.Prelude.{ℕ, ◌≡◌, refl, Bool, none, some, List, ok, err, assertion_error}
use orch_kv_cache.Prelude.Dict.{Key}
use orch_kv_cache.Connector.{ConnectorMetadata}
use orch_kv_cache.Connector.Worker.{Worker, register_kv_caches, wait_for_layer_load, wait_for_save}
use orch_kv_cache.Connector.Scheduler.{
  SchedulerSide, build_connector_meta, get_num_new_matched_tokens, update_state_after_alloc,
  request_finished,
}
use orch_kv_cache.Connector.Roles.{
  Role, scheduler_role, worker_role, other_role, Connector, connector_register,
  connector_start_load, connector_wait_for_load, connector_save, connector_wait_for_save,
  connector_shutdown, connector_preemptions, connector_matched_tokens, connector_after_alloc,
  connector_build_meta, connector_request_finished,
}

module _ {ℓ} {K R B : Type ℓ} ⦃layer : Key K⦄ ⦃request : Key R⦄ where
  -- Every method that asserts a worker answers this without one.
  abbrev pub RefusesWorkerCalls : Connector K R B → Type ℓ
  RefusesWorkerCalls c =
      ((kv_caches : List (K × List B)) → connector_register c kv_caches ≡ err assertion_error)
      × (connector_start_load c ≡ err assertion_error)
      × ((name : K) → connector_wait_for_load c name ≡ err assertion_error)
      × ((name : K) (kv_layer : List B) → connector_save c name kv_layer ≡ err assertion_error)
      × (connector_wait_for_save c ≡ err assertion_error)

  -- Every method that asserts a scheduler answers this without one.
  abbrev pub RefusesSchedulerCalls : Connector K R B → Type ℓ
  RefusesSchedulerCalls c =
      ((req_id : R) (n : ℕ) → connector_matched_tokens c req_id n ≡ err assertion_error)
      × ((req_id : R) (blocks : List ℕ) (n : ℕ)
          → connector_after_alloc c req_id blocks n ≡ err assertion_error)
      × (connector_build_meta c ≡ err assertion_error)
      × ((set_of : List ℕ → List ℕ) (req_id : R) (ids : List ℕ)
          → connector_request_finished set_of c req_id ids ≡ err assertion_error)

  -- The methods that cannot fail with a worker succeed.
  abbrev pub AnswersWorkerCalls : Connector K R B → Type ℓ
  AnswersWorkerCalls c =
      ((kv_caches : List (K × List B))
        → (g : Connector K R B) × (connector_register c kv_caches ≡ ok g))
      × ((name : K) → (g : Connector K R B) × (connector_wait_for_load c name ≡ ok g))
      × ((g : Connector K R B) × (connector_wait_for_save c ≡ ok g))

  -- With a scheduler, every method that asserts one succeeds.
  abbrev pub AnswersSchedulerCalls : Connector K R B → Type ℓ
  AnswersSchedulerCalls c =
      ((req_id : R) (n : ℕ)
        → (answer : ℕ × Bool) × (connector_matched_tokens c req_id n ≡ ok answer))
      × ((req_id : R) (blocks : List ℕ) (n : ℕ)
          → (g : Connector K R B) × (connector_after_alloc c req_id blocks n ≡ ok g))
      × ((g : Connector K R B) × (meta : ConnectorMetadata K) × (connector_build_meta c
            ≡ ok (g, meta)))
      × ((set_of : List ℕ → List ℕ) (req_id : R) (ids : List ℕ)
          → (g : Connector K R B) × (connector_request_finished set_of c req_id ids ≡ ok g))

  -- Without a worker: the calls for one are refused, and `shutdown` is ignored.
  abbrev pub LacksWorker : Connector K R B → Type ℓ
  LacksWorker c = RefusesWorkerCalls c × (connector_shutdown c ≡ c)

  -- Without a scheduler: the calls for one are refused, and `handle_preemptions` is ignored.
  abbrev pub LacksScheduler : (layer_name : ℕ → K) → Connector K R B → Type ℓ
  LacksScheduler layer_name c =
      RefusesSchedulerCalls c × ((ids : List R) → connector_preemptions layer_name c ids ≡ c)

  -- What a connector answers in its role.
  abbrev pub ActsAs : (layer_name : ℕ → K) → Role → Connector K R B → Type ℓ
  ActsAs layer_name scheduler_role c = LacksWorker c × AnswersSchedulerCalls c
  ActsAs layer_name worker_role c = LacksScheduler layer_name c × AnswersWorkerCalls c
  ActsAs layer_name other_role c = LacksWorker c × LacksScheduler layer_name c

  pub none-LacksWorker : (c : Connector K R B) → c.worker ≡ none → LacksWorker c
  unfolding connector_register connector_start_load connector_wait_for_load connector_save
      connector_wait_for_save connector_shutdown
  none-LacksWorker c h =
      ((λ kv. rw h refl, rw h refl, λ name. rw h refl, λ name kv. rw h refl, rw h refl), rw h refl)

  pub none-LacksScheduler :
      (layer_name : ℕ → K) (c : Connector K R B) → c.scheduler ≡ none → LacksScheduler layer_name c
  unfolding connector_matched_tokens connector_after_alloc connector_build_meta
      connector_request_finished connector_preemptions
  none-LacksScheduler layer_name c h = (
    (
      λ req_id n. rw h refl,
      λ req_id blocks n. rw h refl,
      rw h refl,
      λ set_of req_id ids. rw h refl,
    ),
    λ ids. rw h refl,
  )

  -- The connector with another worker, or another scheduler.
  abbrev with_worker : Connector K R B → Worker K B → Connector K R B
  with_worker c w = record c { worker = some w }

  abbrev with_scheduler : Connector K R B → SchedulerSide K R → Connector K R B
  with_scheduler c s = record c { scheduler = some s }

  pub some-AnswersWorkerCalls :
      (c : Connector K R B) (w : Worker K B) → c.worker ≡ some w → AnswersWorkerCalls c
  unfolding connector_register connector_wait_for_load connector_wait_for_save
  some-AnswersWorkerCalls c w h = (
    λ kv. (with_worker c (register_kv_caches w kv), rw h refl),
    λ name. (with_worker c (wait_for_layer_load w name), rw h refl),
    (with_worker c (wait_for_save w), rw h refl),
  )

  pub some-AnswersSchedulerCalls :
      (c : Connector K R B) (s : SchedulerSide K R) → c.scheduler ≡ some s → AnswersSchedulerCalls c
  unfolding connector_matched_tokens connector_after_alloc connector_build_meta
      connector_request_finished
  some-AnswersSchedulerCalls c s h = (
    λ req_id n. (get_num_new_matched_tokens s req_id n, rw h refl),
    λ req_id blocks n. (with_scheduler c (update_state_after_alloc s req_id blocks n), rw h refl),
    (with_scheduler c (build_connector_meta s).0, (build_connector_meta s).1, rw h refl),
    λ set_of req_id ids. (with_scheduler c (request_finished set_of s req_id ids), rw h refl),
  )
