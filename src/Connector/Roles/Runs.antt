-- ===== src/Connector/Roles/Runs.antt =====
-- The methods of a connector called in any order.
use orch_kv_cache.Prelude.{
  ℕ, ◌≡◌, refl, ◌∙◌, Bool, true, false, Option, none, some, List, Result, ok, arith, is_some,
}
use orch_kv_cache.Prelude.Dict.{Key}
use orch_kv_cache.Connector.{ConnectorMetadata, VllmConfig}
use orch_kv_cache.Connector.Worker.{Worker, register_kv_caches, wait_for_layer_load, wait_for_save}
use orch_kv_cache.Connector.Scheduler.{SchedulerSide}
use orch_kv_cache.Connector.Roles.{
  Role, scheduler_role, worker_role, other_role, BoundMetadata, Connector, new_connector, worker_of,
  scheduler_of, bind_connector_metadata, clear_connector_metadata, on_worker, on_scheduler,
  connector_register, connector_start_load, connector_wait_for_load, connector_save,
  connector_wait_for_save, connector_shutdown, connector_preemptions, connector_after_alloc,
  connector_build_meta, connector_request_finished,
}
use orch_kv_cache.Connector.Roles.Sides.{
  ActsAs, none-LacksWorker, none-LacksScheduler, some-AnswersWorkerCalls,
  some-AnswersSchedulerCalls,
}

module _ {ℓ} {A : Type ℓ} where
  none_of : (x : Option A) → is_some x ≡ false → x ≡ none
  none_of none e = refl
  none_of (some a) e = cc

  some_of : (x : Option A) → is_some x ≡ true → (a : A) × (x ≡ some a)
  some_of none e = cc
  some_of (some a) e = (a, refl)

module _ {ℓ} {K R B : Type ℓ} ⦃layer : Key K⦄ ⦃request : Key R⦄ where
  -- Whatever is called on a new connector, in whatever order; of the calls that can raise, those that do not.
  pub data ConnectorRun (layer_name : ℕ → K) (start : Connector K R B)
      : Connector K R B → Type ℓ where
    made : ConnectorRun layer_name start start
    bound :
        {c : Connector K R B} (meta : BoundMetadata K)
        → ConnectorRun layer_name start c
        → ConnectorRun layer_name start (bind_connector_metadata c meta)
    cleared :
        {c : Connector K R B}
        → ConnectorRun layer_name start c
        → ConnectorRun layer_name start (clear_connector_metadata c)
    stopped :
        {c : Connector K R B}
        → ConnectorRun layer_name start c
        → ConnectorRun layer_name start (connector_shutdown c)
    preempted :
        {c : Connector K R B} (ids : List R)
        → ConnectorRun layer_name start c
        → ConnectorRun layer_name start (connector_preemptions layer_name c ids)
    registered :
        {c g : Connector K R B} (kv_caches : List (K × List B))
        → ConnectorRun layer_name start c
        → connector_register c kv_caches ≡ ok g
        → ConnectorRun layer_name start g
    load_started :
        {c g : Connector K R B}
        → ConnectorRun layer_name start c
        → connector_start_load c ≡ ok g
        → ConnectorRun layer_name start g
    load_awaited :
        {c g : Connector K R B} (name : K)
        → ConnectorRun layer_name start c
        → connector_wait_for_load c name ≡ ok g
        → ConnectorRun layer_name start g
    layer_saved :
        {c g : Connector K R B} (name : K) (kv_layer : List B)
        → ConnectorRun layer_name start c
        → connector_save c name kv_layer ≡ ok g
        → ConnectorRun layer_name start g
    save_awaited :
        {c g : Connector K R B}
        → ConnectorRun layer_name start c
        → connector_wait_for_save c ≡ ok g
        → ConnectorRun layer_name start g
    allocated :
        {c g : Connector K R B} (req_id : R) (blocks : List ℕ) (n : ℕ)
        → ConnectorRun layer_name start c
        → connector_after_alloc c req_id blocks n ≡ ok g
        → ConnectorRun layer_name start g
    meta_built :
        {c g : Connector K R B} {meta : ConnectorMetadata K}
        → ConnectorRun layer_name start c
        → connector_build_meta c ≡ ok (g, meta)
        → ConnectorRun layer_name start g
    finished :
        {c g : Connector K R B} (set_of : List ℕ → List ℕ) (req_id : R) (ids : List ℕ)
        → ConnectorRun layer_name start c
        → connector_request_finished set_of c req_id ids ≡ ok g
        → ConnectorRun layer_name start g

  -- Two connectors have the same sides.
  record SameSides (c g : Connector K R B) : Type ℓ where
    worker : is_some g.worker ≡ is_some c.worker
    scheduler : is_some g.scheduler ≡ is_some c.scheduler

  on_worker-SameSides :
      (c g : Connector K R B) (f : Worker K B → Result (Worker K B))
      → on_worker c f ≡ ok g
      → SameSides c g
  on_worker-SameSides c g f e = record { worker = ground arith; scheduler = ground arith }

  on_scheduler-SameSides :
      (c g : Connector K R B) (f : SchedulerSide K R → SchedulerSide K R)
      → on_scheduler c f ≡ ok g
      → SameSides c g
  on_scheduler-SameSides c g f e = record { worker = ground arith; scheduler = ground arith }

  build_meta-SameSides :
      (c g : Connector K R B) (meta : ConnectorMetadata K)
      → connector_build_meta c ≡ ok (g, meta)
      → SameSides c g
  unfolding connector_build_meta
  build_meta-SameSides c g meta e = record { worker = ground arith; scheduler = ground arith }

  shutdown-SameSides : (c : Connector K R B) → SameSides c (connector_shutdown c)
  unfolding connector_shutdown
  shutdown-SameSides c = record { worker = ground arith; scheduler = ground arith }

  preemptions-SameSides :
      (layer_name : ℕ → K) (c : Connector K R B) (ids : List R)
      → SameSides c (connector_preemptions layer_name c ids)
  unfolding connector_preemptions
  preemptions-SameSides layer_name c ids = record {
    worker = ground arith;
    scheduler = ground arith;
  }

  SameSides-trans : (c g h : Connector K R B) → SameSides c g → SameSides g h → SameSides c h
  SameSides-trans c g h s t = record {
    worker = t.worker ∙ s.worker;
    scheduler = t.scheduler ∙ s.scheduler;
  }

  ConnectorRun-SameSides :
      (layer_name : ℕ → K) {start g : Connector K R B}
      → ConnectorRun layer_name start g
      → SameSides start g
  unfolding connector_register connector_start_load connector_wait_for_load connector_save
      connector_wait_for_save connector_after_alloc connector_request_finished
      bind_connector_metadata clear_connector_metadata
  ConnectorRun-SameSides layer_name made = record { worker = refl; scheduler = refl }
  ConnectorRun-SameSides layer_name (bound meta r) =
      let s = ConnectorRun-SameSides layer_name r in
      record { worker = s.worker; scheduler = s.scheduler }
  ConnectorRun-SameSides layer_name (cleared r) =
      let s = ConnectorRun-SameSides layer_name r in
      record { worker = s.worker; scheduler = s.scheduler }
  ConnectorRun-SameSides layer_name (stopped {c} r) =
      SameSides-trans _ _ _ (ConnectorRun-SameSides layer_name r) (shutdown-SameSides c)
  ConnectorRun-SameSides layer_name (preempted {c} ids r) =
      SameSides-trans _ _ _ (ConnectorRun-SameSides layer_name r)
        (preemptions-SameSides layer_name c ids)
  ConnectorRun-SameSides layer_name (registered {c} {g} kv r e) =
      SameSides-trans _ _ _ (ConnectorRun-SameSides layer_name r)
        (on_worker-SameSides c g (λ w. ok (register_kv_caches w kv)) e)
  ConnectorRun-SameSides layer_name (load_started {c} {g} r e) =
      SameSides-trans _ _ _ (ConnectorRun-SameSides layer_name r) (on_worker-SameSides c g _ e)
  ConnectorRun-SameSides layer_name (load_awaited {c} {g} name r e) =
      SameSides-trans _ _ _ (ConnectorRun-SameSides layer_name r)
        (on_worker-SameSides c g (λ w. ok (wait_for_layer_load w name)) e)
  ConnectorRun-SameSides layer_name (layer_saved {c} {g} name kv r e) =
      SameSides-trans _ _ _ (ConnectorRun-SameSides layer_name r) (on_worker-SameSides c g _ e)
  ConnectorRun-SameSides layer_name (save_awaited {c} {g} r e) =
      SameSides-trans _ _ _ (ConnectorRun-SameSides layer_name r)
        (on_worker-SameSides c g (λ w. ok (wait_for_save w)) e)
  ConnectorRun-SameSides layer_name (allocated {c} {g} req_id blocks n r e) =
      SameSides-trans _ _ _ (ConnectorRun-SameSides layer_name r) (on_scheduler-SameSides c g _ e)
  ConnectorRun-SameSides layer_name (meta_built {c} {g} {meta} r e) =
      SameSides-trans _ _ _ (ConnectorRun-SameSides layer_name r) (build_meta-SameSides c g meta e)
  ConnectorRun-SameSides layer_name (finished {c} {g} set_of req_id ids r e) =
      SameSides-trans _ _ _ (ConnectorRun-SameSides layer_name r) (on_scheduler-SameSides c g _ e)

  -- Whatever calls have succeeded on a new connector, in whatever order: in the scheduler's role it
  -- refuses every call that asserts a worker with an `AssertionError`, ignores `shutdown`, and
  -- answers every call that asserts a scheduler; in the worker's role it refuses those with an `AssertionError`,
  -- ignores `handle_preemptions`, and `register_kv_caches`, `wait_for_layer_load` and
  -- `wait_for_save` succeed; in neither role it refuses and ignores all of these.
  pub ConnectorRun-ActsAs :
      (layer_name : ℕ → K) (cfg : VllmConfig) (role : Role) (core : Bool) (unset : B)
      (c : Connector K R B)
      → ConnectorRun layer_name (new_connector cfg role core unset) c
      → ActsAs layer_name role c
  unfolding new_connector worker_of scheduler_of
  ConnectorRun-ActsAs layer_name cfg scheduler_role core unset c r =
      let s = ConnectorRun-SameSides layer_name r in
      let (side, here) = some_of c.scheduler s.scheduler in
      (none-LacksWorker c (none_of c.worker s.worker), some-AnswersSchedulerCalls c side here)
  ConnectorRun-ActsAs layer_name cfg worker_role core unset c r =
      let s = ConnectorRun-SameSides layer_name r in
      let (side, here) = some_of c.worker s.worker in
      (
        none-LacksScheduler layer_name c (none_of c.scheduler s.scheduler),
        some-AnswersWorkerCalls c side here,
      )
  ConnectorRun-ActsAs layer_name cfg other_role core unset c r =
      let s = ConnectorRun-SameSides layer_name r in
      (
        none-LacksWorker c (none_of c.worker s.worker),
        none-LacksScheduler layer_name c (none_of c.scheduler s.scheduler),
      )
