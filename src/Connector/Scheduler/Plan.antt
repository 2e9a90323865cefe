-- ===== src/Connector/Scheduler/Plan.antt =====
-- What the scheduler's side asks the worker to do.
use orch_kv_cache.Prelude.{
  ℕ, zero, suc, ◌+◌, ◌≤◌, ◌<◌, ◌==◌, ◌≡◌, refl, ap, ◌∙◌, Option, none, some, List, [], ◌∷◌, ◌++◌,
  arith, ok, tabulate, option_or, Bool-cases, inl, inr,
}
use orch_kv_cache.Prelude.Dict.{Key, find, find-put, find-put_ne}
use orch_kv_cache.Connector.{OrchkvCfg}
use orch_kv_cache.Connector.Worker.{Worker, start_load_kv, load_layers}
use orch_kv_cache.Connector.Scheduler.{
  SchedulerSide, new_scheduler, build_connector_meta, update_state_after_alloc, request_finished,
  handle_preemptions, preempt, offload_cached, offload_layers, offload_to,
}

module _ {ℓ} {K R : Type ℓ} ⦃layer : Key K⦄ ⦃request : Key R⦄ (layer_name : ℕ → K)
    (set_of : List ℕ → List ℕ) where
  -- The states that the calls of vLLM lead to.
  pub data Reachable : SchedulerSide K R → Type ℓ where
    made : (cfg : OrchkvCfg) → Reachable (new_scheduler cfg)
    after_alloc :
        {s : SchedulerSide K R} (req_id : R) (blocks : List ℕ) (n : ℕ)
        → Reachable s
        → Reachable (update_state_after_alloc s req_id blocks n)
    finished :
        {s : SchedulerSide K R} (req_id : R) (ids : List ℕ)
        → Reachable s
        → Reachable (request_finished set_of s req_id ids)
    preempted :
        {s : SchedulerSide K R} (ids : List R)
        → Reachable s
        → Reachable (handle_preemptions layer_name s ids)
    built : {s : SchedulerSide K R} → Reachable s → Reachable (build_connector_meta s).0

  offload_cached-pending_load :
      (s : SchedulerSide K R) (cached : Option (List ℕ))
      → (offload_cached layer_name s cached).pending_load ≡ s.pending_load
  unfolding offload_cached
  offload_cached-pending_load s none = refl
  offload_cached-pending_load s (some []) = refl
  offload_cached-pending_load s (some (b ∷ cached)) = refl

  preempt-pending_load :
      (s : SchedulerSide K R) (req_id : R)
      → (preempt layer_name s req_id).pending_load ≡ s.pending_load
  preempt-pending_load s req_id = offload_cached-pending_load s (find req_id s.cached_requests)

  handle_preemptions-pending_load :
      (s : SchedulerSide K R) (ids : List R)
      → (handle_preemptions layer_name s ids).pending_load ≡ s.pending_load
  unfolding handle_preemptions
  handle_preemptions-pending_load s [] = refl
  handle_preemptions-pending_load s (req_id ∷ ids) =
      handle_preemptions-pending_load (preempt layer_name s req_id) ids
      ∙ preempt-pending_load s req_id

  Reachable-pending_load : {s : SchedulerSide K R} → Reachable s → s.pending_load ≡ []
  unfolding request_finished build_connector_meta
  Reachable-pending_load (made cfg) = refl
  Reachable-pending_load (after_alloc req_id blocks n r) = Reachable-pending_load r
  Reachable-pending_load (finished req_id ids r) = Reachable-pending_load r
  Reachable-pending_load (preempted {s} ids r) =
      handle_preemptions-pending_load s ids ∙ Reachable-pending_load r
  Reachable-pending_load (built r) = refl

  -- Whatever calls the scheduler's side gets, the metadata that it builds asks for no load, and a
  -- worker that starts the loads of it queues no copy and leaves its caches alone.
  pub scheduler_never_loads :
      {B : Type ℓ} (s : SchedulerSide K R) (w : Worker K B)
      → Reachable s
      → ((build_connector_meta s).1.blocks_to_load ≡ [])
        × (g : Worker K B) × (start_load_kv w (build_connector_meta s).1 ≡ ok g)
        × (g.load_stream ≡ w.load_stream)
        × (g.kv_caches ≡ w.kv_caches)
  unfolding build_connector_meta start_load_kv load_layers
  scheduler_never_loads s w r =
      let none_asked = Reachable-pending_load r in
      (none_asked, record w { load_count = w.load_count + 0 }, rw none_asked refl, refl, refl)

module _ {ℓ} {K : Type ℓ} ⦃layer : Key K⦄ (layer_name : ℕ → K)
    (injective : (i j : ℕ) → layer_name i ≡ layer_name j → i ≡ j) where
  offload_layers-below :
      (n i j : ℕ) (pending : List (K × List ℕ)) (cached : List ℕ)
      → j < i
      → find (layer_name j) (offload_layers pending (tabulate layer_name n i) cached)
        ≡ find (layer_name j) pending
  unfolding offload_layers
  offload_layers-below zero i j pending cached h = refl
  offload_layers-below (suc n) i j pending cached h =
      offload_layers-below n (i + 1) j _ cached (omega arith)
      ∙ find-put_ne (layer_name i) (layer_name j) _ pending
          (λ e. absurd (omega (arith, injective i j e)))

  offload_layers-find :
      (n i j : ℕ) (pending : List (K × List ℕ)) (cached : List ℕ)
      → i ≤ j
      → j < i + n
      → find (layer_name j) (offload_layers pending (tabulate layer_name n i) cached)
        ≡ some (option_or (find (layer_name j) pending) [] ++ cached)
  unfolding offload_layers
  offload_layers-find zero i j pending cached h h' = absurd (omega arith)
  offload_layers-find (suc n) i j pending cached h h' =
      let first = offload_to pending (layer_name i) cached in
      elim (Bool-cases (i == j)) [
        | inl e ↦
            let here : i ≡ j = ground arith in
            rw (← here) (
              offload_layers-below n (i + 1) i first cached (omega arith)
              ∙ find-put (layer_name i) _ pending)
        | inr e ↦
            let other : find (layer_name j) first ≡ find (layer_name j) pending =
              find-put_ne (layer_name i) (layer_name j) _ pending
                (λ e'. absurd (ground (arith, injective i j e'))) in
            offload_layers-find n (i + 1) j first cached (ground arith) (omega arith)
            ∙ ap (λ o. some (option_or o [] ++ cached)) other
      ]

  -- If some blocks of a request are remembered, and nothing waits to be offloaded, then after the
  -- preemption of this request alone the next metadata asks to save exactly the blocks that were remembered of it, in
  -- every layer, and the metadata after that asks for nothing.
  pub preemption_offloads :
      {R : Type ℓ} ⦃request : Key R⦄ (s : SchedulerSide K R) (req_id : R) (b : ℕ) (cached : List ℕ)
      (l : ℕ)
      → find req_id s.cached_requests ≡ some (b ∷ cached)
      → s.pending_offload ≡ []
      → l < option_or s.orchkv_cfg.n_layers 32
      → (find
            (layer_name l)
            (build_connector_meta (handle_preemptions layer_name s (req_id ∷ []))).1.blocks_to_save
          ≡ some (b ∷ cached))
        × ((build_connector_meta
              (build_connector_meta
                (handle_preemptions layer_name s (req_id ∷ []))).0).1.blocks_to_save
            ≡ [])
  unfolding build_connector_meta handle_preemptions offload_cached
  preemption_offloads s req_id b cached l found clear h = (
    rw (found, clear)
        (offload_layers-find (option_or s.orchkv_cfg.n_layers 32) 0 l [] (b ∷ cached) (omega arith)
          (omega arith)),
    refl,
  )
