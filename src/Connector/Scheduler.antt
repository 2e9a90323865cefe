-- ===== src/Connector/Scheduler.antt =====
-- `OrchKvConnectorScheduler`: which blocks are to be moved.
--
-- A Python set is a list here. `set(block_ids)` comes in an order of its own: `set_of` is a
-- parameter, that has the members of the list once each. The ids of preempted requests are
-- taken in the order in which their set gives them.
pub mod Plan
use orch_kv_cache.Prelude.{
  ℕ, zero, suc, ◌+◌, ◌-◌, ◌≤◌, ◌<◌, ◌≡◌, refl, sym, ap, ◌∙◌, ◌⊎◌, Bool, true, false, Option, none,
  some, List, [], ◌∷◌, ◌++◌, arith, length, tabulate, option_or, ltb, if◌then◌else◌, Option-cases,
  inl, inr, All,
}
use orch_kv_cache.Prelude.Dict.{Key, find, put, find-put, find-put_ne}
use orch_kv_cache.Connector.{ConnectorMetadata, OrchkvCfg}

pub record SchedulerSide {ℓ} (K R : Type ℓ) : Type ℓ where
  pub orchkv_cfg : OrchkvCfg
  pub cached_requests : List (R × List ℕ)
  pub pending_offload : List (K × List ℕ)
  pub pending_load : List (K × List ℕ)

module _ {ℓ} {K R : Type ℓ} where
  -- `__init__`.
  abbrev pub new_scheduler : OrchkvCfg → SchedulerSide K R
  new_scheduler cfg = record {
    orchkv_cfg = cfg;
    cached_requests = [];
    pending_offload = [];
    pending_load = [];
  }

  -- `build_connector_meta`.
  unfoldable pub build_connector_meta : SchedulerSide K R → SchedulerSide K R × ConnectorMetadata K
  build_connector_meta s = (
    record s { pending_offload = []; pending_load = [] },
    record { blocks_to_save = s.pending_offload; blocks_to_load = s.pending_load },
  )

module _ {ℓ} {K R : Type ℓ} ⦃request : Key R⦄ where
  -- `get_num_new_matched_tokens`.
  unfoldable pub get_num_new_matched_tokens : SchedulerSide K R → R → ℕ → ℕ × Bool
  get_num_new_matched_tokens s req_id num_computed_tokens = elim (find req_id s.cached_requests) [
    | none ↦ (0, false)
    | some cached ↦
        let new_tokens = length cached - num_computed_tokens in (new_tokens, ltb 0 new_tokens)
  ]

  -- `update_state_after_alloc`.
  abbrev pub update_state_after_alloc : SchedulerSide K R → R → List ℕ → ℕ → SchedulerSide K R
  update_state_after_alloc s req_id blocks num_external_tokens = s

  -- `request_finished`, which also returns `(False, None)`.
  unfoldable pub request_finished :
      (set_of : List ℕ → List ℕ) → SchedulerSide K R → R → List ℕ → SchedulerSide K R
  request_finished set_of s req_id block_ids = record s {
    cached_requests = put req_id (set_of block_ids) s.cached_requests;
  }

module _ {ℓ} {K : Type ℓ} ⦃layer : Key K⦄ where
  -- `self._pending_offload.setdefault(layer_name, []).extend(cached)`.
  abbrev pub offload_to : List (K × List ℕ) → K → List ℕ → List (K × List ℕ)
  offload_to pending name cached = put name (option_or (find name pending) [] ++ cached) pending

  unfoldable pub offload_layers : List (K × List ℕ) → List K → List ℕ → List (K × List ℕ)
  offload_layers pending [] cached = pending
  offload_layers pending (name ∷ names) cached =
      offload_layers (offload_to pending name cached) names cached

module _ {ℓ} {K R : Type ℓ} ⦃layer : Key K⦄ ⦃request : Key R⦄ (layer_name : ℕ → K) where
  -- `_get_layer_names`, from the name of the layer's number.
  abbrev pub get_layer_names : SchedulerSide K R → List K
  get_layer_names s = tabulate layer_name (option_or s.orchkv_cfg.n_layers 32) 0

  -- `if cached: …`: a request that is not there, or an empty set, is passed over.
  unfoldable pub offload_cached : SchedulerSide K R → Option (List ℕ) → SchedulerSide K R
  offload_cached s none = s
  offload_cached s (some []) = s
  offload_cached s (some (b ∷ cached)) = record s {
    pending_offload = offload_layers s.pending_offload (get_layer_names s) (b ∷ cached);
  }

  -- The body of the loop of `handle_preemptions`.
  abbrev pub preempt : SchedulerSide K R → R → SchedulerSide K R
  preempt s req_id = offload_cached s (find req_id s.cached_requests)

  unfoldable pub handle_preemptions : SchedulerSide K R → List R → SchedulerSide K R
  handle_preemptions s [] = s
  handle_preemptions s (req_id ∷ ids) = handle_preemptions (preempt s req_id) ids
