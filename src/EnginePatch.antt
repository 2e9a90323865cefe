-- ===== src/EnginePatch.antt =====
-- python/orchkv/vllm_integration/engine_patch.py: how the connector gets into vLLM's registry.
--
-- What the process has of vLLM is the state: whether its V1 API can be imported, the registry of
-- connectors, if there is one, and the function `register` of its connector package, which
-- can be missing, and can raise. A connector class is a value of `C`, a name one of `K`.
pub mod Registration
use orch_kv_cache.Prelude.{
  ℕ, Bool, true, false, not, Option, none, some, List, [], ◌∷◌, if◌then◌else◌, Result, ok, err,
}
use orch_kv_cache.Prelude.Dict.{Key, put}
use orch_kv_cache.Prelude.Float.{Float}
use orch_kv_cache.BlockSwap.Scorers.{Scorer}
use orch_kv_cache.BlockSwap.Install.{PatchedScheduler, install_partial_swap}

-- `kv_connector.register`: missing, one that raises, as its import may too, or one that works.
pub data RegisterFunction : Type 0 where
  no_function raises works : RegisterFunction

-- The attribute `_CONNECTOR_REGISTRY`: missing, `None`, or a dict.
pub data Registry {ℓ} (K C : Type ℓ) : Type ℓ where
  no_attribute null : Registry K C
  dict : List (K × C) → Registry K C

pub record Process {ℓ} (K C : Type ℓ) : Type ℓ where
  pub registered : Bool  -- `_REGISTERED`
  pub has_v1_api : Bool
  pub registry : Registry K C
  pub register_function : RegisterFunction
  pub registrations : List (K × C)  -- the calls of `register`, the latest first

module _ {ℓ} {K C : Type ℓ} ⦃key : Key K⦄ (name : K) (connector : C) where
  -- The injection of a registry: an attribute that is `None` is kept, and the assignment to its item
  -- raises, which is caught.
  abbrev pub inject : Process K C → Registry K C → Process K C
  inject p no_attribute = record p { registry = dict (put name connector []); registered = true }
  inject p null = p
  inject p (dict entries) = record p {
    registry = dict (put name connector entries);
    registered = true;
  }

  -- The branch without a dict.
  abbrev pub register_without : Process K C → RegisterFunction → Process K C
  register_without p works = record p {
    registrations = (name, connector) ∷ p.registrations;
    registered = true;
  }
  register_without p raises = p
  register_without p no_function = inject p p.registry

  abbrev pub register_in : Process K C → Registry K C → Process K C
  register_in p (dict entries) = record p {
    registry = dict (put name connector entries);
    registered = true;
  }
  register_in p _ = register_without p p.register_function

  -- `register_orchkv_backend`.
  unfoldable pub register_orchkv_backend : Process K C → Process K C
  register_orchkv_backend p =
      if p.registered then p else if not p.has_v1_api then p else register_in p p.registry

-- `install_block_level_swap`.
unfoldable pub install_block_level_swap {ℓ} :
    {F : Type ℓ} ⦃float : Float F⦄
    → PatchedScheduler F
    → Option ℕ
    → F
    → Result (PatchedScheduler F × Scorer F)
install_block_level_swap s tm ema_lambda = install_partial_swap s tm ema_lambda
