-- ===== src/Tests/EnginePatch.antt =====
-- A run of the registration, with numbers for names and classes.
use orch_kv_cache.Prelude.{ℕ, false, true, refl, [], ◌∷◌}
use orch_kv_cache.Prelude.Dict.{nat_key}
use orch_kv_cache.EnginePatch.{Process, dict, works, register_orchkv_backend}
use orch_kv_cache.EnginePatch.Registration.{RegistersOnce, register_orchkv_backend-RegistersOnce}

-- vLLM with a registry that has another connector.
abbrev with_registry : Process ℕ ℕ
with_registry = record {
  registered = false;
  has_v1_api = true;
  registry = dict ((4, 40) ∷ []);
  register_function = works;
  registrations = [];
}

register_orchkv_backend-RegistersOnce_example :
    RegistersOnce 5 50 with_registry (register_orchkv_backend 5 50 with_registry)
register_orchkv_backend-RegistersOnce_example =
    register_orchkv_backend-RegistersOnce 5 50 with_registry refl
