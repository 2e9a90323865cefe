-- ===== src/EnginePatch/Registration.antt =====
-- The registration of the connector, made once and leaving the others alone.
use orch_kv_cache.Prelude.{
  ◌≡◌, ◌≢◌, refl, sym, ap, ◌⊎◌, inl, inr, Bool, true, false, Option, none, some, List, [], ◌∷◌,
}
use mathlib.Core.Path.{subst}
use orch_kv_cache.Prelude.Dict.{Key, find, find-put, find-put_ne}
use orch_kv_cache.EnginePatch.{
  RegisterFunction, no_function, raises, works, Registry, no_attribute, null, dict, Process,
  register_orchkv_backend,
}

module _ {ℓ} {K C : Type ℓ} ⦃key : Key K⦄ where
  -- What a look-up in the registry gives, if there is one.
  abbrev pub lookup : K → Registry K C → Option C
  lookup name (dict entries) = find name entries
  lookup name _ = none

  -- The connector can be found: in the registry, or since `register` was called with it.
  abbrev pub IsKnown : K → C → Process K C → Type ℓ
  IsKnown name connector p =
      (lookup name p.registry ≡ some connector)
      ⊎ ((rest : List (K × C)) × (p.registrations ≡ (name, connector) ∷ rest))

module _ {ℓ} {K C : Type ℓ} ⦃key : Key K⦄ (name : K) (connector : C) where
  -- A call leads from `p` to `g`: a second one changes nothing, the connector is known if it is
  -- registered, and under every other name the registry has what it had.
  abbrev pub RegistersOnce : Process K C → Process K C → Type ℓ
  RegistersOnce p g =
      (register_orchkv_backend name connector g ≡ g)
      × (g.registered ≡ true → IsKnown name connector g)
      × ((n : K) → name ≢ n → lookup n g.registry ≡ lookup n p.registry)

  abbrev fresh_process : Bool → Registry K C → RegisterFunction → List (K × C) → Process K C
  fresh_process api registry how calls = record {
    registered = false;
    has_v1_api = api;
    registry = registry;
    register_function = how;
    registrations = calls;
  }

  fresh_process-RegistersOnce :
      (api : Bool) (registry : Registry K C) (how : RegisterFunction) (calls : List (K × C))
      → RegistersOnce
          (fresh_process api registry how calls)
          (register_orchkv_backend name connector (fresh_process api registry how calls))
  unfolding register_orchkv_backend
  fresh_process-RegistersOnce false registry how calls = (refl, λ e. cc, λ n h. refl)
  fresh_process-RegistersOnce true (dict entries) how calls = (
    refl,
    λ e. inl (find-put name connector entries),
    λ n h. find-put_ne name n connector entries h,
  )
  fresh_process-RegistersOnce true no_attribute works calls =
      (refl, λ e. inr (calls, refl), λ n h. refl)
  fresh_process-RegistersOnce true no_attribute raises calls = (refl, λ e. cc, λ n h. refl)
  fresh_process-RegistersOnce true no_attribute no_function calls =
      (refl, λ e. inl (find-put name connector []), λ n h. find-put_ne name n connector [] h)
  fresh_process-RegistersOnce true null works calls = (refl, λ e. inr (calls, refl), λ n h. refl)
  fresh_process-RegistersOnce true null raises calls = (refl, λ e. cc, λ n h. refl)
  fresh_process-RegistersOnce true null no_function calls = (refl, λ e. cc, λ n h. refl)

  -- In a process that has not registered the connector, whatever vLLM it has, a second call of
  -- `register_orchkv_backend` changes nothing; if the first has registered, the connector
  -- is in the registry, or `register` was called with it; under every other name the
  -- registry has what it had.
  pub register_orchkv_backend-RegistersOnce :
      (p : Process K C)
      → p.registered ≡ false
      → RegistersOnce p (register_orchkv_backend name connector p)
  register_orchkv_backend-RegistersOnce p fresh =
      let same : fresh_process p.has_v1_api p.registry p.register_function p.registrations ≡ p =
        ap (λ (b : Bool). record p { registered = b }) (sym fresh) in
      subst (λ q. RegistersOnce q (register_orchkv_backend name connector q)) same
        (fresh_process-RegistersOnce p.has_v1_api p.registry p.register_function p.registrations)
