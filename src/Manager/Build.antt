-- ===== src/Manager/Build.antt =====
-- `build_past_kv`: the key and value tensors of each layer, put together from its blocks. The loop
-- over `range(self.n_layers)` is one over `_blocks`, which has `n_layers` lists from `__init__` on.
pub mod Contents
use orch_kv_cache.Prelude.{
  ℕ, zero, suc, ◌+◌, ◌-◌, ◌==◌, Bool, true, false, Option, none, some, List, [], ◌∷◌, ◌++◌, Result,
  ok, err, type_error, runtime_error, ◌>>=◌, if◌then◌else◌, length, take, drop, replicate, sum_map,
  ok_or, min, guard, ◌>>◌,
}
use orch_kv_cache.Prelude.Slices.{assign}
use orch_kv_cache.Manager.{KvCacheManager, gpu, same_tier}
use orch_kv_cache.Manager.Moves.{promote_block}

module _ {ℓ} {T : Type ℓ} where
  -- The block on the GPU: promoted, if it is not there.
  abbrev pub fetch : KvCacheManager T → ℕ → KvCacheManager T
  fetch m i = if same_tier (m.heap i).tier gpu then m else promote_block m i

  -- The loop over the blocks of a layer; a subscript of `gpu_data` that is `None` raises.
  unfoldable pub build_blocks :
      KvCacheManager T → List ℕ → ℕ → List T → Result (KvCacheManager T × List T)
  build_blocks m [] pos out = ok (m, out)
  build_blocks m (i ∷ ids) pos out = elim ((m.heap i).token_count == 0) [
    | true ↦ build_blocks m ids pos out
    | false ↦ do
      let m' = fetch m i
      tensor ← ok_or type_error (m'.heap i).gpu_data
      let n = (m'.heap i).token_count
      out' ← assign out pos n (take n tensor)
      build_blocks m' ids (pos + n) out'
  ]

  abbrev pub total_count : KvCacheManager T → List ℕ → ℕ
  total_count m = sum_map (λ i. (m.heap i).token_count)

  unfoldable pub build_layer : KvCacheManager T → List ℕ → Result (KvCacheManager T × List T)
  build_layer m ids = build_blocks m ids 0 (replicate (total_count m ids) m.zeros)

  unfoldable pub build_layers :
      KvCacheManager T → List (List ℕ) → Result (KvCacheManager T × List (List T))
  build_layers m [] = ok (m, [])
  build_layers m (ids ∷ ls) = do
    (m', layer) ← build_layer m ids
    (m'', rest) ← build_layers m' ls
    ok (m'', layer ∷ rest)

  unfoldable pub build_past_kv : KvCacheManager T → Result (KvCacheManager T × List (List T))
  build_past_kv m = build_layers m m.blocks
