-- ===== src/Manager/Build/Contents.antt =====
-- `build_past_kv` returns the tokens that the manager holds, whatever the tiers of its blocks.
use orch_kv_cache.Prelude.{
  ℕ, ◌+◌, ◌==◌, ◌≤◌, ◌<◌, ◌≡◌, refl, ◌∙◌, true, false, some, List, [], ◌∷◌, ◌++◌, map, arith, ok,
  inl, inr, Bool-cases, ==_iff, length, take, replicate, if◌then◌else◌, All, All-map, length-take,
  length-append,
}
use mathlib.Core.List.{append_assoc}
use native.Mathlib.Nat.{zero-add}
use orch_kv_cache.Prelude.Slices.{assign_next}
use orch_kv_cache.Manager.{Tensor, KvCacheManager, gpu, same_tier}
use orch_kv_cache.Manager.Invariant.{
  stored, layer_tokens, contents, IsResident, IsValid, Keeps, Keeps-refl, Keeps-trans,
  Keeps-IsValid, Keeps-contents, Keeps-layer_tokens, map-layer_tokens,
}
use orch_kv_cache.Manager.Moves.{promote_block}
use orch_kv_cache.Manager.Moves.Keeps.{promote_block-Keeps}
use orch_kv_cache.Manager.Moves.Fetch.{promote_block-gpu_data}
use orch_kv_cache.Manager.Build.{
  fetch, build_blocks, total_count, build_layer, build_layers, build_past_kv,
}

module _ {ℓ} {T : Type ℓ} where
  pub fetch-Keeps : (m : KvCacheManager T) (i : ℕ) → Keeps m (fetch m i)
  fetch-Keeps m i =
      elim (same_tier (m.heap i).tier gpu) as (λ b. Keeps m (if b then m else promote_block m i)) [
        | true ↦ Keeps-refl m
        | false ↦ promote_block-Keeps m i
      ]

  fetch-gpu_data :
      (m : KvCacheManager T) (i : ℕ) (d : Tensor T)
      → stored m i ≡ some d
      → ((fetch m i).heap i).gpu_data ≡ some d
  fetch-gpu_data m i d h = ground (arith, promote_block-gpu_data m i d h)

  Keeps-total_count :
      {m n : KvCacheManager T} → Keeps m n → (ids : List ℕ) → total_count n ids ≡ total_count m ids
  Keeps-total_count k [] = refl
  Keeps-total_count k (i ∷ ids) = rw (k.token_count i, Keeps-total_count k ids)

  pub Keeps-IsResident :
      {m n : KvCacheManager T} (i : ℕ) → Keeps m n → IsResident m i → IsResident n i
  Keeps-IsResident i k r = record {
    tensor = r.tensor;
    held = k.stored i ∙ r.held;
    sized = rw k.config r.sized;
    fits = rw (k.config, k.token_count i) r.fits;
    capacity = rw (k.config, k.capacity i) r.capacity;
  }

  build_blocks_skip :
      (m : KvCacheManager T) (i : ℕ) (ids : List ℕ) (pos : ℕ) (out : List T)
      → (m.heap i).token_count ≡ 0
      → build_blocks m (i ∷ ids) pos out ≡ build_blocks m ids pos out
  unfolding build_blocks
  build_blocks_skip m i ids pos out e = rw ((==_iff _ 0).1 e, build_blocks) refl

  build_blocks_step :
      (m : KvCacheManager T) (i n k t pos : ℕ) (ids : List ℕ) (done d : List T) (z : T)
      → (m.heap i).token_count ≡ n
      → (n == 0) ≡ false
      → stored m i ≡ some d
      → n ≤ length d
      → t ≡ n + k
      → pos ≡ length done
      → build_blocks m (i ∷ ids) pos (done ++ replicate t z)
        ≡ build_blocks (fetch m i) ids (pos + n) ((done ++ take n d) ++ replicate k z)
  unfolding build_blocks
  build_blocks_step m i n k t pos ids done d z count more held room ht hpos =
      let count' = (fetch-Keeps m i).token_count i ∙ count in
      rw (count, more, build_blocks)
        (rw (fetch-gpu_data m i d held) (
          rw (count', hpos, assign_next done (take n d) n k t z (omega (arith, length-take n d)) ht)
            refl))

  -- The rest of a layer is written behind what is already there.
  build_blocks_lem :
      (m : KvCacheManager T) (ids : List ℕ) (done : List T) (pos : ℕ) (z : T)
      → pos ≡ length done
      → All (IsResident m) ids
      → (n : KvCacheManager T) × (build_blocks m ids pos (done ++ replicate (total_count m ids) z)
          ≡ ok (n, done ++ layer_tokens m ids))
        × Keeps m n
  unfolding build_blocks
  build_blocks_lem m [] done pos z e h = (m, refl, Keeps-refl m)
  build_blocks_lem m (i ∷ ids) done pos z e h = elim (Bool-cases ((m.heap i).token_count == 0)) [
    | inl q ↦
        let none_here = (==_iff _ 0).0 q in
        let (n, built, k) = build_blocks_lem m ids done pos z e h.1 in
        (n, rw (build_blocks_skip m i ids pos _ none_here, none_here, zero-add) built, k)
    | inr q ↦
        let r = h.0 in
        let count = (m.heap i).token_count in
        let f = fetch-Keeps m i in
        let (n, built, k) =
          build_blocks_lem (fetch m i) ids (done ++ take count r.tensor) (pos + count) z
            (omega (
              arith,
              length-append done (take count r.tensor),
              length-take count r.tensor,
              r.sized,
              r.fits,
            ))
            (All-map (λ j. Keeps-IsResident j f) ids h.1) in
        (
          n,
          build_blocks_step m i count (total_count m ids) _ pos ids done r.tensor z refl q r.held
                (omega (arith, r.sized, r.fits)) refl e
              ∙ rw (← Keeps-total_count f ids, ← Keeps-layer_tokens f ids, r.held, ← append_assoc)
                  built,
          Keeps-trans f k,
        )
  ]

  pub build_layer_lem :
      (m : KvCacheManager T) (ids : List ℕ)
      → All (IsResident m) ids
      → (n : KvCacheManager T) × (build_layer m ids ≡ ok (n, layer_tokens m ids)) × Keeps m n
  unfolding build_layer
  build_layer_lem m ids h = build_blocks_lem m ids [] 0 m.zeros refl h

  build_layers_lem :
      (m : KvCacheManager T) (ls : List (List ℕ))
      → All (All (IsResident m)) ls
      → (n : KvCacheManager T) × (build_layers m ls ≡ ok (n, map (layer_tokens m) ls)) × Keeps m n
  unfolding build_layers
  build_layers_lem m [] h = (m, refl, Keeps-refl m)
  build_layers_lem m (ids ∷ ls) h =
      let (n, first, k) = build_layer_lem m ids h.0 in
      let (n', rest, k') =
        build_layers_lem n ls (All-map (λ js. All-map (λ j. Keeps-IsResident j k) js) ls h.1) in
      (n', rw (first, rest, map-layer_tokens k ls) refl, Keeps-trans k k')

  -- On a valid manager `build_past_kv` does not raise, it returns every layer's tokens, and it
  -- leaves a valid manager of the same configuration that still holds them.
  pub build_past_kv_lossless :
      (m : KvCacheManager T)
      → IsValid m
      → (n : KvCacheManager T) × (build_past_kv m ≡ ok (n, contents m))
        × IsValid n
        × (n.config ≡ m.config)
        × (contents n ≡ contents m)
  unfolding build_past_kv
  build_past_kv_lossless m v =
      let at_id = λ (i : ℕ) (h : i < m.next_block_id). v.resident i h in
      let (n, built, k) =
        build_layers_lem m m.blocks (All-map (λ ids. All-map at_id ids) m.blocks v.listed) in
      (n, built, Keeps-IsValid k v, k.config, Keeps-contents k)
