-- ===== src/Manager/Ingest.antt =====
-- `ingest_step` and `append_token`: how the tokens of a forward pass enter the blocks.
pub mod Grow
pub mod Write
pub mod Prefill
pub mod Append
pub mod Steps
use orch_kv_cache.Prelude.{
  ℕ, zero, suc, ◌+◌, ◌-◌, ◌==◌, Bool, true, false, Option, none, some, List, [], ◌∷◌, Result, ok,
  err, index_error, type_error, value_error, ◌>>=◌, if◌then◌else◌, length, replicate, sum_map,
  ok_or, min, get_elem?, get_last?, ltb, leb,
}
use orch_kv_cache.Prelude.Slices.{slice, assign, assign_slot, last_slot}
use orch_kv_cache.Manager.{Tensor, KvCacheManager, gpu, same_tier, alloc_block}
use orch_kv_cache.Manager.Moves.{promote_block, put_block}

module _ {ℓ} {T : Type ℓ} where
  -- `sum(b.token_count for b in blocks)`.
  abbrev pub managed : KvCacheManager T → List ℕ → ℕ
  managed m = sum_map (λ i. (m.heap i).token_count)

  -- A fresh block gets its tokens; a block is allocated on the GPU tier.
  abbrev pub fill_block : KvCacheManager T → ℕ → ℕ → Tensor T → KvCacheManager T
  fill_block m bid n tensor =
      put_block m bid (record (m.heap bid) { token_count = n; gpu_data = some tensor; tier = gpu })

  -- The body of the loop of `_ingest_layer`.
  unfoldable pub ingest_block : KvCacheManager T → ℕ → List T → ℕ → Result (KvCacheManager T)
  ingest_block m layer kv pos = do
    let end = min (pos + m.block_size) (length kv)
    let n = end - pos
    (m', bid) ← alloc_block m layer pos
    tensor ← assign (replicate m.block_size m.zeros) 0 n (slice pos end kv)
    ok (fill_block m' bid n tensor)

  -- `for pos in range(new_start, seq_len, self.block_size)`; `length kv` rounds are enough.
  unfoldable pub ingest_from : ℕ → KvCacheManager T → ℕ → List T → ℕ → Result (KvCacheManager T)
  ingest_from zero m layer kv pos = ok m
  ingest_from (suc fuel) m layer kv pos =
      if ltb pos (length kv)
      then (do m' ← ingest_block m layer kv pos; ingest_from fuel m' layer kv (pos + m.block_size))
      else ok m

  -- `_ingest_layer`; `range` refuses a step of 0.
  unfoldable pub ingest_layer : KvCacheManager T → ℕ → List T → Result (KvCacheManager T)
  ingest_layer m layer kv = do
    ids ← ok_or index_error (get_elem? m.blocks layer)
    if leb (length kv) (managed m ids)
        then ok m
        else if m.block_size == 0
        then err value_error
        else ingest_from (length kv) m layer kv (managed m ids)

  -- `for layer_idx, (k, v) in enumerate(legacy)`.
  abbrev pub each_layer :
      (KvCacheManager T → ℕ → List T → Result (KvCacheManager T))
      → KvCacheManager T
      → ℕ
      → List (List T)
      → Result (KvCacheManager T)
  each_layer body m layer [] = ok m
  each_layer body m layer (kv ∷ rest) = do m' ← body m layer kv; each_layer body m' (layer + 1) rest

  -- `self._total_tokens = legacy[0][0].shape[2]`.
  abbrev pub set_total : List (List T) → KvCacheManager T → Result (KvCacheManager T)
  set_total [] m = err index_error
  set_total (kv ∷ rest) m = ok (record m { total_tokens = length kv })

  unfoldable pub ingest_step : KvCacheManager T → List (List T) → Result (KvCacheManager T)
  ingest_step m legacy = do m' ← each_layer ingest_layer m 0 legacy; set_total legacy m'

  abbrev pub fetch_last : KvCacheManager T → ℕ → KvCacheManager T
  fetch_last m last = if same_tier (m.heap last).tier gpu then m else promote_block m last

  -- The end of the branch of `append_token` for a last block with room.
  unfoldable pub write_slot : KvCacheManager T → ℕ → ℕ → List T → Result (KvCacheManager T)
  write_slot m last idx kv = do
    tensor ← ok_or type_error (m.heap last).gpu_data
    token ← last_slot kv
    tensor' ← assign_slot tensor idx token
    ok (put_block m last (record (m.heap last) { gpu_data = some tensor'; token_count = idx + 1 }))

  -- That branch: the block is promoted first, if it is not on the GPU.
  unfoldable pub append_slot : KvCacheManager T → ℕ → List T → Result (KvCacheManager T)
  unfolding write_slot
  append_slot m last kv = write_slot (fetch_last m last) last (m.heap last).token_count kv

  -- The branch for a full one.
  unfoldable pub append_block : KvCacheManager T → ℕ → ℕ → List T → Result (KvCacheManager T)
  append_block m layer pos kv = do
    (m', bid) ← alloc_block m layer pos
    token ← last_slot kv
    tensor ← assign_slot (replicate m.block_size m.zeros) 0 token
    ok (fill_block m' bid 1 tensor)

  -- The body of the loop of `append_token`, once `blocks` is read.
  unfoldable pub append_to : KvCacheManager T → ℕ → List ℕ → List T → Result (KvCacheManager T)
  append_to m layer ids kv = elim (get_last? ids) [
    | none ↦ ingest_layer m layer kv
    | some last ↦
        if leb (length kv) (managed m ids)
        then ok m
        else if ltb (m.heap last).token_count (m.heap last).capacity
        then append_slot m last kv
        else append_block m layer (managed m ids) kv
  ]

  unfoldable pub append_layer : KvCacheManager T → ℕ → List T → Result (KvCacheManager T)
  unfolding append_to
  append_layer m layer kv = do
    ids ← ok_or index_error (get_elem? m.blocks layer)
    append_to m layer ids kv

  unfoldable pub append_token : KvCacheManager T → List (List T) → Result (KvCacheManager T)
  append_token m legacy = do m' ← each_layer append_layer m 0 legacy; set_total legacy m'
