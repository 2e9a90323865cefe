-- ===== src/Manager/Registration.antt =====
-- What `orchkv_core` is told of a new block: `tm_register_block_id` of bindings/orchkv_pybind.cpp
-- takes the tier third and the flags fourth, and `KV_FLAG_ATTN_SINK` of core/kv_types.h is 0x08.
use orch_kv_cache.Prelude.{
  ℕ, ◌/◌, ◌%◌, ◌==◌, ◌≡◌, refl, Bool, true, false, Option, none, some, List, ◌∷◌, arith, ok, ltb,
  Option-cases, get_elem?, inl, inr,
}
use mathlib.Core.Path.{subst}
use orch_kv_cache.Prelude.Heap.{update_self}
use orch_kv_cache.Manager.{
  KvCacheManager, TmCall, register_block_id, has_handle, alloc_block, allocated, no_block, flags_of,
}

-- The block that the binding registers: its fields that the scheduler reads.
pub record CoreBlock : Type 0 where
  pub block_id : ℕ
  pub tier : ℕ
  pub flags : ℕ

-- The body of the binding's `tm_register_block_id`.
pub tm_register_block_id : ℕ → ℕ → ℕ → CoreBlock
tm_register_block_id block_id tier flags = record {
  block_id = block_id;
  tier = tier;
  flags = flags;
}

-- The block of the latest call, if that is a registration.
pub registered : List TmCall → Option CoreBlock
unfolding tm_register_block_id
registered (register_block_id b third fourth ∷ calls) = some (tm_register_block_id b third fourth)
registered _ = none

-- `flags & KV_FLAG_ATTN_SINK`.
pub is_attn_sink : ℕ → Bool
is_attn_sink flags = (flags / 8) % 2 == 1

module _ {ℓ} {T : Type ℓ} where
  Registers : KvCacheManager T → ℕ → Type 0
  Registers g bid =
      (b : CoreBlock) × (registered g.tm_calls ≡ some b)
      × (b.block_id ≡ bid)
      × (b.tier ≡ flags_of ((g.heap bid).is_sink))
      × (is_attn_sink b.flags ≡ false)

  allocated-Registers :
      (m : KvCacheManager T) (layer token_start : ℕ) (ids : List ℕ)
      → has_handle m ≡ true
      → Registers (allocated m layer ids token_start) m.next_block_id
  unfolding Registers registered is_attn_sink
  allocated-Registers m layer token_start ids h =
      let sink = ltb token_start m.sink_tokens in
      let self = update_self m.heap m.next_block_id (record no_block {
        layer = layer;
        token_start = token_start;
        capacity = m.block_size;
        is_sink = sink;
      }) in
      (
        record { block_id = m.next_block_id; tier = flags_of sink; flags = 0 },
        rw h refl,
        refl,
        rw self refl,
        refl,
      )

  moved : {m n : KvCacheManager T} {i j : ℕ} → m ≡ n → i ≡ j → Registers m i → Registers n j
  moved {m = m} {j = j} e f r = subst (λ k. Registers k j) e (subst (Registers m) f r)

  -- With a core, every allocated block is registered with the flags 0, so that the core takes no
  -- block for an attention sink, and a sink block is registered on tier 1, host memory, though it
  -- is on the GPU.
  pub alloc_block_registers :
      (m g : KvCacheManager T) (layer token_start bid : ℕ)
      → has_handle m ≡ true
      → alloc_block m layer token_start ≡ ok (g, bid)
      → (b : CoreBlock) × (registered g.tm_calls ≡ some b)
        × (b.block_id ≡ bid)
        × (b.tier ≡ flags_of ((g.heap bid).is_sink))
        × (is_attn_sink b.flags ≡ false)
  unfolding alloc_block Registers registered is_attn_sink
  alloc_block_registers m g layer token_start bid h e =
      elim (Option-cases (get_elem? m.blocks layer)) [
        | inl none_there ↦ absurd (ground arith)
        | inr (ids, found) ↦
            let same : allocated m layer ids token_start ≡ g = ground arith in
            let at_bid : m.next_block_id ≡ bid = ground arith in
            moved same at_bid (allocated-Registers m layer token_start ids h)
      ]
