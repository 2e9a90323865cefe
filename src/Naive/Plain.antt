-- ===== src/Naive/Plain.antt =====
-- A `NaiveOffloadManager` seen as a `KVCacheManager` without a core, files and sinks.
use orch_kv_cache.Prelude.{
  ℕ, ◌+◌, ◌≡◌, refl, sym, ap, ◌-◌, ◌==◌, if◌then◌else◌, false, true, none, some, Option, List, [],
  ◌∷◌, arith, ltb, Bool-cases, inl, inr,
}
use mathlib.Core.Path.{subst, fun_ext}
use orch_kv_cache.Prelude.Budget.{BudgetTest}
use orch_kv_cache.Manager.{KvCacheManager, KvBlock, Tensor, Tier, gpu, dram, ssd, same_tier}
use orch_kv_cache.Manager.Invariant.{Keeps, Keeps-refl, Keeps-trans}
use orch_kv_cache.Manager.Ingest.Grow.{grown}
use orch_kv_cache.Naive.{NaiveManager, add_block, naive_block_bytes, naive_gpu_bytes}
use orch_kv_cache.Naive.Schedule.{
  naive_demoted, naive_demote, Eviction, naive_evict_blocks, naive_evict_layers, naive_schedule,
}

ltb_zero : (a : ℕ) → ltb a 0 ≡ false
ltb_zero a = ground arith

same_gpu : (t : Tier) → same_tier t gpu ≡ true → t ≡ gpu
same_gpu gpu e = refl
same_gpu dram e = cc
same_gpu ssd e = cc

module _ {ℓ} {T : Type ℓ} where
  abbrev pub plain : NaiveManager T → KvCacheManager T
  plain n = record {
    config = record {
      n_layers = n.n_layers;
      n_kv_heads = n.n_kv_heads;
      head_dim = n.head_dim;
      block_size = n.block_size;
      itemsize = n.itemsize;
      zeros = n.zeros;
      gpu_budget_bytes = n.gpu_budget_bytes;
      ssd_dir = none;
      sink_tokens = 0;
    };
    core = false;
    tm_handle = none;
    tm_calls = [];
    next_block_id = n.next_block_id;
    total_tokens = n.total_tokens;
    step = 0;
    blocks = n.blocks;
    heap = n.heap;
    files = λ i. none;
    migrations = record {
      gpu_to_dram = n.gpu_to_dram;
      dram_to_gpu = n.dram_to_gpu;
      dram_to_ssd = 0;
      ssd_to_dram = 0;
      total_blocks = n.total_blocks;
    };
  }

  pub add_block-plain :
      (n : NaiveManager T) (l : ℕ) (ids : List ℕ) (pos k : ℕ) (d : Tensor T)
      → plain (add_block n l ids pos k d) ≡ grown (plain n) l ids pos k d
  add_block-plain n l ids pos k d =
      ap (λ (h : ℕ → KvBlock T). record (plain (add_block n l ids pos k d)) { heap = h })
        (fun_ext λ j. elim (Bool-cases (n.next_block_id == j)) [
          | inl e ↦ ground (arith, ltb_zero pos)
          | inr e ↦ ground (arith, ltb_zero pos)
        ])

  pub naive_demoted-Keeps :
      (n : NaiveManager T) (i : ℕ) (d : Tensor T)
      → (n.heap i).gpu_data ≡ some d
      → (n.heap i).tier ≡ gpu
      → Keeps (plain n) (plain (naive_demoted n i d))
  naive_demoted-Keeps n i d held on = record {
    config = refl;
    blocks = refl;
    next = refl;
    stored = λ j. ground arith;
    layer = λ j. ground arith;
    token_count = λ j. ground arith;
    capacity = λ j. ground arith;
    is_sink = λ j. ground arith;
    own_paths = λ h j p e. h j p (ground arith);
  }

  naive_demote-Keeps :
      (e : Eviction T) (i : ℕ) (o : Option (Tensor T))
      → (e.manager.heap i).gpu_data ≡ o
      → Keeps (plain e.manager) (plain (naive_demote e i o).manager)
  naive_demote-Keeps e i none held = Keeps-refl (plain e.manager)
  naive_demote-Keeps e i (some d) held = elim (Bool-cases (same_tier (e.manager.heap i).tier gpu)) [
    | inl on ↦
        let moved = naive_demoted-Keeps e.manager i d held (same_gpu (e.manager.heap i).tier on) in
        subst
          (λ b. Keeps (plain e.manager) (
            plain
              (if b
                then record {
                  manager = naive_demoted e.manager i d;
                  gpu_bytes = e.gpu_bytes - naive_block_bytes e.manager.config;
                  evicted = e.evicted + 1;
                }
                else e).manager))
          (sym on) moved
    | inr off ↦
        subst
          (λ b. Keeps (plain e.manager) (
            plain
              (if b
                then record {
                  manager = naive_demoted e.manager i d;
                  gpu_bytes = e.gpu_bytes - naive_block_bytes e.manager.config;
                  evicted = e.evicted + 1;
                }
                else e).manager))
          (sym off) (Keeps-refl (plain e.manager))
  ]

module _ {ℓ} (tests : BudgetTest) {T : Type ℓ} where
  naive_evict_blocks-Keeps :
      (e : Eviction T) (ids : List ℕ)
      → Keeps (plain e.manager) (plain (naive_evict_blocks tests e ids).manager)
  unfolding naive_evict_blocks
  naive_evict_blocks-Keeps e [] = Keeps-refl (plain e.manager)
  naive_evict_blocks-Keeps e (i ∷ ids) =
      let e' = naive_demote e i (e.manager.heap i).gpu_data in
      elim (tests.at_most e.gpu_bytes e.manager.gpu_budget_bytes 70)
        as (λ b. Keeps (plain e.manager) (
          plain
            (elim b as (λ c. Eviction T) [
              | true ↦ e
              | false ↦ naive_evict_blocks tests e' ids
            ]).manager)) [
              | true ↦ Keeps-refl (plain e.manager)
              | false ↦
                  Keeps-trans (naive_demote-Keeps e i (e.manager.heap i).gpu_data refl)
                    (naive_evict_blocks-Keeps e' ids)
            ]

  naive_evict_layers-Keeps :
      (e : Eviction T) (ls : List (List ℕ))
      → Keeps (plain e.manager) (plain (naive_evict_layers tests e ls).manager)
  unfolding naive_evict_layers
  naive_evict_layers-Keeps e [] = Keeps-refl (plain e.manager)
  naive_evict_layers-Keeps e (ids ∷ ls) =
      Keeps-trans (naive_evict_blocks-Keeps e ids)
        (naive_evict_layers-Keeps (naive_evict_blocks tests e ids) ls)

  pub naive_schedule-Keeps :
      (n : NaiveManager T) → Keeps (plain n) (plain (naive_schedule tests n).0)
  unfolding naive_schedule
  naive_schedule-Keeps n =
      let start : Eviction T = record { manager = n; gpu_bytes = naive_gpu_bytes n; evicted = 0 } in
      elim (Bool-cases (n.gpu_budget_bytes == 0)) [
        | inl e ↦ rw e (Keeps-refl (plain n))
        | inr e ↦ elim (Bool-cases (tests.at_most (naive_gpu_bytes n) n.gpu_budget_bytes 85)) [
          | inl f ↦ rw (e, f) (Keeps-refl (plain n))
          | inr f ↦ rw (e, f) (naive_evict_layers-Keeps start n.blocks)
        ]
      ]
