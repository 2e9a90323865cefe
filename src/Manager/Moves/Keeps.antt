-- ===== src/Manager/Moves/Keeps.antt =====
-- A move of a block between two tiers changes nothing of what the manager holds.
use orch_kv_cache.Prelude.{
  ℕ, ◌≡◌, refl, ◌⊎◌, some, arith, is_some, Option-cases, Bool-cases, inl, inr, false,
}
use orch_kv_cache.Manager.{Tier, Tensor, KvCacheManager, gpu, dram, ssd, same_tier}
use orch_kv_cache.Manager.Invariant.{stored, OwnPaths, Keeps, Keeps-refl, Keeps-trans}
use orch_kv_cache.Manager.Moves.{
  demote_block, promote_block, promote_from_dram, load_from_ssd, save_to_ssd, saved,
}

Tier-cases : (t : Tier) → (t ≡ ssd) ⊎ (same_tier t ssd ≡ false)
Tier-cases gpu = inr refl
Tier-cases dram = inr refl
Tier-cases ssd = inl refl

module _ {ℓ} {T : Type ℓ} where
  pub demote_block-Keeps : (m : KvCacheManager T) (i : ℕ) → Keeps m (demote_block m i)
  unfolding demote_block
  demote_block-Keeps m i = record {
    config = ground arith;
    blocks = ground arith;
    next = ground arith;
    stored = λ j. ground arith;
    layer = λ j. ground arith;
    token_count = λ j. ground arith;
    capacity = λ j. ground arith;
    is_sink = λ j. ground arith;
    own_paths = λ h j p. ground (arith, h j p);
  }

  promote_from_dram-Keeps : (m : KvCacheManager T) (i : ℕ) → Keeps m (promote_from_dram m i)
  unfolding promote_from_dram
  promote_from_dram-Keeps m i = record {
    config = ground arith;
    blocks = ground arith;
    next = ground arith;
    stored = λ j. ground arith;
    layer = λ j. ground arith;
    token_count = λ j. ground arith;
    capacity = λ j. ground arith;
    is_sink = λ j. ground arith;
    own_paths = λ h j p. ground (arith, h j p);
  }

  load_from_ssd-Keeps :
      (m : KvCacheManager T) (i : ℕ) → (m.heap i).tier ≡ ssd → Keeps m (load_from_ssd m i)
  unfolding load_from_ssd
  load_from_ssd-Keeps m i e = record {
    config = ground arith;
    blocks = ground arith;
    next = ground arith;
    stored = λ j. ground arith;
    layer = λ j. ground arith;
    token_count = λ j. ground arith;
    capacity = λ j. ground arith;
    is_sink = λ j. ground arith;
    own_paths = λ h j p. ground (arith, h j p);
  }

  stored-saved :
      (m : KvCacheManager T) (i : ℕ) (d : Tensor T) (j : ℕ)
      → OwnPaths m
      → (m.heap i).tier ≡ dram
      → (m.heap i).dram_data ≡ some d
      → stored (saved m i d) j ≡ stored m j
  unfolding saved
  stored-saved m i d j own e h = elim (Option-cases (m.heap j).ssd_path) [
    | inl q ↦ ground arith
    | inr (p, q) ↦ ground (arith, own j p q)
  ]

  stored_after_save :
      (m : KvCacheManager T) (i : ℕ)
      → OwnPaths m
      → (m.heap i).tier ≡ dram
      → (j : ℕ) → stored (save_to_ssd m i) j ≡ stored m j
  unfolding save_to_ssd
  stored_after_save m i own e j = elim (Option-cases (m.heap i).dram_data) [
    | inl h ↦ rw (h, save_to_ssd) refl
    | inr (d, h) ↦ elim (Bool-cases (is_some m.ssd_dir)) [
      | inl q ↦ rw (h, q, save_to_ssd) (stored-saved m i d j own e h)
      | inr q ↦ rw (h, q, save_to_ssd) refl
    ]
  ]

  -- Writing a file leaves the files of the other blocks alone, since a block's file is its own.
  pub save_to_ssd-Keeps :
      (m : KvCacheManager T) (i : ℕ)
      → OwnPaths m
      → (m.heap i).tier ≡ dram
      → Keeps m (save_to_ssd m i)
  unfolding save_to_ssd
  save_to_ssd-Keeps m i own e = record {
    config = ground arith;
    blocks = ground arith;
    next = ground arith;
    stored = stored_after_save m i own e;
    layer = λ j. ground arith;
    token_count = λ j. ground arith;
    capacity = λ j. ground arith;
    is_sink = λ j. ground arith;
    own_paths = λ h j p. ground (arith, h j p);
  }

  pub promote_block-Keeps : (m : KvCacheManager T) (i : ℕ) → Keeps m (promote_block m i)
  unfolding promote_block
  promote_block-Keeps m i =
      Keeps-trans
        (elim (Tier-cases (m.heap i).tier) [
          | inl e ↦ rw e (load_from_ssd-Keeps m i e)
          | inr e ↦ rw e (Keeps-refl m)
        ])
        (promote_from_dram-Keeps _ i)
