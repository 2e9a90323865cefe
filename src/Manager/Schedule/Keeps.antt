-- ===== src/Manager/Schedule/Keeps.antt =====
-- A scheduling cycle moves blocks and changes nothing of what the manager holds.
use orch_kv_cache.Prelude.{
  ℕ, ◌≡◌, refl, ◌⊎◌, inl, inr, Bool, true, false, none, List, [], ◌∷◌, arith, Bool-cases,
  Option-cases, ok, get_elem?, All, All-map, All-keep, All-take, keep, ltb, length, if◌then◌else◌,
}
use orch_kv_cache.Prelude.Budget.{BudgetTest}
use orch_kv_cache.Prelude.Sorting.{All-sort}
use orch_kv_cache.Manager.{KvCacheManager, TmCall, dram, all_blocks, has_handle, gpu_kv_bytes}
use orch_kv_cache.Manager.Invariant.{
  OwnPaths, IsValid, Keeps, Keeps-refl, Keeps-trans, Keeps-IsValid, Keeps-contents, contents,
}
use orch_kv_cache.Manager.Moves.{demote_block, promote_block, save_to_ssd}
use orch_kv_cache.Manager.Moves.Keeps.{demote_block-Keeps, promote_block-Keeps, save_to_ssd-Keeps}
use orch_kv_cache.Manager.Schedule.{
  evict_loop, has_room, evict_cold_blocks, promote_all, promote_warm_blocks, warm_candidates,
  cold_candidates, save_all, spill_dram_to_ssd, fewer_accesses, may_spill, rebalance, schedule,
  report_block, report_blocks, report_attention,
}

module _ {ℓ} {T : Type ℓ} where
  abbrev Spillable : KvCacheManager T → ℕ → Type ℓ
  Spillable m i = ((m.heap i).tier ≡ dram) ⊎ ((m.heap i).dram_data ≡ none)

  save_to_ssd-Spillable :
      (m : KvCacheManager T) (i j : ℕ) → Spillable m j → Spillable (save_to_ssd m i) j
  unfolding save_to_ssd
  save_to_ssd-Spillable m i j h = ground arith

  save_to_ssd-none :
      (m : KvCacheManager T) (i : ℕ) → (m.heap i).dram_data ≡ none → save_to_ssd m i ≡ m
  unfolding save_to_ssd
  save_to_ssd-none m i h = rw (h, save_to_ssd) refl

  save_any-Keeps :
      (m : KvCacheManager T) (i : ℕ) → OwnPaths m → Spillable m i → Keeps m (save_to_ssd m i)
  save_any-Keeps m i own (inl e) = save_to_ssd-Keeps m i own e
  save_any-Keeps m i own (inr e) = rw (save_to_ssd-none m i e) (Keeps-refl m)

  save_all-Keeps :
      (m : KvCacheManager T) (ids : List ℕ)
      → OwnPaths m
      → All (Spillable m) ids
      → Keeps m (save_all m ids)
  unfolding save_all
  save_all-Keeps m [] own h = Keeps-refl m
  save_all-Keeps m (i ∷ ids) own h =
      let k = save_any-Keeps m i own h.0 in
      Keeps-trans k (
        save_all-Keeps (save_to_ssd m i) ids (k.own_paths own)
          (All-map (λ j. save_to_ssd-Spillable m i j) ids h.1))

  Spillable-of_may_spill : (m : KvCacheManager T) (i : ℕ) → may_spill m i ≡ true → Spillable m i
  Spillable-of_may_spill m i h = ground arith

  spill_dram_to_ssd-Keeps : (m : KvCacheManager T) → OwnPaths m → Keeps m (spill_dram_to_ssd m)
  unfolding spill_dram_to_ssd
  spill_dram_to_ssd-Keeps m own =
      let found = keep (may_spill m) (all_blocks m) in
      elim (Bool-cases (ltb (length found) 4)) [
        | inl e ↦ rw e (Keeps-refl m)
        | inr e ↦ rw e (
            save_all-Keeps m _ own (
              All-take (Spillable m) 4 _ (
                All-sort (fewer_accesses m) (Spillable m) found (
                  All-map (Spillable-of_may_spill m) found
                    (All-keep (may_spill m) (all_blocks m))))))
      ]

  promote_all-Keeps : (m : KvCacheManager T) (ids : List ℕ) → Keeps m (promote_all m ids)
  unfolding promote_all
  promote_all-Keeps m [] = Keeps-refl m
  promote_all-Keeps m (i ∷ ids) =
      Keeps-trans (promote_block-Keeps m i) (promote_all-Keeps (promote_block m i) ids)

  Keeps-if : (b : Bool) (m n : KvCacheManager T) → Keeps m n → Keeps m (if b then n else m)
  Keeps-if true m n k = k
  Keeps-if false m n k = Keeps-refl m

  Keeps-if_pair {κ} :
      {B : Type κ} (b : Bool) (m : KvCacheManager T) (r : KvCacheManager T × B) (y : B)
      → Keeps m r.0
      → Keeps m (if b then r else (m, y)).0
  Keeps-if_pair true m r y k = k
  Keeps-if_pair false m r y k = Keeps-refl m

  Keeps-calls :
      (m : KvCacheManager T) (calls : List TmCall) → Keeps m (record m { tm_calls = calls })
  Keeps-calls m calls = record {
    config = refl;
    blocks = refl;
    next = refl;
    stored = λ i. refl;
    layer = λ i. refl;
    token_count = λ i. refl;
    capacity = λ i. refl;
    is_sink = λ i. refl;
    own_paths = λ h. h;
  }

  report_block-Keeps : (n : ℕ) (m : KvCacheManager T) (i : ℕ) → Keeps m (report_block n m i)
  report_block-Keeps n m i = record {
    config = ground arith;
    blocks = ground arith;
    next = ground arith;
    stored = λ j. ground arith;
    layer = λ j. ground arith;
    token_count = λ j. ground arith;
    capacity = λ j. ground arith;
    is_sink = λ j. ground arith;
    own_paths = λ h j p. ground (arith, h j p);
  }

  report_blocks-Keeps :
      (n : ℕ) (m : KvCacheManager T) (ids : List ℕ) → Keeps m (report_blocks n m ids)
  unfolding report_blocks
  report_blocks-Keeps n m [] = Keeps-refl m
  report_blocks-Keeps n m (i ∷ ids) =
      Keeps-trans (report_block-Keeps n m i) (report_blocks-Keeps n (report_block n m i) ids)

  -- Reporting attention changes the counters of blocks only.
  pub report_attention-Keeps :
      (m g : KvCacheManager T) (l n : ℕ) → report_attention m l n ≡ ok g → Keeps m g
  unfolding report_attention
  report_attention-Keeps m g l n e = elim (Option-cases (get_elem? m.blocks l)) [
    | inl q ↦ elim (Bool-cases (has_handle m)) [
      | inl h ↦ absurd (ground arith)
      | inr h ↦ let e' : m ≡ g = ground arith in rw (← e') (Keeps-refl m)
    ]
    | inr (ids, q) ↦ elim (Bool-cases (has_handle m)) [
      | inl h ↦
          let e' : report_blocks n m ids ≡ g = ground arith in
          rw (← e') (report_blocks-Keeps n m ids)
      | inr h ↦ let e' : m ≡ g = ground arith in rw (← e') (Keeps-refl m)
    ]
  ]

module _ {ℓ} (tests : BudgetTest) {T : Type ℓ} where
  pub evict_loop-Keeps : (m : KvCacheManager T) (ids : List ℕ) → Keeps m (evict_loop tests m ids).0
  unfolding evict_loop
  evict_loop-Keeps m [] = Keeps-refl m
  evict_loop-Keeps m (i ∷ ids) = elim (Bool-cases (has_room tests m)) [
    | inl e ↦ rw (e, evict_loop) (Keeps-refl m)
    | inr e ↦
        rw (e, evict_loop)
          (Keeps-trans (demote_block-Keeps m i) (evict_loop-Keeps (demote_block m i) ids))
  ]

  evict_cold_blocks-Keeps : (m : KvCacheManager T) → Keeps m (evict_cold_blocks tests m).0
  unfolding evict_cold_blocks
  evict_cold_blocks-Keeps m = Keeps-if_pair m.core m _ 0 (evict_loop-Keeps m (cold_candidates m))

  promote_warm_blocks-Keeps : (m : KvCacheManager T) → Keeps m (promote_warm_blocks m).0
  unfolding promote_warm_blocks
  promote_warm_blocks-Keeps m = promote_all-Keeps m (warm_candidates m)

  rebalance-Keeps :
      (bytes : ℕ) (m : KvCacheManager T) → OwnPaths m → Keeps m (rebalance tests bytes m).0
  unfolding rebalance
  rebalance-Keeps bytes m own =
      let evict = Keeps-if_pair {B = ℕ} _ m _ 0 (evict_cold_blocks-Keeps m) in
      let spill = Keeps-if _ _ _ (spill_dram_to_ssd-Keeps _ (evict.own_paths own)) in
      Keeps-trans evict
        (Keeps-trans spill (Keeps-if_pair {B = ℕ} _ _ _ 0 (promote_warm_blocks-Keeps _)))

  pub schedule-Keeps : (m : KvCacheManager T) → OwnPaths m → Keeps m (schedule tests m).0
  unfolding schedule
  schedule-Keeps m own =
      Keeps-if_pair (has_handle m) m _ none
        (Keeps-trans (Keeps-calls m _) (rebalance-Keeps (gpu_kv_bytes m) _ own))

  -- A scheduling cycle leaves a valid manager valid and its configuration alone, and every layer holds the tokens that it held.
  pub schedule_lossless :
      (m : KvCacheManager T)
      → IsValid m
      → IsValid (schedule tests m).0
        × ((schedule tests m).0.config ≡ m.config)
        × (contents (schedule tests m).0 ≡ contents m)
  schedule_lossless m v =
      let k = schedule-Keeps m v.own_paths in (Keeps-IsValid k v, k.config, Keeps-contents k)
