-- ===== src/Fast/Schedule.antt =====
-- `_evict_cold_blocks` and `schedule` of `FastKVCacheManager`: the copies stay true, and the buffers
-- stay as they are.
use orch_kv_cache.Prelude.{
  ℕ, ◌+◌, ◌*◌, ◌/◌, ◌-◌, ◌≤◌, ◌<◌, ◌==◌, ◌≡◌, refl, ◌∙◌, not, ◌&&◌, true, Option, none, some, List,
  [], ◌∷◌, arith, ok, length, take, keep, tabulate, ltb, Bool-cases, inl, inr, All, All-map,
  All-take, All-keep, All-keep_of, length-take, pos→nonzero, if◌then◌else◌,
}
use orch_kv_cache.Prelude.Budget.{BudgetTest}
use orch_kv_cache.Prelude.Sorting.{sort, All-sort}
use orch_kv_cache.Manager.{Usage, set_usage, schedule_once, resident, no_budget}
use orch_kv_cache.Fifo.{FifoManager, is_in, evicted_bids, n_evicted}
use orch_kv_cache.Fifo.Copies.{SameTokens}
use orch_kv_cache.Fifo.Eviction.{
  IsSound, StaysSound, StaysSound-refl, StaysSound-trans, evict_block_lem, gpu_bytes_ok,
}
use orch_kv_cache.Fifo.Schedule.{IsRunning, StaysSound-SameTokens, reset, reset-IsSound}
use orch_kv_cache.Fifo.Write.Rows.{tabulate-IsBelow}
use orch_kv_cache.Fast.{
  FastManager, CoreScores, with_base, tell, fast_candidates, order_of, fast_evict_loop, fast_evict,
  fast_cycle, fast_schedule, fast_has_handle,
}

module _ {ℓ} {A : Type ℓ} where
  All-both {κ μ} :
      (P : A → Type κ) (Q : A → Type μ) (xs : List A)
      → All P xs
      → All Q xs
      → All (λ x. P x × Q x) xs
  All-both P Q [] h k = tt
  All-both P Q (x ∷ xs) h k = ((h.0, k.0), All-both P Q xs h.1 k.1)

module _ {ℓ} {T : Type ℓ} where
  -- Blocks with tokens that are no sinks.
  abbrev AreColdBlocks : FifoManager T → List ℕ → Type 0
  AreColdBlocks m =
      All (λ bid. (bid * m.block_size < m.total_tokens) × (m.sink_tokens ≤ bid * m.block_size))

  candidates-AreColdBlocks :
      (m : FastManager T)
      → 0 < m.block_size
      → AreColdBlocks m.base
          (fast_candidates m ((m.total_tokens + m.block_size - 1) / m.block_size))
  candidates-AreColdBlocks m positive =
      let n = (m.total_tokens + m.block_size - 1) / m.block_size in
      let test = λ (bid : ℕ).
        not (is_in bid (evicted_bids m.base)) && not (ltb (bid * m.block_size) m.sink_tokens) in
      let all = tabulate (λ bid. bid) n 0 in
      All-map (λ bid h. (h.0, ground (arith, h.1))) (keep test all)
        (All-both _ _ (keep test all)
          (All-keep_of _ test all
            (tabulate-IsBelow n 0 m.block_size m.total_tokens positive (omega arith)))
          (All-keep test all))

  -- What `schedule` does to the buffers.
  pub record Scheduled (m g : FastManager T) : Type ℓ where
    pub running : IsRunning g.base
    pub same : SameTokens m.base g.base

  -- A manager that told the core of a cycle.
  abbrev pub told_of_cycle : FastManager T → Usage → FastManager T
  told_of_cycle m usage =
      let told = tell true schedule_once (tell true (set_usage usage) m) in
      with_base told (reset told.base)

  reset-Scheduled :
      (m : FastManager T) (usage : Usage) → IsRunning m.base → Scheduled m (told_of_cycle m usage)
  reset-Scheduled m usage v = record {
    running = record { sound = reset-IsSound m.base v.sound; queued = v.queued; few = omega arith };
    same = record {
      faithful = v.sound.faithful;
      config = refl;
      total = refl;
      max = refl;
      bufs = λ li. refl;
    };
  }

module _ {ℓ} (tests : BudgetTest) (scores : CoreScores) {T : Type ℓ} where
  fast_evict_loop_lem :
      (m : FastManager T) (bids : List ℕ)
      → IsSound m.base
      → AreColdBlocks m.base bids
      → (g : FastManager T) × (n : ℕ) × (fast_evict_loop tests scores m bids ≡ ok (g, n))
        × StaysSound m.base g.base
        × (g.evictions_this_step ≡ m.evictions_this_step + n)
        × (n ≤ length bids)
        × (g.base.fifo_queue ≡ m.base.fifo_queue)
  unfolding fast_evict_loop
  fast_evict_loop_lem m [] v h =
      (m, 0, refl, StaysSound-refl m.base v, omega arith, omega arith, refl)
  fast_evict_loop_lem m (bid ∷ bids) v h =
      let (b, done, k, count, queue) = evict_block_lem m.base bid v h.0.0 h.0.1 in
      let (bytes, counted) = gpu_bytes_ok b k.sound in
      elim (Bool-cases (tests.at_most bytes b.gpu_budget_bytes 85)) [
        | inl room ↦
            (with_base m b, 1, rw (done, counted) (rw room refl), k, count, omega arith, queue)
        | inr full ↦
            let (g, n, more, k', count', few, q) =
              fast_evict_loop_lem (with_base m b) bids k.sound (rw (k.config, k.total) h.1) in
            (
              g,
              n + 1,
              rw (done, counted) (rw full (rw more refl)),
              StaysSound-trans k k',
              omega (arith, count, count'),
              omega (arith, few),
              q ∙ queue,
            )
      ]

  fast_evict_lem :
      (m : FastManager T)
      → IsRunning m.base
      → (g : FastManager T) × (n : ℕ) × (fast_evict tests scores (with_base m (reset m.base))
          ≡ ok (g, n))
        × Scheduled m g
  unfolding fast_evict
  fast_evict_lem m v =
      let start = with_base m (reset m.base) in
      let positive = pos→nonzero m.block_size v.sound.positive in
      let sorted =
        sort (order_of scores start)
          (fast_candidates start ((m.total_tokens + m.block_size - 1) / m.block_size)) in
      let cold =
        All-take _ 8 sorted (
          All-sort (order_of scores start) _ _ (candidates-AreColdBlocks start v.sound.positive)) in
      let (g, n, done, k, count, few, queue) =
        fast_evict_loop_lem start (take 8 sorted) (reset-IsSound m.base v.sound) cold in
      (
        g,
        n,
        rw positive done,
        record {
          running = record {
            sound = k.sound;
            queued = rw (queue, k.config, k.total) v.queued;
            few = omega (arith, count, few, length-take 8 sorted);
          };
          same = record {
            faithful = k.sound.faithful;
            config = k.config;
            total = k.total;
            max = k.max;
            bufs = k.bufs;
          };
        },
      )

  fast_cycle_lem :
      (m : FastManager T)
      → IsRunning m.base
      → (g : FastManager T) × (usage : Usage) × (fast_cycle tests scores m ≡ ok (g, usage))
        × Scheduled m g
  unfolding fast_cycle
  fast_cycle_lem m v =
      let positive = pos→nonzero m.block_size v.sound.positive in
      let total = (m.total_tokens + m.block_size - 1) / m.block_size * m.n_layers in
      let usage = if ltb 0 total then resident (n_evicted m.base) total else no_budget in
      let told = tell true schedule_once (tell true (set_usage usage) m) in
      let (bytes, counted) = gpu_bytes_ok (reset m.base) (reset-IsSound m.base v.sound) in
      elim (Bool-cases (m.gpu_budget_bytes == 0)) [
        | inl none_set ↦
            (told_of_cycle m usage, usage, rw (positive, none_set) refl, reset-Scheduled m usage v)
        | inr budget ↦ elim (Bool-cases (tests.at_most bytes m.gpu_budget_bytes 85)) [
          | inl room ↦ (
            told_of_cycle m usage,
            usage,
            rw (positive, budget) (rw counted (rw room refl)),
            reset-Scheduled m usage v,
          )
          | inr full ↦
              let (g, n, done, k) = fast_evict_lem told v in
              (
                g,
                usage,
                rw (positive, budget) (rw counted (rw full (rw done refl))),
                record { running = k.running; same = k.same },
              )
        ]
      ]

  pub fast_schedule_lem :
      (m : FastManager T)
      → IsRunning m.base
      → (g : FastManager T) × (r : Option (ℕ × Usage)) × (fast_schedule tests scores m ≡ ok (g, r))
        × Scheduled m g
  unfolding fast_schedule
  fast_schedule_lem m v = elim (Bool-cases (fast_has_handle m)) [
    | inl h ↦
        let (g, usage, done, k) = fast_cycle_lem m v in
        (g, some (g.step, usage), rw h (rw done refl), k)
    | inr h ↦ (
      m,
      none,
      rw h refl,
      record { running = v; same = StaysSound-SameTokens (StaysSound-refl m.base v.sound) },
    )
  ]
