-- ===== src/Fifo/Schedule.antt =====
-- The loop of `_evict_fifo` over the queue, and `schedule`.
use orch_kv_cache.Prelude.{
  ℕ, zero, suc, ◌+◌, ◌*◌, ◌≤◌, ◌<◌, ◌==◌, ◌≡◌, refl, ◌||◌, Option, none, some, List, [], ◌∷◌, arith,
  ok, ltb, Bool-cases, inl, inr, All,
}
use orch_kv_cache.Prelude.Budget.{BudgetTest}
use orch_kv_cache.Fifo.{
  FifoManager, is_in, evict_queue, evicted_bids, fifo_schedule, fifo_build, rows,
}
use orch_kv_cache.Fifo.Copies.{SameTokens, SameTokens-rows, fifo_build_restores}
use orch_kv_cache.Fifo.Eviction.{
  IsSound, StaysSound, StaysSound-refl, StaysSound-trans, evict_block_lem, gpu_bytes_ok,
}

module _ {ℓ} {T : Type ℓ} where
  -- The entries of the queue are blocks that have tokens.
  abbrev pub IsQueued : FifoManager T → List ℕ → Type 0
  IsQueued m queue = All (λ bid. bid * m.block_size < m.total_tokens) queue

  -- What an eviction leaves.
  pub record Evicted (m g : FifoManager T) (most : ℕ) : Type ℓ where
    pub stays : StaysSound m g
    pub queued : IsQueued g g.fifo_queue
    pub few : g.evictions_this_step ≤ m.evictions_this_step + most

  -- What holds of a manager between two calls.
  pub record IsRunning (m : FifoManager T) : Type ℓ where
    pub sound : IsSound m
    pub queued : IsQueued m m.fifo_queue
    pub few : m.evictions_this_step ≤ 8

  -- Another queue of blocks that have tokens.
  pub requeue-IsRunning :
      (m : FifoManager T) (queue : List ℕ)
      → IsRunning m
      → IsQueued m queue
      → IsRunning (record m { fifo_queue = queue })
  requeue-IsRunning m queue v q = record {
    sound = record {
      faithful = v.sound.faithful;
      positive = v.sound.positive;
      filled = v.sound.filled;
      copies = v.sound.copies;
    };
    queued = q;
    few = v.few;
  }

  pub StaysSound-SameTokens : {m g : FifoManager T} → StaysSound m g → SameTokens m g
  StaysSound-SameTokens k = record {
    faithful = k.sound.faithful;
    config = k.config;
    total = k.total;
    max = k.max;
    bufs = k.bufs;
  }

  with_queue :
      (m g : FifoManager T) (queue : List ℕ)
      → StaysSound m g
      → IsQueued m queue
      → (n most : ℕ) → g.evictions_this_step ≡ m.evictions_this_step + n
      → n ≤ most
      → Evicted m (record g { fifo_queue = queue }) most
  with_queue m g queue k q n most h h' = record {
    stays = record {
      sound = record {
        faithful = k.sound.faithful;
        positive = k.sound.positive;
        filled = k.sound.filled;
        copies = k.sound.copies;
      };
      config = k.config;
      total = k.total;
      max = k.max;
      bufs = k.bufs;
    };
    queued = rw (k.config, k.total) q;
    few = omega arith;
  }

  -- A manager whose evictions are counted from 0.
  abbrev pub reset : FifoManager T → FifoManager T
  reset m = record m { evictions_this_step = 0 }

  pub reset-IsSound : (m : FifoManager T) → IsSound m → IsSound (reset m)
  reset-IsSound m v = record {
    faithful = v.faithful;
    positive = v.positive;
    filled = v.filled;
    copies = v.copies;
  }

module _ {ℓ} (tests : BudgetTest) {T : Type ℓ} where
  evict_queue_lem :
      (bids : List ℕ) (m : FifoManager T) (queue : List ℕ) (left : ℕ)
      → IsSound m
      → IsQueued m queue
      → (g : FifoManager T) × (evict_queue tests bids m queue left ≡ ok g) × Evicted m g left
  unfolding evict_queue
  evict_queue_lem bids m [] left v q =
      (_, refl, with_queue m m [] (StaysSound-refl m v) tt 0 left (omega arith) (omega arith))
  evict_queue_lem bids m (bid ∷ queue) zero v q = (
    _,
    refl,
    with_queue m m (bid ∷ queue) (StaysSound-refl m v) q 0 0 (omega arith) (omega arith),
  )
  evict_queue_lem bids m (bid ∷ queue) (suc left) v q =
      elim (Bool-cases (is_in bid bids || ltb (bid * m.block_size) m.sink_tokens)) [
        | inl skip ↦
            let (g, done, e) = evict_queue_lem bids m queue (suc left) v q.1 in
            (g, rw (skip, evict_queue) done, e)
        | inr take_it ↦
            let (n, done, k, count, _) = evict_block_lem m bid v q.0 (ground arith) in
            let (bytes, counted) = gpu_bytes_ok n k.sound in
            elim (Bool-cases (tests.at_most bytes n.gpu_budget_bytes 70)) [
              | inl room ↦ (
                record n { fifo_queue = queue },
                rw (take_it, evict_queue) (rw (done, counted) (rw room refl)),
                with_queue m n queue k q.1 1 (suc left) count (omega arith),
              )
              | inr full ↦
                  let (g, more, e) =
                    evict_queue_lem bids n queue left k.sound (rw (k.config, k.total) q.1) in
                  (
                    g,
                    rw (take_it, evict_queue) (rw (done, counted) (rw full more)),
                    record {
                      stays = StaysSound-trans k e.stays;
                      queued = e.queued;
                      few = omega (arith, e.few, count);
                    },
                  )
            ]
      ]

  Evicted-IsRunning : (m : FifoManager T) {g : FifoManager T} → Evicted (reset m) g 8 → IsRunning g
  Evicted-IsRunning m e = record {
    sound = e.stays.sound;
    queued = e.queued;
    few = omega (arith, e.few);
  }

  pub fifo_schedule_lem :
      (m : FifoManager T)
      → IsRunning m
      → (g : FifoManager T) × (r : Option ℕ) × (fifo_schedule tests m ≡ ok (g, r))
        × IsRunning g
        × SameTokens m g
  unfolding fifo_schedule
  fifo_schedule_lem m v = elim (Bool-cases (m.gpu_budget_bytes == 0)) [
    | inl none_set ↦
        (m, none, rw none_set refl, v, StaysSound-SameTokens (StaysSound-refl m v.sound))
    | inr budget ↦
        let (bytes, counted) = gpu_bytes_ok m v.sound in
        elim (Bool-cases (tests.at_most bytes m.gpu_budget_bytes 85)) [
          | inl room ↦ (
            reset m,
            some m.step,
            rw (budget, counted, room) refl,
            record { sound = reset-IsSound m v.sound; queued = v.queued; few = omega arith },
            StaysSound-SameTokens (record {
              sound = reset-IsSound m v.sound;
              config = refl;
              total = refl;
              max = refl;
              bufs = λ li. refl;
            }),
          )
          | inr full ↦
              let (g, done, e) =
                evict_queue_lem (evicted_bids m) (reset m) m.fifo_queue 8 (reset-IsSound m v.sound)
                  v.queued in
              (
                g,
                some g.step,
                rw (budget, counted, full) (rw done refl),
                Evicted-IsRunning m e,
                StaysSound-SameTokens (record {
                  sound = e.stays.sound;
                  config = e.stays.config;
                  total = e.stays.total;
                  max = e.stays.max;
                  bufs = e.stays.bufs;
                }),
              )
        ]
  ]

  -- On a manager whose copies are true and of tokens that are no sinks, whose queue holds blocks
  -- with tokens and that counts at most 8 evictions, `schedule` does not raise and keeps all of
  -- this, so it copies no sink and evicts at most 8 blocks; and `build_past_kv`
  -- after it returns the first `total_tokens` tokens of each buffer as it was before.
  pub fifo_schedule_lossless :
      (m : FifoManager T)
      → IsRunning m
      → (g : FifoManager T) × (r : Option ℕ) × (k : FifoManager T) × (fifo_schedule tests m
          ≡ ok (g, r))
        × IsRunning g
        × (fifo_build g ≡ ok (k, rows m))
  fifo_schedule_lossless m v =
      let (g, r, done, running, same) = fifo_schedule_lem m v in
      let (k, built, _, _) = fifo_build_restores g same.faithful in
      (g, r, k, done, running, rw (SameTokens-rows same) at built)
