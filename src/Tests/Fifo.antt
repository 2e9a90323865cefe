-- ===== src/Tests/Fifo.antt =====
-- Runs of `FastFIFOManager` on one layer: each theorem of the results about it at a concrete input.
use orch_kv_cache.Prelude.{ℕ, ◌≡◌, refl, some, List, [], ◌∷◌, arith, ok, Option, none}
use mathlib.Core.Path.{subst}
use orch_kv_cache.Prelude.Slices.{assign, assign_slot}
use orch_kv_cache.Prelude.Budget.{exact}
use orch_kv_cache.Manager.Ingest.Steps.{no_layer, layer}
use orch_kv_cache.Fifo.{
  FifoConfig, FifoManager, new_fifo, rows, fifo_build, fifo_schedule, fifo_gpu_bytes, evict_queue,
  evict_block, evict_layers, evict_layer, restore_evicted_blocks, restore_layers, restore_ranges,
  restore_range,
}
use orch_kv_cache.Fifo.Copies.{IsFaithful}
use orch_kv_cache.Fifo.Write.Prefill.{fifo_ingest_lossless}
use orch_kv_cache.Fifo.Session.{
  FifoHolds, FifoStep, FifoSession, new_fifo-FifoHolds, FifoSession-lossless,
}
use orch_kv_cache.Fifo.Write.{fifo_append, fifo_ingest, ingest_rows, append_rows, make_room}
use orch_kv_cache.Fifo.Write.Grow.{IsSized}
use orch_kv_cache.Fifo.Write.Decode.{fifo_append_lossless}
use orch_kv_cache.Fifo.Schedule.{IsRunning, fifo_schedule_lossless}
use orch_kv_cache.Tests.{value_or, value_or-ok, first_row}

-- One layer, blocks of two tokens, the first block a sink, room for two blocks.
abbrev pub narrow : FifoConfig ℕ
narrow = record {
  n_layers = 1;
  n_kv_heads = 1;
  head_dim = 1;
  block_size = 2;
  itemsize = 1;
  zeros = 0;
  unset = 99;
  gpu_budget_bytes = 10;
  sink_tokens = 2;
}

-- The manager after a prompt of five tokens.
abbrev filled : FifoManager ℕ
filled = record (new_fifo narrow 8) {
  total_tokens = 5;
  bufs = λ li. 1 ∷ 2 ∷ 3 ∷ 4 ∷ 5 ∷ 0 ∷ 0 ∷ 0 ∷ [];
  fifo_queue = 0 ∷ 1 ∷ 2 ∷ [];
}

filled-IsRunning : IsRunning filled
unfolding new_fifo
filled-IsRunning = record {
  sound = record {
    faithful = λ li s e d h. cc;
    positive = omega arith;
    filled = λ li. omega arith;
    copies = λ li s e d h. cc;
  };
  queued = (omega arith, (omega arith, (omega arith, tt)));
  few = omega arith;
}

filled_cycled :
    (g : FifoManager ℕ) × (r : Option ℕ) × (k : FifoManager ℕ) × (fifo_schedule exact filled
      ≡ ok (g, r))
    × IsRunning g
    × (fifo_build g ≡ ok (k, rows filled))
filled_cycled = fifo_schedule_lossless exact filled filled-IsRunning

fifo_schedule_lossless_example :
    (g : FifoManager ℕ) × (r : Option ℕ) × (k : FifoManager ℕ) × (fifo_schedule exact filled
      ≡ ok (g, r))
    × IsRunning g
    × (fifo_build g ≡ ok (k, rows filled))
fifo_schedule_lossless_example = fifo_schedule_lossless exact filled filled-IsRunning

-- The prompt takes three blocks; one is evicted, with its two tokens, and restored later.
abbrev evicted_once : FifoManager ℕ
evicted_once = (value_or (filled, none) (fifo_schedule exact filled)).0

one_evicted : evicted_once.dram_store 0 2 4 ≡ some (3 ∷ 4 ∷ [])
unfolding fifo_schedule new_fifo fifo_gpu_bytes evict_queue evict_block evict_layers evict_layer
    assign
one_evicted = refl

evicted_once-IsFaithful : IsFaithful evicted_once
evicted_once-IsFaithful =
    let (g, r, k, done, running, built) = filled_cycled in
    subst (λ p. IsFaithful p.0)
      (value_or-ok (filled, none) (fifo_schedule exact filled) (g, r) done) running.sound.faithful

filled-IsSized : IsSized filled
unfolding new_fifo
filled-IsSized = λ li. refl

fifo_append_lossless_example :
    (g : FifoManager ℕ) × (fifo_append filled ((1 ∷ 2 ∷ 3 ∷ 4 ∷ 5 ∷ 6 ∷ []) ∷ []) ≡ ok g)
    × IsRunning g
    × IsSized g
    × (rows g ≡ (1 ∷ 2 ∷ 3 ∷ 4 ∷ 5 ∷ 6 ∷ []) ∷ [])
unfolding new_fifo
fifo_append_lossless_example =
    fifo_append_lossless filled ((1 ∷ 2 ∷ 3 ∷ 4 ∷ 5 ∷ 6 ∷ []) ∷ []) filled-IsRunning filled-IsSized
      (layer (6 ∷ []) refl refl no_layer)

-- A prompt longer than the buffers, after an eviction: they grow.
abbrev long_row : List ℕ
long_row = 1 ∷ 2 ∷ 3 ∷ 4 ∷ 5 ∷ 6 ∷ 7 ∷ 8 ∷ 9 ∷ []

fifo_ingest_lossless_example :
    (g : FifoManager ℕ) × (fifo_ingest filled (long_row ∷ []) ≡ ok g)
    × IsRunning g
    × IsSized g
    × (rows g ≡ long_row ∷ [])
unfolding new_fifo
fifo_ingest_lossless_example =
    fifo_ingest_lossless filled long_row [] filled-IsRunning filled-IsSized tt
      (layer (6 ∷ 7 ∷ 8 ∷ 9 ∷ []) refl tt no_layer)

-- A prompt of five tokens in one layer, a cycle that evicts a block, one more token, and a cycle.
abbrev fresh_fifo : FifoManager ℕ
fresh_fifo = new_fifo narrow 8

abbrev fifo_prefilled : FifoManager ℕ
fifo_prefilled = value_or fresh_fifo (fifo_ingest fresh_fifo (first_row ∷ []))

abbrev fifo_cycled : FifoManager ℕ
fifo_cycled = (value_or (fifo_prefilled, none) (fifo_schedule exact fifo_prefilled)).0

abbrev fifo_decoded : FifoManager ℕ
fifo_decoded = value_or fifo_cycled (fifo_append fifo_cycled ((1 ∷ 2 ∷ 3 ∷ 4 ∷ 5 ∷ 6 ∷ []) ∷ []))

fifo_prompt_taken : fifo_ingest fresh_fifo (first_row ∷ []) ≡ ok fifo_prefilled
unfolding fifo_ingest ingest_rows new_fifo assign
fifo_prompt_taken = refl

fifo_cycle_done : fifo_schedule exact fifo_prefilled ≡ ok (fifo_cycled, some 0)
unfolding fifo_ingest ingest_rows new_fifo assign fifo_schedule fifo_gpu_bytes evict_queue
    evict_block evict_layers evict_layer
fifo_cycle_done = refl

fifo_token_taken : fifo_append fifo_cycled ((1 ∷ 2 ∷ 3 ∷ 4 ∷ 5 ∷ 6 ∷ []) ∷ []) ≡ ok fifo_decoded
unfolding fifo_ingest ingest_rows new_fifo assign fifo_schedule fifo_gpu_bytes evict_queue
    evict_block evict_layers evict_layer fifo_append append_rows make_room assign_slot
fifo_token_taken = refl

fresh_fifo-FifoHolds : FifoHolds (new_fifo narrow 8) ([] ∷ [])
fresh_fifo-FifoHolds = new_fifo-FifoHolds narrow 8 (omega arith)

fifo_run : FifoSession exact fresh_fifo ([] ∷ []) fifo_decoded ((1 ∷ 2 ∷ 3 ∷ 4 ∷ 5 ∷ 6 ∷ []) ∷ [])
fifo_run =
    FifoSession.next
      (FifoSession.next
        (FifoSession.next FifoSession.here (
          FifoStep.prefill first_row [] fifo_prefilled tt (layer first_row refl tt no_layer)
            fifo_prompt_taken))
        (FifoStep.cycle (some 0) fifo_cycled fifo_cycle_done))
      (FifoStep.decode ((1 ∷ 2 ∷ 3 ∷ 4 ∷ 5 ∷ 6 ∷ []) ∷ []) fifo_decoded
        (layer (6 ∷ []) refl refl no_layer) fifo_token_taken)

FifoSession-lossless_example :
    (k : FifoManager ℕ) × (fifo_build fifo_decoded ≡ ok (k, (1 ∷ 2 ∷ 3 ∷ 4 ∷ 5 ∷ 6 ∷ []) ∷ []))
FifoSession-lossless_example =
    FifoSession-lossless exact fresh_fifo fifo_decoded ([] ∷ []) ((1 ∷ 2 ∷ 3 ∷ 4 ∷ 5 ∷ 6 ∷ []) ∷ [])
      fresh_fifo-FifoHolds fifo_run

-- Another prompt after an eviction: the old copies of the blocks 1 and 2 are restored over it.
abbrev other_prompt : FifoManager ℕ
other_prompt = value_or evicted_once (fifo_ingest evicted_once ((9 ∷ 9 ∷ 9 ∷ 9 ∷ 9 ∷ []) ∷ []))

stale_copy :
    (value_or (other_prompt, []) (fifo_build other_prompt)).1 ≡ (9 ∷ 9 ∷ 3 ∷ 4 ∷ 5 ∷ []) ∷ []
unfolding fifo_ingest ingest_rows new_fifo assign fifo_schedule fifo_gpu_bytes evict_queue
    evict_block evict_layers evict_layer fifo_build restore_evicted_blocks restore_layers
    restore_ranges restore_range
stale_copy = refl
