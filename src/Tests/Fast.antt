-- ===== src/Tests/Fast.antt =====
-- Runs of `FastKVCacheManager` on one layer, with a core that scores later blocks lower.
use orch_kv_cache.Prelude.{ℕ, ◌≡◌, refl, some, none, List, [], ◌∷◌, arith, ok, leb}
use orch_kv_cache.Prelude.Slices.{assign, assign_slot}
use orch_kv_cache.Prelude.Budget.{exact}
use orch_kv_cache.Manager.{resident}
use orch_kv_cache.Manager.Ingest.Steps.{no_layer, layer}
use orch_kv_cache.Fifo.{new_fifo, fifo_gpu_bytes, evict_block, evict_layers, evict_layer}
use orch_kv_cache.Fifo.Write.{ingest_rows, append_rows, make_room}
use orch_kv_cache.Fifo.Session.{FifoHolds, new_fifo-FifoHolds}
use orch_kv_cache.Fast.{
  FastManager, CoreScores, new_fast, fast_ingest, fast_append, fast_schedule, fast_build,
  fast_cycle, fast_evict, fast_evict_loop, register_all, register_blocks,
}
use orch_kv_cache.Fast.Session.{
  FastStep, FastSession, fast_ingest_lossless, fast_append_lossless, FastSession-lossless,
}
use orch_kv_cache.Tests.{value_or, first_row}
use orch_kv_cache.Tests.Fifo.{narrow}

abbrev pub later_first : CoreScores
later_first = some (λ calls a b. leb b a)

abbrev fresh : FastManager ℕ
fresh = new_fast narrow 8 none (some 1)

fresh-Holds : FifoHolds (new_fifo narrow 8) ([] ∷ [])
fresh-Holds = new_fifo-FifoHolds narrow 8 (omega arith)

fast_ingest_lossless_example :
    (g : FastManager ℕ) × (fast_ingest fresh (first_row ∷ []) ≡ ok g)
    × FifoHolds g.base (first_row ∷ [])
unfolding new_fast
fast_ingest_lossless_example =
    fast_ingest_lossless fresh ([] ∷ []) first_row [] fresh-Holds tt
      (layer first_row refl tt no_layer)

fast_append_lossless_example :
    (g : FastManager ℕ) × (fast_append fresh ((7 ∷ []) ∷ []) ≡ ok g)
    × FifoHolds g.base ((7 ∷ []) ∷ [])
unfolding new_fast
fast_append_lossless_example =
    fast_append_lossless fresh ([] ∷ []) ((7 ∷ []) ∷ []) fresh-Holds
      (layer (7 ∷ []) refl refl no_layer)

-- A prompt of five tokens, a cycle that evicts the last block, and one more token.
abbrev prefilled : FastManager ℕ
prefilled = value_or fresh (fast_ingest fresh (first_row ∷ []))

abbrev cycled : FastManager ℕ
cycled = (value_or (prefilled, none) (fast_schedule exact later_first prefilled)).0

abbrev longer_row : List ℕ
longer_row = 1 ∷ 2 ∷ 3 ∷ 4 ∷ 5 ∷ 6 ∷ []

abbrev decoded : FastManager ℕ
decoded = value_or cycled (fast_append cycled (longer_row ∷ []))

prompt_taken : fast_ingest fresh (first_row ∷ []) ≡ ok prefilled
unfolding fast_ingest ingest_rows new_fast new_fifo assign register_all register_blocks
prompt_taken = refl

cycle_done : fast_schedule exact later_first prefilled ≡ ok (cycled, some (0, resident 0 3))
unfolding fast_ingest ingest_rows new_fast new_fifo assign register_all register_blocks
    fast_schedule fast_cycle fast_evict fast_evict_loop fifo_gpu_bytes evict_block evict_layers
    evict_layer
cycle_done = refl

last_evicted : cycled.evicted_ranges 0 ≡ (4, 5) ∷ []
unfolding fast_ingest ingest_rows new_fast new_fifo assign register_all register_blocks
    fast_schedule fast_cycle fast_evict fast_evict_loop fifo_gpu_bytes evict_block evict_layers
    evict_layer
last_evicted = refl

token_taken : fast_append cycled (longer_row ∷ []) ≡ ok decoded
unfolding fast_ingest ingest_rows new_fast new_fifo assign register_all register_blocks
    fast_schedule fast_cycle fast_evict fast_evict_loop fifo_gpu_bytes evict_block evict_layers
    evict_layer fast_append append_rows make_room assign_slot
token_taken = refl

run : FastSession exact later_first fresh ([] ∷ []) decoded (longer_row ∷ [])
run =
    FastSession.next
      (FastSession.next
        (FastSession.next FastSession.here (
          FastStep.prefill first_row [] prefilled tt (layer first_row refl tt no_layer)
            prompt_taken))
        (FastStep.cycle (some (0, resident 0 3)) cycled cycle_done))
      (FastStep.decode (longer_row ∷ []) decoded (layer (6 ∷ []) refl refl no_layer) token_taken)

FastSession-lossless_example : (k : FastManager ℕ) × (fast_build decoded ≡ ok (k, longer_row ∷ []))
unfolding new_fast
FastSession-lossless_example =
    FastSession-lossless exact later_first fresh decoded ([] ∷ []) (longer_row ∷ []) fresh-Holds run
