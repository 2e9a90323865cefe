-- ===== src/Tests/Naive.antt =====
-- A run of `NaiveOffloadManager` on one layer.
use orch_kv_cache.Prelude.{ℕ, ◌≡◌, refl, some, List, [], ◌∷◌, arith, ok}
use orch_kv_cache.Prelude.Slices.{assign, assign_slot}
use orch_kv_cache.Prelude.Budget.{exact}
use orch_kv_cache.Manager.Ingest.Steps.{no_layer, layer}
use orch_kv_cache.Naive.{
  NaiveConfig, NaiveManager, new_naive, naive_ingest, naive_ingest_layer, naive_ingest_from,
  naive_ingest_block, naive_append, naive_append_layer, naive_append_slot, naive_append_block,
  naive_write_slot, naive_fetch, naive_promote, naive_gpu_bytes, naive_build,
}
use orch_kv_cache.Naive.Schedule.{naive_schedule, naive_evict_layers, naive_evict_blocks}
use orch_kv_cache.Naive.Session.{
  NaiveHolds, NaiveStep, NaiveSession, new_naive-NaiveHolds, NaiveSession-lossless,
}
use orch_kv_cache.Tests.{value_or, first_row}

-- One layer, blocks of two tokens of two bytes, room for two blocks and a half.
abbrev narrow_naive : NaiveConfig ℕ
narrow_naive = record {
  n_layers = 1;
  n_kv_heads = 1;
  head_dim = 1;
  block_size = 2;
  itemsize = 1;
  zeros = 0;
  gpu_budget_bytes = 10;
}

abbrev fresh_naive : NaiveManager ℕ
fresh_naive = new_naive narrow_naive

abbrev naive_prefilled : NaiveManager ℕ
naive_prefilled = value_or fresh_naive (naive_ingest fresh_naive (first_row ∷ []))

abbrev naive_cycled : NaiveManager ℕ
naive_cycled = (naive_schedule exact naive_prefilled).0

abbrev six : List ℕ
six = 1 ∷ 2 ∷ 3 ∷ 4 ∷ 5 ∷ 6 ∷ []

abbrev naive_decoded : NaiveManager ℕ
naive_decoded = value_or naive_cycled (naive_append naive_cycled (six ∷ []))

naive_prompt_taken : naive_ingest fresh_naive (first_row ∷ []) ≡ ok naive_prefilled
unfolding naive_ingest naive_ingest_layer naive_ingest_from naive_ingest_block new_naive assign
naive_prompt_taken = refl

-- Two of the three blocks are evicted.
naive_cycle_reports : (naive_schedule exact naive_prefilled).1 ≡ some (2, 4)
unfolding naive_ingest naive_ingest_layer naive_ingest_from naive_ingest_block new_naive assign
    naive_schedule naive_evict_layers naive_evict_blocks naive_gpu_bytes
naive_cycle_reports = refl

naive_token_taken : naive_append naive_cycled (six ∷ []) ≡ ok naive_decoded
unfolding naive_ingest naive_ingest_layer naive_ingest_from naive_ingest_block new_naive assign
    naive_schedule naive_evict_layers naive_evict_blocks naive_gpu_bytes naive_append
    naive_append_layer naive_append_slot naive_append_block naive_write_slot naive_fetch
    naive_promote assign_slot
naive_token_taken = refl

fresh_naive-NaiveHolds : NaiveHolds (new_naive narrow_naive) ([] ∷ [])
fresh_naive-NaiveHolds = new_naive-NaiveHolds narrow_naive (omega arith)

naive_run : NaiveSession exact fresh_naive ([] ∷ []) naive_decoded (six ∷ [])
naive_run =
    NaiveSession.next
      (NaiveSession.next
        (NaiveSession.next NaiveSession.here (
          NaiveStep.prefill first_row [] naive_prefilled (layer first_row refl tt no_layer)
            naive_prompt_taken))
        (NaiveStep.cycle naive_cycled refl))
      (NaiveStep.decode six [] naive_decoded (layer (6 ∷ []) refl refl no_layer) naive_token_taken)

NaiveSession-lossless_example :
    (k : NaiveManager ℕ) × (naive_build naive_decoded ≡ ok (k, six ∷ []))
NaiveSession-lossless_example =
    NaiveSession-lossless exact fresh_naive naive_decoded ([] ∷ []) (six ∷ [])
      fresh_naive-NaiveHolds naive_run
