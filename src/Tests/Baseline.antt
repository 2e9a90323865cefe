-- ===== src/Tests/Baseline.antt =====
-- A run of `bench_managed` with a toy model, whose cache has the tokens themselves.
use orch_kv_cache.Prelude.{
  ℕ, ◌≡◌, refl, true, Option, none, some, List, [], ◌∷◌, ◌++◌, map, arith, ok, length, sum_map,
  if◌then◌else◌,
}
use orch_kv_cache.Prelude.Budget.{exact}
use orch_kv_cache.Manager.Ingest.Steps.{Extends, no_layer, layer}
use orch_kv_cache.Fifo.{new_fifo}
use orch_kv_cache.Fast.{new_fast}
use orch_kv_cache.Baseline.{LanguageModel, bench_gpu_only, bench_managed}
use orch_kv_cache.Baseline.Matches.{IsCaching}
use orch_kv_cache.Baseline.Managers.{fifo_manager, fast_manager, bench_managed-matches}
use orch_kv_cache.Tests.Fifo.{narrow}
use orch_kv_cache.Tests.Fast.{later_first}

-- The next token is the number of tokens so far.
abbrev toy_past : List ℕ → Option (List (List ℕ)) → List (List ℕ)
toy_past cur none = cur ∷ []
toy_past cur (some kvs) = map (λ row. row ++ cur) kvs

abbrev toy_model : LanguageModel ℕ
toy_model wa cur past = record {
  next_token = sum_map length (toy_past cur past);
  past_key_values = toy_past cur past;
  attentions = if wa then sum_map length (toy_past cur past) ∷ [] else [];
}

toy-Extends :
    (token : ℕ) (kvs : List (List ℕ))
    → Extends (λ new. length new ≡ 1) kvs (map (λ row. row ++ token ∷ []) kvs)
toy-Extends token [] = no_layer
toy-Extends token (row ∷ kvs) = layer (token ∷ []) refl refl (toy-Extends token kvs)

toy-IsCaching : IsCaching toy_model 1
toy-IsCaching = record {
  quiet_token = λ wa cur past. refl;
  quiet_past = λ wa cur past. refl;
  fresh_past = λ cur. (cur, [], refl, tt, layer cur refl tt no_layer);
  longer_past = toy-Extends;
}

bench_managed-matches_example :
    ((evictions : ℕ) × (bench_managed
          (fifo_manager exact)
          toy_model
          2
          true
          (new_fifo narrow 4)
          (new_fifo narrow 4)
          (9 ∷ 9 ∷ 9 ∷ [])
          4
          1
        ≡ ok (bench_gpu_only toy_model (9 ∷ 9 ∷ 9 ∷ []) 4, evictions)))
    × ((evictions : ℕ) × (bench_managed
            (fast_manager exact later_first)
            toy_model
            2
            true
            (new_fast narrow 4 none (some 1))
            (new_fast narrow 4 none (some 1))
            (9 ∷ 9 ∷ 9 ∷ [])
            4
            1
          ≡ ok (bench_gpu_only toy_model (9 ∷ 9 ∷ 9 ∷ []) 4, evictions)))
bench_managed-matches_example =
    bench_managed-matches exact later_first toy_model narrow 2 true 4 none (some 1) (9 ∷ 9 ∷ 9 ∷ [])
      4 1 toy-IsCaching (omega arith)

toy_tokens : bench_gpu_only toy_model (9 ∷ 9 ∷ 9 ∷ []) 4 ≡ 3 ∷ 4 ∷ 5 ∷ 6 ∷ []
unfolding bench_gpu_only
toy_tokens = refl
