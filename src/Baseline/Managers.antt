-- ===== src/Baseline/Managers.antt =====
-- The managers that benchmarks/exp_fair_baseline.py compares, `FastFIFOManager` and `FastKVCacheManager`.
use orch_kv_cache.Prelude.{
  ℕ, ◌+◌, ◌-◌, ◌/◌, ◌<◌, ◌≡◌, refl, sym, ap, ◌∙◌, inl, inr, Bool, Option, List, ◌∷◌, ok, ◌>>=◌,
  length, Bool-cases, pos→nonzero,
}
use mathlib.Core.Path.{subst}
use Prim.Native.String.{String}
use orch_kv_cache.Prelude.Budget.{BudgetTest}
use orch_kv_cache.Manager.Ingest.Steps.{Extends}
use orch_kv_cache.Fifo.{FifoConfig, FifoManager, new_fifo, fifo_build, fifo_schedule}
use orch_kv_cache.Fifo.Copies.{fifo_build_restores}
use orch_kv_cache.Fifo.Schedule.{fifo_schedule_lem}
use orch_kv_cache.Fifo.Session.{
  FifoHolds, Fewer-IsRunning, SameTokens-FifoHolds, fifo_step_done-FifoHolds, new_fifo-FifoHolds,
}
use orch_kv_cache.Fifo.Write.{fifo_append, fifo_ingest, fifo_step_done}
use orch_kv_cache.Fifo.Write.Decode.{fifo_append_lossless}
use orch_kv_cache.Fifo.Write.Prefill.{fifo_ingest_lossless}
use orch_kv_cache.Fast.{
  FastManager, CoreScores, new_fast, fast_ingest, fast_append, fast_build, fast_report_attention,
  fast_step_done, fast_schedule, fast_has_handle, fast_report_blocks,
}
use orch_kv_cache.Fast.Schedule.{fast_schedule_lem}
use orch_kv_cache.Fast.Session.{fast_ingest_lossless, fast_append_lossless, fast_build_lem}
use orch_kv_cache.Fast.Reports.{fast_report_blocks-base, fast_step_done-base}
use orch_kv_cache.Baseline.{CacheManager, LanguageModel, bench_gpu_only, bench_managed}
use orch_kv_cache.Baseline.Matches.{IsLossless, IsCaching, bench_managed_lem}

module _ {ℓ} (tests : BudgetTest) {T : Type ℓ} where
  -- `FastFIFOManager`, whose `report_attention` does nothing.
  unfoldable pub fifo_manager : CacheManager (FifoManager T) T
  fifo_manager = record {
    ingest_step = fifo_ingest;
    append_token = fifo_append;
    report_attention = λ m li a. ok m;
    step_done = fifo_step_done;
    schedule = λ m. fifo_schedule tests m >>= λ r. ok r.0;
    build_past_kv = fifo_build;
    gpu_to_dram = λ m. m.gpu_to_dram;
  }

  fifo_manager-IsLossless : IsLossless fifo_manager FifoHolds
  unfolding fifo_manager
  fifo_manager-IsLossless = record {
    ingest_law = λ m kvs kv rest h sizes ext.
        let ext' = subst (λ c. Extends (λ new. Unit) c (kv ∷ rest)) (sym h.view) ext in
        let (g, done, v, s, view) = fifo_ingest_lossless m kv rest h.running h.sized sizes ext' in
        (g, done, record { running = v; sized = s; view = view });
    append_law = λ m kvs legacy h ext.
        let ext' = subst (λ c. Extends (λ new. length new ≡ 1) c legacy) (sym h.view) ext in
        let (g, done, v, s, view) = fifo_append_lossless m legacy h.running h.sized ext' in
        (g, done, record { running = v; sized = s; view = view });
    report_law = λ m kvs li a h. (m, refl, h);
    step_law = fifo_step_done-FifoHolds;
    schedule_law = λ m kvs h.
        let (g, r, done, v, s) = fifo_schedule_lem tests m h.running in
        (g, rw done refl, SameTokens-FifoHolds s v h);
    build_law = λ m kvs h.
        let (g, done, k, _) = fifo_build_restores m h.running.sound.faithful in
        (
          g,
          done ∙ ap (λ out. ok (g, out)) h.view,
          SameTokens-FifoHolds k.same (Fewer-IsRunning k h.running) h,
        );
  }

module _ {ℓ} (tests : BudgetTest) (scores : CoreScores) {T : Type ℓ} where
  -- `FastKVCacheManager`.
  unfoldable pub fast_manager : CacheManager (FastManager T) T
  fast_manager = record {
    ingest_step = fast_ingest;
    append_token = fast_append;
    report_attention = λ m li a. fast_report_attention m a;
    step_done = fast_step_done;
    schedule = λ m. fast_schedule tests scores m >>= λ r. ok r.0;
    build_past_kv = fast_build;
    gpu_to_dram = λ m. m.gpu_to_dram;
  }

  fast_report_lem :
      (m : FastManager T) (kvs : List (List T)) (kv_len : ℕ)
      → FifoHolds m.base kvs
      → (g : FastManager T) × (fast_report_attention m kv_len ≡ ok g) × FifoHolds g.base kvs
  unfolding fast_report_attention
  fast_report_lem m kvs kv_len h =
      let nonzero = pos→nonzero m.block_size h.running.sound.positive in
      let blocks = (m.total_tokens + m.block_size - 1) / m.block_size in
      elim (Bool-cases (fast_has_handle m)) [
        | inl e ↦ (
          fast_report_blocks blocks kv_len m 0,
          rw e (rw nonzero refl),
          subst (λ b. FifoHolds b kvs) (sym (fast_report_blocks-base blocks kv_len m 0)) h,
        )
        | inr e ↦ (m, rw e refl, h)
      ]

  fast_manager-IsLossless : IsLossless fast_manager (λ m kvs. FifoHolds m.base kvs)
  unfolding fast_manager
  fast_manager-IsLossless = record {
    ingest_law = fast_ingest_lossless;
    append_law = fast_append_lossless;
    report_law = λ m kvs li a h. fast_report_lem m kvs a h;
    step_law = λ m kvs h.
        subst (λ b. FifoHolds b kvs) (sym (fast_step_done-base m))
          (fifo_step_done-FifoHolds m.base kvs h);
    schedule_law = λ m kvs h.
        let (g, r, done, k) = fast_schedule_lem tests scores m h.running in
        (g, rw done refl, SameTokens-FifoHolds k.same k.running h);
    build_law = fast_build_lem;
  }

module _ {ℓ} (tests : BudgetTest) (scores : CoreScores) {T : Type ℓ} (model : LanguageModel T)
    (c : FifoConfig T) where
  -- With a model of the layers of the configuration that caches, and blocks of at least a token, `bench_managed` does
  -- not raise, with new managers of either class, of any budget, size of the buffers and core,
  -- and whether it reports attention or not; and it gives the tokens that `bench_gpu_only` gives.
  pub bench_managed-matches :
      (sample_interval : ℕ) (report_attn : Bool) (max_seq_len : ℕ) (ssd_dir : Option String)
      (handle : Option ℕ) (input_ids : List ℕ) (max_new warmup : ℕ)
      → IsCaching model c.n_layers
      → 0 < c.block_size
      → ((evictions : ℕ) × (bench_managed
              (fifo_manager tests)
              model
              sample_interval
              report_attn
              (new_fifo c max_seq_len)
              (new_fifo c max_seq_len)
              input_ids
              max_new
              warmup
            ≡ ok (bench_gpu_only model input_ids max_new, evictions)))
        × ((evictions : ℕ) × (bench_managed
                (fast_manager tests scores)
                model
                sample_interval
                report_attn
                (new_fast c max_seq_len ssd_dir handle)
                (new_fast c max_seq_len ssd_dir handle)
                input_ids
                max_new
                warmup
              ≡ ok (bench_gpu_only model input_ids max_new, evictions)))
  unfolding new_fast
  bench_managed-matches sample_interval report_attn max_seq_len ssd_dir handle input_ids max_new
        warmup caching positive =
      let fresh = new_fifo-FifoHolds c max_seq_len positive in
      (
        bench_managed_lem (fifo_manager tests) FifoHolds (fifo_manager-IsLossless tests) model
            c.n_layers caching sample_interval report_attn (new_fifo c max_seq_len)
            (new_fifo c max_seq_len) input_ids max_new warmup fresh fresh,
        bench_managed_lem (fast_manager tests scores) (λ m kvs. FifoHolds m.base kvs)
            (fast_manager-IsLossless tests scores) model c.n_layers caching sample_interval
            report_attn (new_fast c max_seq_len ssd_dir handle)
            (new_fast c max_seq_len ssd_dir handle) input_ids max_new warmup fresh fresh,
      )
