-- ===== src/Baseline/Matches.antt =====
-- What the loops rely on of a manager and of the model, and what follows for the tokens.
use orch_kv_cache.Prelude.{
  ℕ, zero, suc, ◌+◌, ◌<◌, ◌≡◌, refl, ap, ◌∙◌, Bool, true, false, Option, none, some, List, [], ◌∷◌,
  ok, length, replicate, All, arith,
}
use orch_kv_cache.Manager.Ingest.Steps.{Extends}
use orch_kv_cache.Baseline.{
  CacheManager, ModelOutput, LanguageModel, gpu_loop, bench_gpu_only, report_layers, report_all,
  take_in, wants_attention, managed_step, managed_loop, bench_managed,
}

-- A manager that loses no token: `Holds m kvs` says that it holds the tensors `kvs`.
pub record IsLossless {ℓ} {M T : Type ℓ} (mgr : CacheManager M T)
    (Holds : M → List (List T) → Type ℓ) : Type ℓ where
  pub ingest_law :
      (m : M) (kvs : List (List T)) (kv : List T) (rest : List (List T))
      → Holds m kvs
      → All (λ row. length row ≡ length kv) rest
      → Extends (λ new. Unit) kvs (kv ∷ rest)
      → (g : M) × (mgr.ingest_step m (kv ∷ rest) ≡ ok g) × Holds g (kv ∷ rest)
  pub append_law :
      (m : M) (kvs legacy : List (List T))
      → Holds m kvs
      → Extends (λ new. length new ≡ 1) kvs legacy
      → (g : M) × (mgr.append_token m legacy ≡ ok g) × Holds g legacy
  pub report_law :
      (m : M) (kvs : List (List T)) (li a : ℕ)
      → Holds m kvs
      → (g : M) × (mgr.report_attention m li a ≡ ok g) × Holds g kvs
  pub step_law : (m : M) (kvs : List (List T)) → Holds m kvs → Holds (mgr.step_done m) kvs
  pub schedule_law :
      (m : M) (kvs : List (List T)) → Holds m kvs → (g : M) × (mgr.schedule m ≡ ok g) × Holds g kvs
  pub build_law :
      (m : M) (kvs : List (List T))
      → Holds m kvs
      → (g : M) × (mgr.build_past_kv m ≡ ok (g, kvs)) × Holds g kvs

-- A model of `n_layers` layers that caches: the tensors that it returns are those that it got, with the new
-- tokens behind them, and to ask for attentions changes nothing else.
pub record IsCaching {ℓ} {T : Type ℓ} (model : LanguageModel T) (n_layers : ℕ) : Type ℓ where
  pub quiet_token :
      (wa : Bool) (cur : List ℕ) (past : Option (List (List T)))
      → (model wa cur past).next_token ≡ (model false cur past).next_token
  pub quiet_past :
      (wa : Bool) (cur : List ℕ) (past : Option (List (List T)))
      → (model wa cur past).past_key_values ≡ (model false cur past).past_key_values
  pub fresh_past :
      (cur : List ℕ)
      → (kv : List T) × (rest : List (List T)) × ((model false cur none).past_key_values
          ≡ kv ∷ rest)
        × All (λ row. length row ≡ length kv) rest
        × Extends (λ new. Unit) (replicate n_layers []) (kv ∷ rest)
  pub longer_past :
      (token : ℕ) (kvs : List (List T))
      → Extends (λ new. length new ≡ 1) kvs (model false (token ∷ []) (some kvs)).past_key_values

module _ {ℓ} {M T : Type ℓ} (mgr : CacheManager M T) (Holds : M → List (List T) → Type ℓ)
    (lossless : IsLossless mgr Holds) where
  report_layers-Holds :
      (m : M) (kvs : List (List T)) (li : ℕ) (attentions : List ℕ)
      → Holds m kvs
      → (g : M) × (report_layers mgr m li attentions ≡ ok g) × Holds g kvs
  report_layers-Holds m kvs li [] h = (m, refl, h)
  report_layers-Holds m kvs li (a ∷ attentions) h =
      let (g, e, h') = lossless.report_law m kvs li a h in
      let (k, e', h'') = report_layers-Holds g kvs (li + 1) attentions h' in (k, rw e e', h'')

  report_all-Holds :
      (m : M) (kvs : List (List T)) (wa : Bool) (attentions : List ℕ)
      → Holds m kvs
      → (g : M) × (report_all mgr m wa attentions ≡ ok g) × Holds g kvs
  report_all-Holds m kvs true attentions h = report_layers-Holds m kvs 0 attentions h
  report_all-Holds m kvs false attentions h = (m, refl, h)

  -- Once the tensors are taken in, the rest of a step gives them back.
  managed_step-Holds :
      (m g : M) (s : ℕ) (wa : Bool) (out : ModelOutput T)
      → take_in mgr m s out.past_key_values ≡ ok g
      → Holds g out.past_key_values
      → (k : M) × (managed_step mgr m s wa out ≡ ok (k, out.past_key_values))
        × Holds k out.past_key_values
  managed_step-Holds m g s wa out taken h =
      let (g2, e2, h2) = report_all-Holds g out.past_key_values wa out.attentions h in
      let (g3, e3, h3) =
        lossless.schedule_law (mgr.step_done g2) out.past_key_values
          (lossless.step_law g2 out.past_key_values h2) in
      let (g4, e4, h4) = lossless.build_law g3 out.past_key_values h3 in
      (g4, rw (taken, e2, e3) e4, h4)

  take_in-append :
      (m : M) (s : ℕ) (past : List (List T))
      → 0 < s
      → take_in mgr m s past ≡ mgr.append_token m past
  take_in-append m zero past h = absurd (omega arith)
  take_in-append m (suc s) past h = refl

  module _ (model : LanguageModel T) (n_layers : ℕ) (caching : IsCaching model n_layers)
      (sample_interval : ℕ) (report_attn : Bool) where
    -- The tensors of a step are the model's without attentions, and so is its token.
    first_token :
        (wa : Bool) (cur : List ℕ) (past : Option (List (List T))) (n : ℕ)
        → (model wa cur past).next_token
            ∷ gpu_loop model n
                ((model wa cur past).next_token ∷ [])
                (some (model wa cur past).past_key_values)
          ≡ gpu_loop model (suc n) cur past
    unfolding gpu_loop
    first_token wa cur past n =
        rw (caching.quiet_token wa cur past, caching.quiet_past wa cur past) refl

    managed_loop-matches :
        (n s : ℕ) (m : M) (token : ℕ) (kvs : List (List T))
        → 0 < s
        → Holds m kvs
        → (g : M) × (managed_loop mgr model sample_interval report_attn n s m
              (token ∷ [])
              (some kvs)
            ≡ ok (g, gpu_loop model n (token ∷ []) (some kvs)))
    unfolding managed_loop
    managed_loop-matches zero s m token kvs pos h = (m, unfold gpu_loop in refl)
    managed_loop-matches (suc n) s m token kvs pos h =
        let wa = wants_attention sample_interval report_attn s in
        let out = model wa (token ∷ []) (some kvs) in
        let past = (model false (token ∷ []) (some kvs)).past_key_values in
        let same = caching.quiet_past wa (token ∷ []) (some kvs) in
        let (g, taken, h') = lossless.append_law m kvs past h (caching.longer_past token kvs) in
        let (k, stepped, h'') =
          managed_step-Holds m g s wa out (rw same (take_in-append m s past pos ∙ taken))
            (rw same h') in
        let (d, later) =
          managed_loop-matches n (s + 1) k out.next_token out.past_key_values (omega arith) h'' in
        (
          d,
          rw (stepped, later)
              (ap (λ tokens. ok (d, tokens)) (first_token wa (token ∷ []) (some kvs) n)),
        )

    first_loop-matches :
        (n : ℕ) (m : M) (input_ids : List ℕ)
        → Holds m (replicate n_layers [])
        → (g : M) × (managed_loop mgr model sample_interval report_attn n 0 m input_ids none
            ≡ ok (g, gpu_loop model n input_ids none))
    unfolding managed_loop
    first_loop-matches zero m input_ids h = (m, unfold gpu_loop in refl)
    first_loop-matches (suc n) m input_ids h =
        let wa = wants_attention sample_interval report_attn 0 in
        let out = model wa input_ids none in
        let (kv, rest, e, sizes, ext) = caching.fresh_past input_ids in
        let same : out.past_key_values ≡ kv ∷ rest = caching.quiet_past wa input_ids none ∙ e in
        let (g, taken, h') = lossless.ingest_law m (replicate n_layers []) kv rest h sizes ext in
        let (k, stepped, h'') = managed_step-Holds m g 0 wa out (rw same taken) (rw same h') in
        let (d, later) =
          managed_loop-matches n 1 k out.next_token out.past_key_values (omega arith) h'' in
        (d, rw (stepped, later) (ap (λ tokens. ok (d, tokens)) (first_token wa input_ids none n)))

    -- With a manager that loses no token, new for the warm-up and for the run, `bench_managed` does not raise,
    -- and gives the tokens that `bench_gpu_only` gives.
    pub bench_managed_lem :
        (mgr_warm m : M) (input_ids : List ℕ) (max_new warmup : ℕ)
        → Holds mgr_warm (replicate n_layers [])
        → Holds m (replicate n_layers [])
        → (evictions : ℕ) × (bench_managed mgr model sample_interval report_attn mgr_warm m
              input_ids max_new warmup
            ≡ ok (bench_gpu_only model input_ids max_new, evictions))
    unfolding bench_managed bench_gpu_only
    bench_managed_lem mgr_warm m input_ids max_new warmup hw h =
        let (w, warm) = first_loop-matches warmup mgr_warm input_ids hw in
        let (g, run) = first_loop-matches max_new m input_ids h in
        (mgr.gpu_to_dram g, rw (warm, run) refl)
