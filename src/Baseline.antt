-- ===== src/Baseline.antt =====
-- benchmarks/exp_fair_baseline.py: text generated by a model, with a manager of the KV cache and without.
--
-- The language model is a parameter, and so is the manager, `mgr_cls`: Baseline/Managers puts those of
-- this library in its place. `argmax` of the last logits is the model's next token; of an attention
-- tensor the managers' model reads its number of positions. Timers, devices and the warm-up
-- without a manager leave nothing behind, and are left out. The batch is one sequence.
pub mod Matches
pub mod Managers
use orch_kv_cache.Prelude.{
  ℕ, zero, suc, ◌+◌, ◌%◌, ◌==◌, ◌&&◌, Bool, true, false, Option, none, some, List, [], ◌∷◌, Result,
  ok, err, ◌>>=◌, if◌then◌else◌, length, ltb,
}

-- What the loops call of a manager.
pub record CacheManager {ℓ} (M T : Type ℓ) : Type ℓ where
  pub ingest_step : M → List (List T) → Result M
  pub append_token : M → List (List T) → Result M
  pub report_attention : M → ℕ → ℕ → Result M
  pub step_done : M → M
  pub schedule : M → Result M
  pub build_past_kv : M → Result (M × List (List T))
  pub gpu_to_dram : M → ℕ

-- `out`, of a call of the model.
pub record ModelOutput {ℓ} (T : Type ℓ) : Type ℓ where
  pub next_token : ℕ
  pub past_key_values : List (List T)
  pub attentions : List ℕ

-- The model: with `output_attentions`, on the tokens `cur` and the tensors `past`.
abbrev pub LanguageModel {ℓ} : Type ℓ → Type ℓ
LanguageModel T = Bool → List ℕ → Option (List (List T)) → ModelOutput T

module _ {ℓ} {T : Type ℓ} (model : LanguageModel T) where
  -- The loop of `bench_gpu_only`.
  unfoldable pub gpu_loop : ℕ → List ℕ → Option (List (List T)) → List ℕ
  gpu_loop zero cur past = []
  gpu_loop (suc n) cur past =
      let out = model false cur past in
      out.next_token ∷ gpu_loop n (out.next_token ∷ []) (some out.past_key_values)

  -- `bench_gpu_only`: its tokens.
  unfoldable pub bench_gpu_only : List ℕ → ℕ → List ℕ
  unfolding gpu_loop
  bench_gpu_only input_ids max_new = gpu_loop max_new input_ids none

-- `report_attn and sample_interval > 0 and s % sample_interval == 0`.
abbrev pub wants_attention : ℕ → Bool → ℕ → Bool
wants_attention sample_interval report_attn s =
    report_attn && ltb 0 sample_interval && (s % sample_interval == 0)

module _ {ℓ} {M T : Type ℓ} (mgr : CacheManager M T) where
  -- `for li, a in enumerate(out.attentions): mgr.report_attention(li, a)`.
  abbrev pub report_layers : M → ℕ → List ℕ → Result M
  report_layers m li [] = ok m
  report_layers m li (a ∷ attentions) = do
    m' ← mgr.report_attention m li a
    report_layers m' (li + 1) attentions

  -- `if wa and getattr(out, "attentions", None)`.
  abbrev pub report_all : M → Bool → List ℕ → Result M
  report_all m true attentions = report_layers m 0 attentions
  report_all m false attentions = ok m

  -- `if s == 0: mgr.ingest_step(…) else: mgr.append_token(…)`.
  abbrev pub take_in : M → ℕ → List (List T) → Result M
  take_in m zero past = mgr.ingest_step m past
  take_in m (suc s) past = mgr.append_token m past

  -- The body of the loop of `bench_managed` from the call of the model on: the manager, and `past`.
  abbrev pub managed_step : M → ℕ → Bool → ModelOutput T → Result (M × List (List T))
  managed_step m s wa out = do
    m1 ← take_in m s out.past_key_values
    m2 ← report_all m1 wa out.attentions
    m3 ← mgr.schedule (mgr.step_done m2)
    mgr.build_past_kv m3

  module _ (model : LanguageModel T) (sample_interval : ℕ) (report_attn : Bool) where
    -- That loop, from the step `s` on.
    unfoldable pub managed_loop : ℕ → ℕ → M → List ℕ → Option (List (List T)) → Result (M × List ℕ)
    managed_loop zero s m cur past = ok (m, [])
    managed_loop (suc n) s m cur past = do
      let wa = wants_attention sample_interval report_attn s
      let out = model wa cur past
      (m', past') ← managed_step m s wa out
      (m'', tokens_out) ← managed_loop n (s + 1) m' (out.next_token ∷ []) (some past')
      ok (m'', out.next_token ∷ tokens_out)

    -- `bench_managed` of the managers that `mgr_cls` makes for the warm-up and for the run: the tokens, and
    -- the evictions.
    unfoldable pub bench_managed : M → M → List ℕ → ℕ → ℕ → Result (List ℕ × ℕ)
    unfolding managed_loop
    bench_managed mgr_warm m input_ids max_new warmup = do
      (warm, ignored) ← managed_loop warmup 0 mgr_warm input_ids none
      (m', tokens_out) ← managed_loop max_new 0 m input_ids none
      ok (tokens_out, mgr.gpu_to_dram m')
