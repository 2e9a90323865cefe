-- ===== src/Tests.antt =====
-- Runs of `KVCacheManager` on a small configuration: each theorem of the results at a concrete
-- input, and what the methods compute there.
pub mod Fifo
pub mod Fast
pub mod Naive
pub mod Connector
pub mod BlockSwap
pub mod AttentionHook
pub mod EnginePatch
pub mod Baseline
pub mod Paging
pub mod CacheSim
use orch_kv_cache.Prelude.{
  ℕ, ◌≤◌, ◌<◌, ◌≡◌, ◌⊎◌, refl, sym, ◌∙◌, true, false, some, List, [], ◌∷◌, arith, Result, ok, err,
  length, count, replicate, Option, none,
}
use mathlib.Core.Path.{subst}
use orch_kv_cache.Prelude.Slices.{assign, assign_slot}
use orch_kv_cache.Prelude.Budget.{exact}
use orch_kv_cache.Manager.{
  KvCacheManager, Config, init, has_handle, gpu, dram, ssd, is_on, all_blocks, flags_of, allocated,
  alloc_block, gpu_kv_bytes,
}
use orch_kv_cache.Manager.Moves.{demote_block, save_to_ssd}
use orch_kv_cache.Manager.Invariant.{contents, IsValid}
use orch_kv_cache.Manager.Build.{build_past_kv}
use orch_kv_cache.Manager.Build.Contents.{build_past_kv_lossless}
use orch_kv_cache.Manager.Ingest.{
  ingest_step, append_token, ingest_layer, ingest_from, ingest_block,
}
use orch_kv_cache.Manager.Ingest.Steps.{
  Extends, no_layer, layer, ingest_step_lossless, append_token_lossless,
}
use orch_kv_cache.Manager.Schedule.{
  Report, schedule, run_cycle, evict_loop, has_room, cold_candidates, rebalance, evict_cold_blocks,
  spill_dram_to_ssd, save_all,
}
use orch_kv_cache.Manager.Schedule.Keeps.{schedule_lossless}
use orch_kv_cache.Manager.Schedule.Sinks.{IsPinned, schedule-IsPinned}
use orch_kv_cache.Manager.Schedule.Limits.{schedule_limits}
use orch_kv_cache.Manager.Session.{
  Holds, prefill, decode, cycle, Session, here, next, init-Holds, Session-lossless,
}
use orch_kv_cache.Manager.Stats.{get_stats, get_stats_counts}
use orch_kv_cache.Manager.Registration.{CoreBlock, registered, is_attn_sink, alloc_block_registers}
use orch_kv_cache.Fifo.{
  FifoConfig, FifoManager, new_fifo, rows, fifo_build, fifo_schedule, fifo_gpu_bytes, evict_queue,
  evict_block, evict_layers, evict_layer,
}
use orch_kv_cache.Fifo.Copies.{IsFaithful, Fewer, fifo_build_restores}
use orch_kv_cache.Fifo.Write.Prefill.{fifo_ingest_lossless}
use orch_kv_cache.Fifo.Session.{
  FifoHolds, FifoStep, FifoSession, new_fifo-FifoHolds, FifoSession-lossless,
}
use orch_kv_cache.Fifo.Write.{fifo_append, fifo_ingest, ingest_rows, append_rows, make_room}
use orch_kv_cache.Fifo.Write.Grow.{IsSized}
use orch_kv_cache.Fifo.Write.Decode.{fifo_append_lossless}
use orch_kv_cache.Fifo.Schedule.{IsRunning, fifo_schedule_lossless}

-- Two layers, blocks of two tokens, the first block of a layer a sink, and room for two blocks.
abbrev small : Config ℕ
small = record {
  n_layers = 2;
  n_kv_heads = 1;
  head_dim = 1;
  block_size = 2;
  itemsize = 1;
  zeros = 0;
  gpu_budget_bytes = 10;
  ssd_dir = some "/ssd";
  sink_tokens = 2;
}

abbrev start : KvCacheManager ℕ
start = init small (some 1)

abbrev pub value_or {ℓ} : {A : Type ℓ} → A → Result A → A
value_or d (ok a) = a
value_or d (err e) = d

-- A result that is there, as `value_or` reads it.
ok-value_or {ℓ} : {A : Type ℓ} (d : A) (r : Result A) (a : A) → r ≡ ok a → r ≡ ok (value_or d r)
ok-value_or d r a e = rw e refl

pub value_or-ok {ℓ} : {A : Type ℓ} (d : A) (r : Result A) (a : A) → r ≡ ok a → a ≡ value_or d r
value_or-ok d r a e = rw e refl

Holds-move : {m n : KvCacheManager ℕ} {kvs : List (List ℕ)} → m ≡ n → Holds m kvs → Holds n kvs
Holds-move {kvs = kvs} e h = subst (λ m. Holds m kvs) e h

abbrev pub first_row : List ℕ
first_row = 1 ∷ 2 ∷ 3 ∷ 4 ∷ 5 ∷ []

abbrev second_row : List ℕ
second_row = 11 ∷ 12 ∷ 13 ∷ 14 ∷ 15 ∷ []

abbrev prompt : List (List ℕ)
prompt = first_row ∷ second_row ∷ []

-- One more token in each layer.
abbrev longer : List (List ℕ)
longer = (1 ∷ 2 ∷ 3 ∷ 4 ∷ 5 ∷ 6 ∷ []) ∷ (11 ∷ 12 ∷ 13 ∷ 14 ∷ 15 ∷ 16 ∷ []) ∷ []

abbrev prefilled : KvCacheManager ℕ
prefilled = value_or start (ingest_step start prompt)

-- After the prompt, a cycle moves blocks to host memory and to files.
abbrev scheduled : KvCacheManager ℕ
scheduled = (schedule exact prefilled).0

abbrev decoded : KvCacheManager ℕ
decoded = value_or scheduled (append_token scheduled longer)

start-Holds : Holds start ([] ∷ [] ∷ [])
start-Holds = init-Holds small (some 1) (omega arith)

prompt-Extends : Extends (λ new. Unit) ([] ∷ [] ∷ []) prompt
prompt-Extends = layer first_row refl tt (layer second_row refl tt no_layer)

longer-Extends : Extends (λ new. length new ≡ 1) prompt longer
longer-Extends = layer (6 ∷ []) refl refl (layer (16 ∷ []) refl refl no_layer)

prompt_ingested :
    (g : KvCacheManager ℕ) × (ingest_step start prompt ≡ ok g)
    × IsValid g
    × (g.config ≡ small)
    × (contents g ≡ prompt)
unfolding init
prompt_ingested =
    ingest_step_lossless start first_row (second_row ∷ []) start-Holds.valid start-Holds.sized
      prompt-Extends

ingest_step_lossless_example :
    (g : KvCacheManager ℕ) × (ingest_step start prompt ≡ ok g)
    × IsValid g
    × (g.config ≡ small)
    × (contents g ≡ prompt)
unfolding init
ingest_step_lossless_example =
    ingest_step_lossless start first_row (second_row ∷ []) start-Holds.valid start-Holds.sized
      prompt-Extends

prompt_taken : ingest_step start prompt ≡ ok prefilled
prompt_taken =
    let (g, done, _, _, _) = prompt_ingested in ok-value_or start (ingest_step start prompt) g done

prefilled-Holds : Holds prefilled prompt
unfolding init
prefilled-Holds =
    let (g, done, v, c, view) = prompt_ingested in
    Holds-move (value_or-ok start (ingest_step start prompt) g done)
      (record { valid = v; sized = rw c (omega arith); view = view })

prefilled_cycled :
    IsValid (schedule exact prefilled).0
    × ((schedule exact prefilled).0.config ≡ prefilled.config)
    × (contents (schedule exact prefilled).0 ≡ contents prefilled)
prefilled_cycled = schedule_lossless exact prefilled prefilled-Holds.valid

schedule_lossless_example :
    IsValid (schedule exact prefilled).0
    × ((schedule exact prefilled).0.config ≡ prefilled.config)
    × (contents (schedule exact prefilled).0 ≡ contents prefilled)
schedule_lossless_example = schedule_lossless exact prefilled prefilled-Holds.valid

scheduled-Holds : Holds scheduled prompt
scheduled-Holds =
    let (v, c, view) = prefilled_cycled in
    record { valid = v; sized = rw c prefilled-Holds.sized; view = view ∙ prefilled-Holds.view }

longer_appended :
    (g : KvCacheManager ℕ) × (append_token scheduled longer ≡ ok g)
    × IsValid g
    × (g.config ≡ scheduled.config)
    × (contents g ≡ longer)
longer_appended =
    append_token_lossless scheduled (1 ∷ 2 ∷ 3 ∷ 4 ∷ 5 ∷ 6 ∷ [])
      ((11 ∷ 12 ∷ 13 ∷ 14 ∷ 15 ∷ 16 ∷ []) ∷ []) scheduled-Holds.valid scheduled-Holds.sized
      (subst (λ kvs. Extends (λ new. length new ≡ 1) kvs longer) (sym scheduled-Holds.view)
        longer-Extends)

append_token_lossless_example :
    (g : KvCacheManager ℕ) × (append_token scheduled longer ≡ ok g)
    × IsValid g
    × (g.config ≡ scheduled.config)
    × (contents g ≡ longer)
append_token_lossless_example =
    append_token_lossless scheduled (1 ∷ 2 ∷ 3 ∷ 4 ∷ 5 ∷ 6 ∷ [])
      ((11 ∷ 12 ∷ 13 ∷ 14 ∷ 15 ∷ 16 ∷ []) ∷ []) scheduled-Holds.valid scheduled-Holds.sized
      (subst (λ kvs. Extends (λ new. length new ≡ 1) kvs longer) (sym scheduled-Holds.view)
        longer-Extends)

longer_taken : append_token scheduled longer ≡ ok decoded
longer_taken =
    let (g, done, _, _, _) = longer_appended in
    ok-value_or scheduled (append_token scheduled longer) g done

-- A prompt, a cycle that moves four blocks to files, a decoded token, and one more cycle.
run : Session exact start ([] ∷ [] ∷ []) (schedule exact decoded).0 longer
run =
    next
      (next
        (next
          (next here (prefill first_row (second_row ∷ []) prefilled prompt-Extends prompt_taken))
          (cycle scheduled refl))
        (decode (1 ∷ 2 ∷ 3 ∷ 4 ∷ 5 ∷ 6 ∷ []) ((11 ∷ 12 ∷ 13 ∷ 14 ∷ 15 ∷ 16 ∷ []) ∷ []) decoded
          longer-Extends longer_taken))
      (cycle (schedule exact decoded).0 refl)

Session-lossless_example :
    (k : KvCacheManager ℕ) × (build_past_kv (schedule exact decoded).0 ≡ ok (k, longer))
Session-lossless_example =
    Session-lossless exact start (schedule exact decoded).0 ([] ∷ [] ∷ []) longer start-Holds run

build_past_kv_lossless_example :
    (n : KvCacheManager ℕ) × (build_past_kv scheduled ≡ ok (n, contents scheduled))
    × IsValid n
    × (n.config ≡ scheduled.config)
    × (contents n ≡ contents scheduled)
build_past_kv_lossless_example = build_past_kv_lossless scheduled scheduled-Holds.valid

first-IsPinned : IsPinned prefilled 0
unfolding ingest_step ingest_layer ingest_from ingest_block init alloc_block assign
first-IsPinned = record { sink = refl; on_gpu = refl }

schedule-IsPinned_example : IsPinned (schedule exact prefilled).0 0
schedule-IsPinned_example = schedule-IsPinned exact prefilled 0 first-IsPinned

abbrev prefilled_report : Report
prefilled_report = (run_cycle exact prefilled).1

report_made : (schedule exact prefilled).1 ≡ some prefilled_report
unfolding schedule ingest_step ingest_layer ingest_from ingest_block init alloc_block assign
report_made = refl

schedule_limits_example :
    (prefilled_report.evicted ≤ 8)
    × (prefilled_report.promoted ≤ 4)
    × ((prefilled_report.evicted ≡ 0) ⊎ (prefilled_report.promoted ≡ 0))
schedule_limits_example = schedule_limits exact prefilled prefilled_report report_made

first_allocated : alloc_block start 0 0 ≡ ok (allocated start 0 [] 0, 0)
unfolding alloc_block init
first_allocated = refl

start-has_handle : has_handle start ≡ true
unfolding init
start-has_handle = refl

-- The cycle evicts the four blocks that are no sinks, and moves them on to files.
evicted_count : prefilled_report.evicted ≡ 4
unfolding run_cycle ingest_step ingest_layer ingest_from ingest_block init alloc_block assign
    rebalance gpu_kv_bytes evict_cold_blocks evict_loop demote_block
evicted_count = refl

saved_count : count (is_on ssd scheduled) (all_blocks scheduled) ≡ 4
unfolding schedule ingest_step ingest_layer ingest_from ingest_block init alloc_block assign
    rebalance gpu_kv_bytes evict_cold_blocks evict_loop demote_block spill_dram_to_ssd save_all
    save_to_ssd
saved_count = refl
