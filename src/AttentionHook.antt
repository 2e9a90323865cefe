-- ===== src/AttentionHook.antt =====
-- python/orchkv/vllm_integration/attention_hook.py: `AttentionScoreCollector`, which reports the mean
-- attention that each block gets, at every n-th step. `AttentionHookManager` is in Modules.
--
-- Attention weights are a tensor of known sizes; `mean` is torch's mean of some values. A block id is
-- `none` where the code has `None` or a negative number, which it both passes over. The copy
-- to the host is waited for at once, so that it has the values of the scores.
pub mod Modules
pub mod Reports
use orch_kv_cache.Prelude.{
  ℕ, ◌+◌, ◌-◌, ◌*◌, ◌/◌, ◌%◌, ◌==◌, Bool, true, false, not, ◌&&◌, Option, none, some, List, [], ◌∷◌,
  max, if◌then◌else◌, ltb, length, get_elem?, tabulate, flatten, Result, ok, err, value_error,
  zero_division_error, ◌>>=◌, ◌>>◌, guard,
}
use orch_kv_cache.Prelude.Dict.{put, nat_key}
use orch_kv_cache.Prelude.Float.{Float}

-- A tensor [batch, heads, q_len, kv_len].
pub record Weights {ℓ} (F : Type ℓ) : Type ℓ where
  pub batch : ℕ
  pub n_heads : ℕ
  pub q_len : ℕ
  pub kv_len : ℕ
  pub entry : ℕ → ℕ → ℕ → ℕ → F

-- What stands where attention weights are looked for.
pub data Candidate {ℓ} (F : Type ℓ) : Type ℓ where
  four_dims : Weights F → Candidate F
  other_dims no_tensor : Candidate F

pub data AttnCall {ℓ} (F : Type ℓ) : Type ℓ where
  block_attn : ℕ → F → AttnCall F
  step_over : AttnCall F

pub record Collector {ℓ} (F : Type ℓ) : Type ℓ where
  pub tm : ℕ
  pub core : Bool  -- `_C is not None`
  pub block_size : ℕ
  pub sample_interval : ℕ
  pub step : ℕ
  pub cpu_bufs : List (ℕ × List (List F))
  pub enabled : Bool
  pub samples_taken : ℕ
  pub blocks_reported : ℕ
  pub steps_skipped : ℕ
  pub tm_calls : List (AttnCall F)

-- The row of `block_table` of the first sequence, and `block_id_fn`.
abbrev pub TableRow : Type 0
TableRow = List (Option ℕ)

abbrev pub BlockIdFn : Type 0
BlockIdFn = ℕ → ℕ → ℕ → Option ℕ

-- `layer_idx * n_heads * n_blocks + h * n_blocks + bi`.
abbrev pub own_id : ℕ → ℕ → ℕ → ℕ → ℕ → ℕ
own_id layer n_heads n_blocks h bi = layer * n_heads * n_blocks + h * n_blocks + bi

-- `int(block_table[0, bi])` within the row, and the collector's own id outside.
abbrev pub id_or_own : ℕ → Option (Option ℕ) → Option ℕ
id_or_own own none = some own
id_or_own own (some id) = id

abbrev pub table_id : ℕ → ℕ → Option TableRow → Option ℕ
table_id own bi none = some own
table_id own bi (some row) = id_or_own own (get_elem? row bi)

-- `bid` of `_report_scores`.
abbrev pub block_id :
    Option BlockIdFn → Option TableRow → (layer n_heads n_blocks h bi : ℕ) → Option ℕ
block_id (some fn) table layer n_heads n_blocks h bi = fn layer h bi
block_id none table layer n_heads n_blocks h bi =
    table_id (own_id layer n_heads n_blocks h bi) bi table

module _ {ℓ} {F : Type ℓ} where
  -- `__init__`.
  unfoldable pub new_collector : ℕ → ℕ → ℕ → Bool → Collector F
  new_collector tm block_size sample_interval core = record {
    tm = tm;
    core = core;
    block_size = block_size;
    sample_interval = max 1 sample_interval;
    step = 0;
    cpu_bufs = [];
    enabled = true;
    samples_taken = 0;
    blocks_reported = 0;
    steps_skipped = 0;
    tm_calls = [];
  }

  -- The setter of `sample_interval`.
  unfoldable pub set_sample_interval : Collector F → ℕ → Collector F
  set_sample_interval c v = record c { sample_interval = max 1 v }

  -- `set_enabled`.
  unfoldable pub set_enabled : Collector F → Bool → Collector F
  set_enabled c enabled = record c { enabled = enabled }

  -- `should_sample`; the interval is never 0.
  abbrev pub should_sample : Collector F → Bool
  should_sample c = if not c.enabled then false else c.step % c.sample_interval == 0

  -- `if bid is not None and bid >= 0`.
  abbrev pub report_one : List (AttnCall F) × ℕ → F → Option ℕ → List (AttnCall F) × ℕ
  report_one acc score none = acc
  report_one acc score (some bid) = (block_attn bid score ∷ acc.0, acc.1 + 1)

  -- The inner loop of `_report_scores`, over a head's scores from block `bi` on, with the calls and
  -- `reported`.
  unfoldable pub report_row :
      (ℕ → Option ℕ) → List (AttnCall F) × ℕ → ℕ → List F → List (AttnCall F) × ℕ
  report_row ids acc bi [] = acc
  report_row ids acc bi (score ∷ row) = report_row ids (report_one acc score (ids bi)) (bi + 1) row

  -- The outer loop, from head `h` on.
  unfoldable pub report_rows :
      (ℕ → ℕ → Option ℕ) → List (AttnCall F) × ℕ → ℕ → List (List F) → List (AttnCall F) × ℕ
  report_rows ids acc h [] = acc
  report_rows ids acc h (row ∷ rows) = report_rows ids (report_row (ids h) acc 0 row) (h + 1) rows

  -- `_report_scores`.
  unfoldable pub report_scores :
      Collector F
      → (layer n_heads n_blocks : ℕ) → List (List F)
      → Option TableRow
      → Option BlockIdFn
      → Collector F
  report_scores c layer n_heads n_blocks scores table fn =
      let acc = report_rows (block_id fn table layer n_heads n_blocks) (c.tm_calls, 0) 0 scores in
      if not c.core
      then c
      else record c { tm_calls = acc.0; blocks_reported = c.blocks_reported + acc.1 }

  -- `on_step_done`.
  unfoldable pub collector_step_done : Collector F → Collector F
  collector_step_done c =
      let s = record c { step = c.step + 1 } in
      let t =
        if should_sample s
        then record s { samples_taken = s.samples_taken + 1 }
        else record s { steps_skipped = s.steps_skipped + 1 } in
      if t.core then record t { tm_calls = step_over ∷ t.tm_calls } else t

module _ {ℓ} {F : Type ℓ} ⦃float : Float F⦄ (mean : List F → F) where
  -- An entry of the weights after the padding with zeros.
  abbrev pub padded : Weights F → ℕ → ℕ → ℕ → ℕ → F
  padded w b h q t = if ltb t w.kv_len then w.entry b h q t else float.decimal 0 1

  -- The values whose mean is the score of a head's block.
  unfoldable pub block_values : ℕ → Weights F → ℕ → ℕ → List F
  block_values block_size w h bi = flatten (
      tabulate
        (λ b.
          flatten (
            tabulate (λ q. tabulate (λ t. padded w b h q t) block_size (bi * block_size)) w.q_len
              0))
        w.batch 0)

  -- `_blockwise_reduce`.
  unfoldable pub blockwise_reduce : ℕ → Weights F → ℕ → List (List F)
  unfolding block_values
  blockwise_reduce block_size w n_blocks =
      tabulate (λ h. tabulate (λ bi. mean (block_values block_size w h bi)) n_blocks 0) w.n_heads 0

  -- `collect`, past its test.
  unfoldable pub collect_weights :
      Collector F → ℕ → Candidate F → Option TableRow → Option BlockIdFn → Result (Collector F)
  collect_weights c layer (four_dims w) table fn = do
    guard (not (c.block_size == 0)) zero_division_error
    let n_blocks = (w.kv_len + c.block_size - 1) / c.block_size
    let scores = blockwise_reduce c.block_size w n_blocks
    let c' = record c { cpu_bufs = put layer scores c.cpu_bufs }
    ok (report_scores c' layer w.n_heads n_blocks scores table fn)
  collect_weights c layer _ table fn = err value_error

  -- `collect`.
  unfoldable pub collect :
      Collector F → ℕ → Candidate F → Option TableRow → Option BlockIdFn → Result (Collector F)
  collect c layer w table fn =
      if not (should_sample c) then ok c else collect_weights c layer w table fn
