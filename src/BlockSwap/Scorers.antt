-- ===== src/BlockSwap/Scorers.antt =====
-- `FastRequestScorer`, `HybridScorer` and `ProgressScorer`, and the choice among the four scorers.
pub mod Coldest
pub mod Victims
use orch_kv_cache.Prelude.{
  ℕ, zero, suc, ◌+◌, ◌==◌, Bool, true, false, Option, none, some, List, [], ◌∷◌, map, max,
  if◌then◌else◌, length, ltb, Result, ok, err, type_error, value_error, ◌>>=◌,
}
use orch_kv_cache.Prelude.Float.{Float}
use orch_kv_cache.BlockSwap.{SeqGroup, BlockTables, Sequence, last_index, keep_lower}
use orch_kv_cache.BlockSwap.Hotness.{RequestScorer, new_tracker, request_victim}
use orch_kv_cache.BlockSwap.Registry.{
  FastBlockTracker, new_fast_tracker, update_registry, score_request_blocks,
}

pub record FastRequestScorer {ℓ} (F : Type ℓ) : Type ℓ where
  pub tracker : FastBlockTracker F
  pub score_calls : ℕ
  pub victims_selected : ℕ

pub record HybridScorer {ℓ} (F : Type ℓ) : Type ℓ where
  pub tracker : FastBlockTracker F
  pub w_block : F
  pub w_progress : F
  pub w_cost : F
  pub score_calls : ℕ
  pub victims_selected : ℕ

pub record ProgressScorer : Type 0 where
  pub score_calls : ℕ
  pub victims_selected : ℕ

-- The keywords of the weights that the code passes or takes.
pub data Keyword : Type 0 where
  w_block w_progress w_cost w_memory : Keyword

-- What `select_victim` of `HybridScorer` measures of a group.
pub record Measure {ℓ} (F : Type ℓ) : Type ℓ where
  pub hotness : F
  pub block_count : ℕ
  pub progress : F

abbrev pub max_blocks {ℓ} : {F : Type ℓ} → List (Measure F) → ℕ
max_blocks [] = 0
max_blocks (m ∷ ms) = max m.block_count (max_blocks ms)

module _ {ℓ} {F : Type ℓ} ⦃float : Float F⦄ where
  -- The loop of `FastRequestScorer.select_victim`, from the candidate `i` on.
  unfoldable pub fast_loop :
      FastBlockTracker F → BlockTables → ℕ → Option ℕ × F → List SeqGroup → Option ℕ × F
  fast_loop t tables i best [] = best
  fast_loop t tables i best (group ∷ groups) =
      fast_loop t tables (i + 1) (keep_lower best i (score_request_blocks t tables group).0) groups

  -- `FastRequestScorer.select_victim`.
  unfoldable pub fast_victim :
      FastRequestScorer F → BlockTables → List SeqGroup → FastRequestScorer F × Option ℕ
  fast_victim r tables candidates =
      let t = update_registry r.tracker tables candidates in
      (
        record r {
          tracker = t;
          victims_selected = r.victims_selected + 1;
          score_calls = r.score_calls + length candidates;
        },
        (fast_loop t tables 0 (last_index (length candidates), float.infinity) candidates).0,
      )

  -- `progress` of a group: that of its first running sequence.
  abbrev pub progress_of : SeqGroup → F
  progress_of [] = float.decimal 0 1
  progress_of (seq ∷ group) =
      if ltb 0 seq.total_len then float.ratio seq.output_len seq.total_len else float.decimal 0 1

  abbrev pub measure : FastBlockTracker F → BlockTables → SeqGroup → Measure F
  measure t tables group =
      let (h, n) = score_request_blocks t tables group in
      record { hotness = h; block_count = max n 1; progress = progress_of group }

  -- `value` of a candidate.
  abbrev pub value_of : HybridScorer F → ℕ → Measure F → F
  value_of r most m =
      float.plus
        (float.plus (float.times r.w_block m.hotness) (float.times r.w_progress m.progress))
        (float.times r.w_cost (float.ratio m.block_count most))

  -- The second loop of `HybridScorer.select_victim`.
  unfoldable pub hybrid_loop :
      HybridScorer F → ℕ → ℕ → Option ℕ × F → List (Measure F) → Option ℕ × F
  hybrid_loop r most i best [] = best
  hybrid_loop r most i best (m ∷ ms) =
      hybrid_loop r most (i + 1) (keep_lower best i (value_of r most m)) ms

  -- `HybridScorer.select_victim`.
  unfoldable pub hybrid_victim :
      HybridScorer F → BlockTables → List SeqGroup → HybridScorer F × Option ℕ
  hybrid_victim r tables candidates =
      let t = update_registry r.tracker tables candidates in
      let n = length candidates in
      let measures = map (measure t tables) candidates in
      if n == 0 then (record r { tracker = t }, some 0) else (
        record r {
          tracker = t;
          victims_selected = r.victims_selected + 1;
          score_calls = r.score_calls + n;
        },
        (hybrid_loop r (max_blocks measures) 0 (last_index n, float.infinity) measures).0,
      )

  -- The body of the loop of `ProgressScorer.select_victim`: a group without a running sequence is
  -- passed over.
  abbrev pub keep_slower : Option ℕ × F → ℕ → SeqGroup → Option ℕ × F
  keep_slower best i [] = best
  keep_slower best i (seq ∷ group) =
      keep_lower best i (float.ratio seq.output_len (max seq.total_len 1))

  unfoldable pub progress_loop : ℕ → Option ℕ × F → List SeqGroup → Option ℕ × F
  progress_loop i best [] = best
  progress_loop i best (group ∷ groups) = progress_loop (i + 1) (keep_slower best i group) groups

module _ {ℓ} (F : Type ℓ) ⦃float : Float F⦄ where
  -- `ProgressScorer.select_victim`.
  unfoldable pub progress_victim : ProgressScorer → List SeqGroup → ProgressScorer × Option ℕ
  progress_victim r candidates = (
    record {
      victims_selected = r.victims_selected + 1;
      score_calls = r.score_calls + length candidates;
    },
    (progress_loop 0 (last_index (length candidates), float.infinity) candidates).0,
  )

pub data Scorer {ℓ} (F : Type ℓ) : Type ℓ where
  request_scorer : RequestScorer F → Scorer F
  fast_scorer : FastRequestScorer F → Scorer F
  hybrid_scorer : HybridScorer F → Scorer F
  progress_scorer : ProgressScorer → Scorer F

module _ {ℓ} {F : Type ℓ} ⦃float : Float F⦄ where
  -- `select_victim` of whichever scorer it is.
  unfoldable pub select_victim : Scorer F → BlockTables → List SeqGroup → Scorer F × Option ℕ
  select_victim (request_scorer r) tables candidates =
      let (r', i) = request_victim r tables candidates in (request_scorer r', i)
  select_victim (fast_scorer r) tables candidates =
      let (r', i) = fast_victim r tables candidates in (fast_scorer r', i)
  select_victim (hybrid_scorer r) tables candidates =
      let (r', i) = hybrid_victim r tables candidates in (hybrid_scorer r', i)
  select_victim (progress_scorer r) tables candidates =
      let (r', i) = progress_victim F r candidates in (progress_scorer r', i)

  abbrev pub new_request_scorer : Option ℕ → F → Scorer F
  new_request_scorer tm ema_lambda =
      request_scorer
        (record { tracker = new_tracker tm ema_lambda; score_calls = 0; victims_selected = 0 })

  abbrev pub new_fast_scorer : Scorer F
  new_fast_scorer =
      fast_scorer (record { tracker = new_fast_tracker; score_calls = 0; victims_selected = 0 })

  abbrev pub new_progress_scorer : Scorer F
  new_progress_scorer = progress_scorer (record { score_calls = 0; victims_selected = 0 })

  -- A keyword argument of `HybridScorer`; a keyword that it does not have raises.
  abbrev pub take_keyword : HybridScorer F → Keyword × F → Result (HybridScorer F)
  take_keyword r (w_block, x) = ok (record r { w_block = x })
  take_keyword r (w_progress, x) = ok (record r { w_progress = x })
  take_keyword r (w_cost, x) = ok (record r { w_cost = x })
  take_keyword r (w_memory, x) = err type_error

  abbrev pub take_keywords : HybridScorer F → List (Keyword × F) → Result (HybridScorer F)
  take_keywords r [] = ok r
  take_keywords r (k ∷ ks) = do r' ← take_keyword r k; take_keywords r' ks

  -- `HybridScorer(...)`, with its defaults for the keywords that are not passed.
  abbrev pub new_hybrid_scorer : List (Keyword × F) → Result (Scorer F)
  new_hybrid_scorer keywords = do
    r ←
        take_keywords
          (record {
            tracker = new_fast_tracker;
            w_block = float.decimal 20 2;
            w_progress = float.decimal 30 2;
            w_cost = float.decimal 50 2;
            score_calls = 0;
            victims_selected = 0;
          })
          keywords
    ok (hybrid_scorer r)

  -- `create_scorer`, called without further keywords, as all its callers do: the third version takes
  -- the defaults of its own.
  unfoldable pub create_scorer : ℕ → Option ℕ → F → Result (Scorer F)
  create_scorer version tm ema_lambda =
      if version == 1
      then ok (new_request_scorer tm ema_lambda)
      else if version == 2
      then ok new_fast_scorer
      else if version == 3
      then new_hybrid_scorer (
          (w_block, float.decimal 35 2)
          ∷ (w_progress, float.decimal 45 2)
          ∷ (w_memory, float.decimal 20 2)
          ∷ [])
      else if version == 4
      then ok new_progress_scorer
      else err value_error
