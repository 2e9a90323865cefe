-- ===== src/BlockSwap/Hotness.antt =====
-- `BlockHotnessTracker` and `RequestScorer`, the first version: a moving average for each block.
pub mod Tracked
use orch_kv_cache.Prelude.{
  ℕ, zero, ◌+◌, ◌-◌, ◌==◌, Bool, true, false, Option, none, some, List, [], ◌∷◌, map, max,
  if◌then◌else◌, is_some, option_or, length,
}
use orch_kv_cache.Prelude.Dict.{find, put, without, nat_key}
use orch_kv_cache.Prelude.Float.{Float}
use orch_kv_cache.BlockSwap.{SeqGroup, BlockTables, last_index, add_seqs, mean_score, keep_lower}

pub data HotnessCall {ℓ} (F : Type ℓ) : Type ℓ where
  attn_reported : ℕ → F → HotnessCall F
  step_reported : HotnessCall F

pub record HotnessTracker {ℓ} (F : Type ℓ) : Type ℓ where
  pub tm : Option ℕ
  pub ema_lambda : F
  pub alpha : F
  pub beta : F
  pub gamma : F
  pub ema : List (ℕ × F)
  pub last_access : List (ℕ × ℕ)
  pub access_count : List (ℕ × ℕ)
  pub step : ℕ
  pub max_ema : F
  pub reports : ℕ
  pub steps : ℕ
  pub tm_calls : List (HotnessCall F)

-- `max(self._access_count.values())`, of a dict that is not empty.
abbrev pub max_count : List (ℕ × ℕ) → ℕ
max_count [] = 0
max_count (entry ∷ counts) = max entry.1 (max_count counts)

module _ {ℓ} {F : Type ℓ} ⦃float : Float F⦄ where
  -- `1e-9`.
  abbrev pub tiny : F
  tiny = float.decimal 1 9

  -- `__init__`, with the defaults of the three weights.
  unfoldable pub new_tracker : Option ℕ → F → HotnessTracker F
  new_tracker tm ema_lambda = record {
    tm = tm;
    ema_lambda = ema_lambda;
    alpha = float.decimal 7 1;
    beta = float.decimal 2 1;
    gamma = float.decimal 1 1;
    ema = [];
    last_access = [];
    access_count = [];
    step = 0;
    max_ema = tiny;
    reports = 0;
    steps = 0;
    tm_calls = [];
  }

  abbrev pub hotness_tell : HotnessTracker F → HotnessCall F → List (HotnessCall F)
  hotness_tell t call = if is_some t.tm then call ∷ t.tm_calls else t.tm_calls

  -- `report_attention`.
  unfoldable pub hotness_report : HotnessTracker F → ℕ → F → HotnessTracker F
  hotness_report t bid score =
      let old = option_or (find bid t.ema) (float.decimal 0 1) in
      record t {
        ema =
            put bid
              (float.plus (float.times t.ema_lambda score)
                (float.times (float.minus (float.of_nat 1) t.ema_lambda) old))
              t.ema;
        last_access = put bid t.step t.last_access;
        access_count = put bid (option_or (find bid t.access_count) 0 + 1) t.access_count;
        reports = t.reports + 1;
        tm_calls = hotness_tell t (attn_reported bid score);
      }

  -- `self._ema[bid] *= decay` for every block.
  abbrev pub decayed : F → List (ℕ × F) → List (ℕ × F)
  decayed decay [] = []
  decayed decay (entry ∷ ema) = (entry.0, float.times entry.1 decay) ∷ decayed decay ema

  -- `if self._ema[bid] > new_max: new_max = self._ema[bid]`, over the dict.
  abbrev pub highest : F → List (ℕ × F) → F
  highest new_max [] = new_max
  highest new_max (entry ∷ ema) =
      highest (if float.less new_max entry.1 then entry.1 else new_max) ema

  -- `step_done`.
  unfoldable pub hotness_step_done : HotnessTracker F → HotnessTracker F
  hotness_step_done t =
      let ema = decayed (float.minus (float.decimal 1 0) t.ema_lambda) t.ema in
      record t {
        step = t.step + 1;
        ema = ema;
        max_ema = highest tiny ema;
        steps = t.steps + 1;
        tm_calls = hotness_tell t step_reported;
      }

  -- `norm_ema` of `get_score`.
  abbrev pub normal_ema : HotnessTracker F → F → F
  normal_ema t ema =
      if float.less tiny t.max_ema then float.divide ema t.max_ema else float.decimal 0 1

  -- `norm_freq` of `get_score`.
  abbrev pub normal_freq : HotnessTracker F → ℕ → F
  normal_freq t freq =
      let x =
        float.ratio freq (max (elim t.access_count [ [] ↦ 1 | counts ↦ max_count counts ]) 1) in
      let one = float.decimal 1 0 in if float.less one x then one else x

  -- `get_score`; a block is accessed at no later step than the present one.
  unfoldable pub hotness_score : HotnessTracker F → ℕ → F
  hotness_score t bid =
      let dt = t.step - option_or (find bid t.last_access) 0 in
      let recency =
        float.pow2 (float.divide (float.negate (float.of_nat dt)) (float.decimal 100 1)) in
      float.plus
        (float.plus
          (float.times t.alpha (normal_ema t (option_or (find bid t.ema) (float.decimal 0 1))))
          (float.times t.beta recency))
        (float.times t.gamma (normal_freq t (option_or (find bid t.access_count) 0)))

  -- `remove_block`.
  unfoldable pub hotness_remove : HotnessTracker F → ℕ → HotnessTracker F
  hotness_remove t bid = record t {
    ema = without bid t.ema;
    last_access = without bid t.last_access;
    access_count = without bid t.access_count;
  }

pub record RequestScorer {ℓ} (F : Type ℓ) : Type ℓ where
  pub tracker : HotnessTracker F
  pub score_calls : ℕ
  pub victims_selected : ℕ

module _ {ℓ} {F : Type ℓ} ⦃float : Float F⦄ where
  -- `score_request`.
  abbrev pub score_request : RequestScorer F → BlockTables → SeqGroup → RequestScorer F × F
  score_request r tables group = (
    record r { score_calls = r.score_calls + 1 },
    mean_score (add_seqs (hotness_score r.tracker) tables (float.decimal 0 1, 0) group),
  )

  -- The loop of `select_victim`, from the candidate `i` on.
  unfoldable pub request_loop :
      RequestScorer F
      → BlockTables
      → ℕ
      → Option ℕ × F
      → List SeqGroup
      → RequestScorer F × (Option ℕ × F)
  request_loop r tables i best [] = (r, best)
  request_loop r tables i best (group ∷ groups) =
      let (r', s) = score_request r tables group in
      request_loop r' tables (i + 1) (keep_lower best i s) groups

  -- `select_victim`.
  unfoldable pub request_victim :
      RequestScorer F → BlockTables → List SeqGroup → RequestScorer F × Option ℕ
  request_victim r tables candidates =
      let (r', best) =
        request_loop r tables 0 (last_index (length candidates), float.infinity) candidates in
      (record r' { victims_selected = r'.victims_selected + 1 }, best.0)
