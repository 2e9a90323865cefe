-- ===== src/CacheSim/Ema.antt =====
-- `EMACache` of benchmarks/exp_competitive_ratio.py: its averages, and the victim that it chooses.
--
-- `best_score` starts at infinity. Floats are a parameter.
use orch_kv_cache.Prelude.{
  ℕ, ◌+◌, ◌-◌, Option, none, some, List, [], ◌∷◌, max, if◌then◌else◌, option_or, ltb,
}
use orch_kv_cache.Prelude.Dict.{find, put, nat_key}
use orch_kv_cache.Prelude.Float.{Float}
use orch_kv_cache.Prelude.Sets.{contains}
use orch_kv_cache.CacheSim.{others, or_first}

-- What `_select_victim` of `EMACache` reads.
pub record EmaSignals {ℓ} (F : Type ℓ) : Type ℓ where
  pub ema_lambda : F
  pub alpha : F
  pub beta : F
  pub gamma : F
  pub tau : F
  pub ema : List (ℕ × F)
  pub last_access : List (ℕ × ℕ)
  pub freq : List (ℕ × ℕ)

abbrev pub highest_count : List (ℕ × ℕ) → ℕ
highest_count [] = 0
highest_count (entry ∷ freq) = max entry.1 (highest_count freq)

abbrev pub top_freq : List (ℕ × ℕ) → ℕ
top_freq [] = 1
top_freq (entry ∷ freq) = highest_count (entry ∷ freq)

module _ {ℓ} {F : Type ℓ} ⦃float : Float F⦄ where
  -- `__init__`, with its defaults.
  unfoldable pub new_signals : EmaSignals F
  new_signals = record {
    ema_lambda = float.decimal 9 1;
    alpha = float.decimal 7 1;
    beta = float.decimal 2 1;
    gamma = float.decimal 1 1;
    tau = float.decimal 50 0;
    ema = [];
    last_access = [];
    freq = [];
  }

  -- The body of the first loop of `step`.
  abbrev pub note_request : List (ℕ × F) → ℕ → EmaSignals F → ℕ → EmaSignals F
  note_request scores step_idx s bid = record s {
    ema =
        put bid
          (float.plus (float.times s.ema_lambda (option_or (find bid s.ema) (float.decimal 0 1))) (
            float.times (float.minus (float.of_nat 1) s.ema_lambda)
              (option_or (find bid scores) (float.decimal 0 1))))
          s.ema;
    last_access = put bid step_idx s.last_access;
    freq = put bid (option_or (find bid s.freq) 0 + 1) s.freq;
  }

  abbrev pub note_requests : List (ℕ × F) → ℕ → EmaSignals F → List ℕ → EmaSignals F
  note_requests scores step_idx s [] = s
  note_requests scores step_idx s (bid ∷ bids) =
      note_requests scores step_idx (note_request scores step_idx s bid) bids

  -- The second loop: the averages of the blocks that are not requested fall.
  abbrev pub decay_others : F → List ℕ → List (ℕ × F) → List (ℕ × F)
  decay_others lambda requested [] = []
  decay_others lambda requested (entry ∷ ema) =
      (if contains entry.0 requested then entry else (entry.0, float.times entry.1 lambda))
      ∷ decay_others lambda requested ema

  -- `max` of two or of several floats keeps the first of equal ones.
  abbrev pub fmax : F → F → F
  fmax a b = if float.less a b then b else a

  abbrev pub max_value : F → List (ℕ × F) → F
  max_value best [] = best
  max_value best (entry ∷ ema) = max_value (fmax best entry.1) ema

  abbrev pub top_ema : List (ℕ × F) → F
  top_ema [] = fmax (float.decimal 1 9) (float.decimal 1 9)
  top_ema (entry ∷ ema) = fmax (max_value entry.1 ema) (float.decimal 1 9)

  -- `ema_hotness`; a block is accessed at no later step than the present one.
  abbrev pub ema_hotness : EmaSignals F → ℕ → ℕ → F
  ema_hotness s step_idx bid =
      let norm_ema =
        float.divide (option_or (find bid s.ema) (float.decimal 0 1)) (top_ema s.ema) in
      let dt = step_idx - option_or (find bid s.last_access) 0 in
      let recency =
        if ltb dt 500
        then float.exp (float.divide (float.negate (float.of_nat dt)) s.tau)
        else float.decimal 0 1 in
      let share = float.ratio (option_or (find bid s.freq) 0) (max (top_freq s.freq) 1) in
      let freq = if float.less (float.decimal 10 1) share then float.decimal 10 1 else share in
      float.plus (float.plus (float.times s.alpha norm_ema) (float.times s.beta recency))
        (float.times s.gamma freq)

  -- The loop of `_select_victim`: `if ema_hotness < best_score`.
  abbrev pub coldest : (ℕ → F) → Option ℕ × F → List ℕ → Option ℕ × F
  coldest score best [] = best
  coldest score best (bid ∷ blocks) =
      coldest score (if float.less (score bid) best.1 then (some bid, score bid) else best) blocks

  -- `_select_victim` of `EMACache`.
  unfoldable pub ema_victim : EmaSignals F → ℕ → List ℕ → List ℕ → Option ℕ
  ema_victim s step_idx requested blocks =
      or_first (coldest (ema_hotness s step_idx) (none, float.infinity) (others requested blocks)).0
        blocks
