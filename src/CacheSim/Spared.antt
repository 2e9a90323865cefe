-- ===== src/CacheSim/Spared.antt =====
-- The strategies of benchmarks/exp_competitive_ratio.py and the blocks that the present step requests.
use orch_kv_cache.Prelude.{ℕ, ◌≡◌, refl, Option, none, some, List, arith}
use orch_kv_cache.Prelude.Float.{Float}
use orch_kv_cache.CacheSim.{first_victim, lfu_victim, opt_victim}
use orch_kv_cache.CacheSim.Ema.{EmaSignals, ema_victim}
use orch_kv_cache.CacheSim.Victims.{
  Spares, AllFinite, first_victim-Spares, lfu_victim-Picks, ema_victim-Spares,
}
use orch_kv_cache.CacheSim.Belady.{opt_victim-IsFarthest}

opt_victim-Spares :
    (trace : List (List ℕ)) (step_idx : ℕ) (requested s : List ℕ)
    → Spares requested (opt_victim trace step_idx requested s) s
opt_victim-Spares trace step_idx requested s =
    by_result (opt_victim trace step_idx requested s) refl
  where
    by_result : (o : Option ℕ) → opt_victim trace step_idx requested s ≡ o → Spares requested o s
    by_result none e = tt
    by_result (some bid) e =
        let (_, free, _) = opt_victim-IsFarthest trace step_idx requested s bid e in
        λ h. absurd (ground arith)

-- Of the blocks in `s`, FIFO and LRU, whose order `s` then is, LFU, EMA, if every score is below infinity,
-- and OPT pick a block that the step requests only where the step requests all of them.
pub victims-Spare {ℓ} :
    {F : Type ℓ} ⦃float : Float F⦄ (freq : List (ℕ × ℕ)) (signals : EmaSignals F)
    (trace : List (List ℕ)) (step_idx : ℕ) (requested s : List ℕ)
    → AllFinite signals step_idx
    → Spares requested (first_victim requested s) s
      × Spares requested (lfu_victim freq requested s) s
      × Spares requested (ema_victim signals step_idx requested s) s
      × Spares requested (opt_victim trace step_idx requested s) s
victims-Spare freq signals trace step_idx requested s finite = (
  first_victim-Spares requested s,
  (lfu_victim-Picks freq requested s).1,
  ema_victim-Spares signals step_idx requested s finite,
  opt_victim-Spares trace step_idx requested s,
)
