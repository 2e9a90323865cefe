-- ===== src/Tests/BlockSwap.antt =====
-- Runs of the victim scorers. Floats stand here as whole thousandths, which obey the laws that are
-- relied on; `pow2` and `sin` are not exact.
use orch_kv_cache.Prelude.{
  ℕ, ◌+◌, ◌-◌, ◌*◌, ◌/◌, ◌^◌, ◌≡◌, refl, Bool, true, false, some, none, List, [], ◌∷◌, ◌++◌, arith,
  ltb, leb, ok, option_or,
}
use mathlib.Core.List.{Perm}
use orch_kv_cache.BlockSwap.Patch.{
  PatchFiles, apply_scheduler_patch, anchor1, anchor2, old_marker, occurs, replace_first,
}
use orch_kv_cache.BlockSwap.Patch.Applied.{
  PatchOutcome, apply_scheduler_patch-IsIdempotent, apply_scheduler_patch-Outcome,
}
use orch_kv_cache.Tests.{value_or}
use orch_kv_cache.Prelude.Dict.{find, nat_key}
use orch_kv_cache.Prelude.Float.{Float, IsOrdered}
use orch_kv_cache.BlockSwap.{SeqGroup, BlockTables}
use orch_kv_cache.BlockSwap.Hotness.{
  HotnessTracker, new_tracker, hotness_report, hotness_step_done, hotness_remove,
}
use orch_kv_cache.BlockSwap.Hotness.Tracked.{IsTracked, TrackerRun, TrackerRun-IsTracked}
use orch_kv_cache.BlockSwap.Registry.{new_fast_tracker, update_registry, fast_score, registry_of}
use orch_kv_cache.BlockSwap.Registry.Current.{
  IsCurrent, importance, new_fast_tracker-IsCurrent, update_registry-IsCurrent,
}
use orch_kv_cache.BlockSwap.Scorers.{Scorer, select_victim, new_fast_scorer, new_progress_scorer}
use orch_kv_cache.BlockSwap.Scorers.Coldest.{IsColdest}
use orch_kv_cache.BlockSwap.Scorers.Victims.{scores_of, select_victim-IsColdest}
use orch_kv_cache.BlockSwap.Install.{pop_victim}
use orch_kv_cache.BlockSwap.Install.Swap.{pop_victim-perm}

instance abbrev pub thousandths : Float ℕ
thousandths = record {
  decimal = λ m k. m * 1000 / 10 ^ k;
  infinity = 1000000000;
  pi = 3141;
  of_nat = λ n. n * 1000;
  ratio = λ a b. a * 1000 / b;
  plus = λ a b. a + b;
  minus = λ a b. a - b;
  times = λ a b. a * b / 1000;
  divide = λ a b. a * 1000 / b;
  negate = λ a. 0;
  pow2 = λ a. 1000;
  exp = λ a. 1000;
  sin = λ a. a * (3141 - a) / 2467;
  less = ltb;
  leq = leb;
}

ltb_irrefl : (x : ℕ) → ltb x x ≡ false
ltb_irrefl x = ground arith

ltb_trans : (x y z : ℕ) → ltb x y ≡ true → ltb y z ≡ true → ltb x z ≡ true
ltb_trans x y z h h' = ground arith

thousandths-IsOrdered : IsOrdered ℕ
thousandths-IsOrdered = record { less_irrefl = ltb_irrefl; less_trans = ltb_trans }

-- Two groups: sequence 1 has made 90 of its 100 tokens, sequence 2 10 of them.
abbrev ahead : SeqGroup
ahead = record { seq_id = 1; output_len = 90; total_len = 100 } ∷ []

abbrev behind : SeqGroup
behind = record { seq_id = 2; output_len = 10; total_len = 100 } ∷ []

abbrev tables : BlockTables
tables = (1, some 3 ∷ some 4 ∷ []) ∷ (2, some 5 ∷ none ∷ some 6 ∷ some 7 ∷ []) ∷ []

select_victim-IsColdest_example :
    IsColdest
      (scores_of {F = ℕ} new_progress_scorer tables (behind ∷ ahead ∷ []))
      (select_victim {F = ℕ} new_progress_scorer tables (behind ∷ ahead ∷ [])).1
select_victim-IsColdest_example =
    select_victim-IsColdest thousandths-IsOrdered new_progress_scorer tables behind (ahead ∷ [])

pop_victim-perm_example :
    (next : Scorer ℕ) × (victim : SeqGroup) × (rest : List SeqGroup) × (pop_victim
        (some new_fast_scorer)
        tables
        (behind ∷ ahead ∷ [])
      ≡ ok (some next, (victim, rest)))
    × Perm (victim ∷ rest) (behind ∷ ahead ∷ [])
pop_victim-perm_example =
    pop_victim-perm thousandths-IsOrdered new_fast_scorer tables behind (ahead ∷ [])

abbrev reported_twice : HotnessTracker ℕ
reported_twice = hotness_report (hotness_report (new_tracker none 300) 5 800) 6 200

TrackerRun-IsTracked_example : IsTracked (hotness_remove (hotness_step_done reported_twice) 5)
TrackerRun-IsTracked_example =
    TrackerRun-IsTracked none 300 (hotness_remove (hotness_step_done reported_twice) 5) (
      TrackerRun.removed 5 (
        TrackerRun.stepped (TrackerRun.reported 6 200 (TrackerRun.reported 5 800 TrackerRun.made))))

update_registry-IsCurrent_example :
    IsCurrent (update_registry {F = ℕ} new_fast_tracker tables (behind ∷ ahead ∷ []))
    × ((b : ℕ)
        → fast_score (update_registry {F = ℕ} new_fast_tracker tables (behind ∷ ahead ∷ [])) b
          ≡ option_or
              (importance (find b (registry_of [] tables (behind ∷ ahead ∷ []))))
              (thousandths.decimal 3 1))
update_registry-IsCurrent_example =
    update_registry-IsCurrent new_fast_tracker tables (behind ∷ ahead ∷ [])
      new_fast_tracker-IsCurrent

-- A scheduler with the two places that are patched.
abbrev vanilla : PatchFiles
vanilla = record {
  scheduler = some (anchor1 ++ (b'\n' ∷ anchor2));
  pre_v4 = none;
  pre_blockscore = none;
}

abbrev once_patched : PatchFiles
once_patched = (value_or (vanilla, false) (apply_scheduler_patch vanilla)).0

vanilla_patched : apply_scheduler_patch vanilla ≡ ok (once_patched, true)
unfolding apply_scheduler_patch occurs replace_first
vanilla_patched = refl

vanilla-current : occurs old_marker (anchor1 ++ (b'\n' ∷ anchor2)) ≡ false
unfolding occurs
vanilla-current = refl

apply_scheduler_patch-IsIdempotent_example :
    apply_scheduler_patch once_patched ≡ ok (once_patched, true)
apply_scheduler_patch-IsIdempotent_example =
    apply_scheduler_patch-IsIdempotent vanilla once_patched (anchor1 ++ (b'\n' ∷ anchor2)) refl
      vanilla-current vanilla_patched

apply_scheduler_patch-Outcome_example :
    (r : PatchFiles × Bool) × (apply_scheduler_patch vanilla ≡ ok r) × PatchOutcome vanilla r
apply_scheduler_patch-Outcome_example =
    apply_scheduler_patch-Outcome vanilla (anchor1 ++ (b'\n' ∷ anchor2)) refl

-- A file of the version before, whose copy is there: the copy is patched, and is then lost.
abbrev version4 : PatchFiles
version4 = record vanilla { scheduler = some old_marker; pre_blockscore = vanilla.scheduler }

version4_patched :
    (r : PatchFiles × Bool) × (apply_scheduler_patch version4 ≡ ok r)
    × (r.0.pre_blockscore ≡ some old_marker)
    × (r.0.scheduler ≡ once_patched.scheduler)
unfolding apply_scheduler_patch occurs replace_first
version4_patched = ((value_or (version4, false) (apply_scheduler_patch version4)), refl, refl, refl)
