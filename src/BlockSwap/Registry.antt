-- ===== src/BlockSwap/Registry.antt =====
-- `FastBlockTracker`: scores by the position of a block in its sequence.
pub mod Current
use orch_kv_cache.Prelude.{
  ℕ, zero, suc, ◌+◌, ◌-◌, ◌==◌, Bool, true, false, not, ◌&&◌, Option, none, some, List, [], ◌∷◌,
  if◌then◌else◌, option_or, length, leb,
}
use orch_kv_cache.Prelude.Dict.{find, put, nat_key}
use orch_kv_cache.Prelude.Float.{Float}
use orch_kv_cache.BlockSwap.{Sequence, SeqGroup, BlockTables, add_seqs, mean_score}

-- `_positional_importance`.
unfoldable pub positional_importance {ℓ} : {F : Type ℓ} ⦃float : Float F⦄ → ℕ → ℕ → F
positional_importance ⦃float⦄ position n_total =
    let one = float.decimal 1 0 in
    let frac = float.ratio position (n_total - 1) in
    if leb n_total 1
    then one
    else if position == 0
    then one
    else if float.leq (float.decimal 9 1) frac
    then float.plus (float.decimal 7 1) (
        float.times (float.decimal 3 1)
          (float.divide (float.minus frac (float.decimal 9 1)) (float.decimal 1 1)))
    else float.plus (float.decimal 15 2)
        (float.times (float.decimal 25 2) (float.minus one (float.sin (float.times float.pi frac))))

-- An entry of `_block_info`.
pub record BlockInfo : Type 0 where
  pub seq_id : ℕ
  pub position : ℕ
  pub n_total : ℕ

abbrev pub Registry : Type 0
Registry = List (ℕ × BlockInfo)

-- `[b for b in bt.blocks if b.block_id is not None]`, as ids.
abbrev pub present : List (Option ℕ) → List ℕ
present [] = []
present (none ∷ blocks) = present blocks
present (some bid ∷ blocks) = bid ∷ present blocks

-- `for idx, block in enumerate(blocks)`, from `idx` on.
unfoldable pub register_present : Registry → ℕ → ℕ → ℕ → List ℕ → Registry
register_present info seq_id n_total idx [] = info
register_present info seq_id n_total idx (bid ∷ bids) =
    register_present (put bid (record { seq_id = seq_id; position = idx; n_total = n_total }) info)
      seq_id n_total (idx + 1) bids

unfoldable pub register_table : Registry → ℕ → Option (List (Option ℕ)) → Registry
register_table info seq_id none = info
register_table info seq_id (some blocks) =
    register_present info seq_id (length (present blocks)) 0 (present blocks)

unfoldable pub register_group : Registry → BlockTables → SeqGroup → Registry
register_group info tables [] = info
register_group info tables (seq ∷ group) =
    register_group (register_table info seq.seq_id (find seq.seq_id tables)) tables group

-- `new_info` of `update_registry`.
unfoldable pub registry_of : Registry → BlockTables → List SeqGroup → Registry
registry_of info tables [] = info
registry_of info tables (group ∷ groups) =
    registry_of (register_group info tables group) tables groups

abbrev pub same_entry : BlockInfo → Option BlockInfo → Bool
same_entry i none = false
same_entry i (some j) = i.seq_id == j.seq_id && (i.position == j.position && i.n_total == j.n_total)

abbrev pub entries_in : Registry → Registry → Bool
entries_in [] e = true
entries_in (entry ∷ d) e = same_entry entry.1 (find entry.0 e) && entries_in d e

-- `==` on two dicts: the same keys, with the same values.
abbrev pub same_registry : Registry → Registry → Bool
same_registry d e = entries_in d e && entries_in e d

pub record FastBlockTracker {ℓ} (F : Type ℓ) : Type ℓ where
  pub block_scores : List (ℕ × F)
  pub block_info : Registry
  pub registry_dirty : Bool
  pub step : ℕ
  pub registry_updates : ℕ
  pub blocks_tracked : ℕ

module _ {ℓ} {F : Type ℓ} ⦃float : Float F⦄ where
  -- `__init__`.
  unfoldable pub new_fast_tracker : FastBlockTracker F
  new_fast_tracker = record {
    block_scores = [];
    block_info = [];
    registry_dirty = true;
    step = 0;
    registry_updates = 0;
    blocks_tracked = 0;
  }

  -- `_recompute_scores`.
  abbrev pub recompute_scores : Registry → List (ℕ × F)
  recompute_scores [] = []
  recompute_scores (entry ∷ info) =
      (entry.0, positional_importance entry.1.position entry.1.n_total) ∷ recompute_scores info

  -- `update_registry`.
  unfoldable pub update_registry :
      FastBlockTracker F → BlockTables → List SeqGroup → FastBlockTracker F
  update_registry t tables groups =
      let new_info = registry_of [] tables groups in
      let t' = if same_registry new_info t.block_info then t else record t {
        block_info = new_info;
        block_scores = recompute_scores new_info;
        registry_updates = t.registry_updates + 1;
      } in
      record t' { blocks_tracked = length t'.block_info }

  -- `get_score`.
  abbrev pub fast_score : FastBlockTracker F → ℕ → F
  fast_score t bid = option_or (find bid t.block_scores) (float.decimal 3 1)

  -- `score_request_blocks`.
  abbrev pub score_request_blocks : FastBlockTracker F → BlockTables → SeqGroup → F × ℕ
  score_request_blocks t tables group =
      let acc = add_seqs (fast_score t) tables (float.decimal 0 1, 0) group in
      (mean_score acc, acc.1)

  -- `step_done`.
  unfoldable pub tracker_step_done : FastBlockTracker F → FastBlockTracker F
  tracker_step_done t = record t { step = t.step + 1 }
