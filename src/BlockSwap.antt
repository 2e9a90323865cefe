-- ===== src/BlockSwap.antt =====
-- python/orchkv/vllm_integration/block_level_swap.py: which request vLLM preempts.
--
-- What the scorers read of vLLM is data: a group is the list of its running sequences, and the
-- block tables are a dict from a sequence to its blocks, `none` for a block without an id.
-- An index into a list of candidates is a number, and `none` for -1.
-- A handle is one of `orchkv_core`, which is then there. Floats are a parameter.
pub mod Hotness
pub mod Registry
pub mod Scorers
pub mod Install
pub mod Patch
use orch_kv_cache.Prelude.{
  ℕ, zero, suc, ◌+◌, ◌==◌, Option, none, some, List, [], ◌∷◌, if◌then◌else◌,
}
use orch_kv_cache.Prelude.Dict.{find, nat_key}
use orch_kv_cache.Prelude.Float.{Float}

pub record Sequence : Type 0 where
  pub seq_id : ℕ
  pub output_len : ℕ
  pub total_len : ℕ

abbrev pub SeqGroup : Type 0
SeqGroup = List Sequence

abbrev pub BlockTables : Type 0
BlockTables = List (ℕ × List (Option ℕ))

-- `len(candidates) - 1`.
abbrev pub last_index : ℕ → Option ℕ
last_index zero = none
last_index (suc n) = some n

module _ {ℓ} {F : Type ℓ} ⦃float : Float F⦄ where
  -- The inner loop of a group's score: the sum of the blocks' scores, and their number.
  abbrev pub add_blocks : (ℕ → F) → F × ℕ → List (Option ℕ) → F × ℕ
  add_blocks score acc [] = acc
  add_blocks score acc (none ∷ blocks) = add_blocks score acc blocks
  add_blocks score acc (some bid ∷ blocks) =
      add_blocks score (float.plus acc.0 (score bid), acc.1 + 1) blocks

  abbrev pub add_table : (ℕ → F) → F × ℕ → Option (List (Option ℕ)) → F × ℕ
  add_table score acc none = acc
  add_table score acc (some blocks) = add_blocks score acc blocks

  abbrev pub add_seqs : (ℕ → F) → BlockTables → F × ℕ → SeqGroup → F × ℕ
  add_seqs score tables acc [] = acc
  add_seqs score tables acc (seq ∷ seqs) =
      add_seqs score tables (add_table score acc (find seq.seq_id tables)) seqs

  -- The mean of the blocks' scores; 0.0 of no block.
  abbrev pub mean_score : F × ℕ → F
  mean_score acc = if acc.1 == 0 then float.decimal 0 1 else float.divide acc.0 (float.of_nat acc.1)

  -- `if s < best_score: best_score = s; best_idx = i`.
  abbrev pub keep_lower : Option ℕ × F → ℕ → F → Option ℕ × F
  keep_lower best i s = if float.less s best.1 then (some i, s) else best
