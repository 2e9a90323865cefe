-- ===== src/BlockSwap/Install.antt =====
-- The patched scheduler of vLLM, and the functions that install a scorer on a scheduler. The code
-- that the patch puts into the scheduler's file is modelled here, the patch itself in BlockSwap/Patch.
pub mod Swap
use orch_kv_cache.Prelude.{
  ℕ, zero, suc, ◌==◌, Bool, true, false, ◌&&◌, Option, none, some, List, [], ◌∷◌, if◌then◌else◌,
  length, ltb, leb, Result, ok, err, index_error, ◌>>=◌, get_elem?, ok_or,
}
use orch_kv_cache.Prelude.Float.{Float}
use orch_kv_cache.BlockSwap.{SeqGroup, BlockTables, last_index}
use orch_kv_cache.BlockSwap.Scorers.{Scorer, select_victim, create_scorer}

-- The scheduler's attributes that the functions below read or write.
pub record PatchedScheduler {ℓ} (F : Type ℓ) : Type ℓ where
  pub block_scorer : Option (Scorer F)  -- `_orchkv_block_scorer`
  pub orchkv_enabled : Bool

-- `del running_queue[i]`.
abbrev pub remove_at {ℓ} : {A : Type ℓ} → ℕ → List A → List A
remove_at i [] = []
remove_at zero (x ∷ xs) = xs
remove_at (suc i) (x ∷ xs) = x ∷ remove_at i xs

-- The group at an index of a list and the others; `none` is the index -1.
abbrev pub take_at {ℓ} : {A : Type ℓ} → Option ℕ → List A → Result (A × List A)
take_at (some i) xs = do x ← ok_or index_error (get_elem? xs i); ok (x, remove_at i xs)
take_at none xs = do
  i ← ok_or index_error (last_index (length xs))
  x ← ok_or index_error (get_elem? xs i)
  ok (x, remove_at i xs)

abbrev pub kept_scorer {ℓ} : {F : Type ℓ} → Result (Scorer F) → Option (Scorer F)
kept_scorer (ok scorer) = some scorer
kept_scorer (err e) = none

module _ {ℓ} {F : Type ℓ} ⦃float : Float F⦄ where
  -- The lines of the first patch: `_bs_ver` is the number that the variable ORCHKV_BLOCK_SCORE has,
  -- where a text that is none of the versions is any other number. Exceptions are caught.
  unfoldable pub patched_init : ℕ → Bool → Option (Scorer F)
  patched_init bs_ver swap_on =
      let version = if bs_ver == 0 && swap_on then 4 else bs_ver in
      if ltb 0 version && leb version 4
      then kept_scorer (create_scorer version none (float.decimal 3 1))
      else none

  -- The lines of the second patch, for a queue that is not empty.
  unfoldable pub pop_victim :
      Option (Scorer F)
      → BlockTables
      → List SeqGroup
      → Result (Option (Scorer F) × (SeqGroup × List SeqGroup))
  pop_victim none tables queue = do rest ← take_at none queue; ok (none, rest)
  pop_victim (some scorer) tables queue = do
    let (scorer', i) = select_victim scorer tables queue
    rest ← take_at i queue
    ok (some scorer', rest)

  -- `install_block_scoring`, past the patch of the file.
  unfoldable pub install_scoring :
      PatchedScheduler F → ℕ → Option ℕ → F → Result (PatchedScheduler F × Scorer F)
  install_scoring s version tm ema_lambda = elim s.block_scorer [
    | some existing ↦ ok (s, existing)
    | none ↦ do
      scorer ← create_scorer version tm ema_lambda
      ok (record s { block_scorer = some scorer; orchkv_enabled = true }, scorer)
  ]

  -- `install_partial_swap`.
  unfoldable pub install_partial_swap :
      PatchedScheduler F → Option ℕ → F → Result (PatchedScheduler F × Scorer F)
  unfolding install_scoring
  install_partial_swap s tm ema_lambda = install_scoring s 3 tm ema_lambda
