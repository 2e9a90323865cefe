-- ===== src/BlockSwap/Scorers/Victims.antt =====
-- Which candidate `select_victim` chooses.
use orch_kv_cache.Prelude.{
  ℕ, suc, ◌+◌, ◌==◌, ◌≡◌, refl, sym, ap, ◌∙◌, false, Option, none, some, List, [], ◌∷◌, map, arith,
  length, max,
}
use mathlib.Core.Path.{subst}
use orch_kv_cache.Prelude.Float.{Float, IsOrdered}
use orch_kv_cache.BlockSwap.{SeqGroup, BlockTables, last_index, keep_lower}
use orch_kv_cache.BlockSwap.Hotness.{RequestScorer, request_loop, request_victim, score_request}
use orch_kv_cache.BlockSwap.Registry.{FastBlockTracker, update_registry, score_request_blocks}
use orch_kv_cache.BlockSwap.Scorers.{
  fast_loop, fast_victim, HybridScorer, Measure, max_blocks, measure, value_of, hybrid_loop,
  hybrid_victim, progress_loop, progress_victim, Scorer, request_scorer, fast_scorer, hybrid_scorer,
  progress_scorer, select_victim,
}
use orch_kv_cache.BlockSwap.Scorers.Coldest.{pick, pick-IsColdest, IsColdest}

module _ {ℓ} {F : Type ℓ} ⦃float : Float F⦄ where
  -- The score of a group for `ProgressScorer`, if it has one.
  abbrev slowness : SeqGroup → Option F
  slowness [] = none
  slowness (seq ∷ group) = some (float.ratio seq.output_len (max seq.total_len 1))

  abbrev request_scores : RequestScorer F → BlockTables → List SeqGroup → List (Option F)
  request_scores r tables groups = map (λ g. some (score_request r tables g).1) groups

  abbrev fast_scores : FastBlockTracker F → BlockTables → List SeqGroup → List (Option F)
  fast_scores t tables groups = map (λ g. some (score_request_blocks t tables g).0) groups

  abbrev hybrid_scores : HybridScorer F → ℕ → List (Measure F) → List (Option F)
  hybrid_scores r most ms = map (λ m. some (value_of r most m)) ms

  -- The scores of the candidates: of the blocks as the tracker has them, after the update of its
  -- registry where the version has one.
  abbrev pub scores_of : Scorer F → BlockTables → List SeqGroup → List (Option F)
  scores_of (request_scorer r) tables groups = request_scores r tables groups
  scores_of (fast_scorer r) tables groups =
      fast_scores (update_registry r.tracker tables groups) tables groups
  scores_of (hybrid_scorer r) tables groups =
      let ms = map (measure (update_registry r.tracker tables groups) tables) groups in
      hybrid_scores r (max_blocks ms) ms
  scores_of (progress_scorer r) tables groups = map slowness groups

  request_loop-eq-pick :
      (r : RequestScorer F) (tables : BlockTables) (i : ℕ) (best : Option ℕ × F)
      (groups : List SeqGroup)
      → (request_loop r tables i best groups).1 ≡ pick i best (request_scores r tables groups)
  unfolding request_loop pick
  request_loop-eq-pick r tables i best [] = refl
  request_loop-eq-pick r tables i best (g ∷ groups) =
      let (r', s) = score_request r tables g in
      request_loop-eq-pick r' tables (i + 1) (keep_lower best i s) groups

  fast_loop-eq-pick :
      (t : FastBlockTracker F) (tables : BlockTables) (i : ℕ) (best : Option ℕ × F)
      (groups : List SeqGroup)
      → fast_loop t tables i best groups ≡ pick i best (fast_scores t tables groups)
  unfolding fast_loop pick
  fast_loop-eq-pick t tables i best [] = refl
  fast_loop-eq-pick t tables i best (g ∷ groups) =
      fast_loop-eq-pick t tables (i + 1) (keep_lower best i (score_request_blocks t tables g).0)
        groups

  hybrid_loop-eq-pick :
      (r : HybridScorer F) (most i : ℕ) (best : Option ℕ × F) (ms : List (Measure F))
      → hybrid_loop r most i best ms ≡ pick i best (hybrid_scores r most ms)
  unfolding hybrid_loop pick
  hybrid_loop-eq-pick r most i best [] = refl
  hybrid_loop-eq-pick r most i best (m ∷ ms) =
      hybrid_loop-eq-pick r most (i + 1) (keep_lower best i (value_of r most m)) ms

  progress_loop-eq-pick :
      (i : ℕ) (best : Option ℕ × F) (groups : List SeqGroup)
      → progress_loop i best groups ≡ pick i best (map slowness groups)
  unfolding progress_loop pick
  progress_loop-eq-pick i best [] = refl
  progress_loop-eq-pick i best ([] ∷ groups) = progress_loop-eq-pick (i + 1) best groups
  progress_loop-eq-pick i best ((seq ∷ g) ∷ groups) =
      progress_loop-eq-pick (i + 1)
        (keep_lower best i (float.ratio seq.output_len (max seq.total_len 1))) groups

pub length-map {ℓ κ} :
    {A : Type ℓ} {B : Type κ} (f : A → B) (xs : List A) → length (map f xs) ≡ length xs
length-map f [] = refl
length-map f (x ∷ xs) = ap suc (length-map f xs)

module _ {ℓ} {F : Type ℓ} ⦃float : Float F⦄ (o : IsOrdered F) where
  chosen :
      (n : ℕ) (ss : List (Option F)) (r : Option ℕ × F)
      → length ss ≡ n
      → r ≡ pick 0 (last_index n, float.infinity) ss
      → IsColdest ss r.0
  chosen n ss r size e =
      let at_size =
        subst (λ k. IsColdest ss (pick 0 (last_index k, float.infinity) ss).0) size
          (pick-IsColdest o ss) in
      subst (λ p. IsColdest ss p.0) (sym e) at_size

  -- Every version of the scorer chooses, among candidates that are not none at all, one whose score is
  -- lowest, or the last one if no score is below infinity. The scores are those of the
  -- candidates as they are at the call; `<` on floats is irreflexive and transitive.
  pub select_victim-IsColdest :
      (scorer : Scorer F) (tables : BlockTables) (group : SeqGroup) (groups : List SeqGroup)
      → IsColdest
          (scores_of scorer tables (group ∷ groups))
          (select_victim scorer tables (group ∷ groups)).1
  unfolding select_victim request_victim fast_victim hybrid_victim progress_victim
  select_victim-IsColdest (request_scorer r) tables group groups =
      let all = group ∷ groups in
      chosen (length all) (request_scores r tables all) _ (length-map _ all)
        (request_loop-eq-pick r tables 0 (last_index (length all), float.infinity) all)
  select_victim-IsColdest (fast_scorer r) tables group groups =
      let all = group ∷ groups in
      let t = update_registry r.tracker tables all in
      chosen (length all) (fast_scores t tables all) _ (length-map _ all)
        (fast_loop-eq-pick t tables 0 (last_index (length all), float.infinity) all)
  select_victim-IsColdest (hybrid_scorer r) tables group groups =
      let all = group ∷ groups in
      let ms = map (measure (update_registry r.tracker tables all) tables) all in
      let best = hybrid_loop r (max_blocks ms) 0 (last_index (length all), float.infinity) ms in
      let lengths =
        length-map (λ m. some (value_of r (max_blocks ms) m)) ms
        ∙ length-map (measure (update_registry r.tracker tables all) tables) all in
      let coldest =
        chosen (length all) (hybrid_scores r (max_blocks ms) ms) best lengths
          (hybrid_loop-eq-pick r (max_blocks ms) 0 (last_index (length all), float.infinity) ms) in
      let some_there : (length all == 0) ≡ false = ground arith in rw some_there coldest
  select_victim-IsColdest (progress_scorer r) tables group groups =
      let all = group ∷ groups in
      chosen (length all) (map slowness all) _ (length-map _ all)
        (progress_loop-eq-pick 0 (last_index (length all), float.infinity) all)
