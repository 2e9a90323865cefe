-- ===== src/BlockSwap/Registry/Current.antt =====
-- The scores of the fast tracker are those of the blocks as they are placed now.
use orch_kv_cache.Prelude.{
  ℕ, ◌==◌, ◌≡◌, refl, sym, ap, ◌∙◌, Bool, true, ◌&&◌, Option, none, some, List, [], ◌∷◌, arith,
  option_or, Bool-cases, Option-cases, inl, inr, ==_iff,
}
use orch_kv_cache.Prelude.Dict.{find, nat_key}
use orch_kv_cache.Prelude.Float.{Float}
use orch_kv_cache.BlockSwap.{SeqGroup, BlockTables}
use orch_kv_cache.BlockSwap.Registry.{
  positional_importance, BlockInfo, Registry, registry_of, same_entry, entries_in, same_registry,
  FastBlockTracker, new_fast_tracker, recompute_scores, update_registry, fast_score,
}

same_entry_lem : (i : BlockInfo) (j : Option BlockInfo) → same_entry i j ≡ true → j ≡ some i
same_entry_lem i none h = cc
same_entry_lem i (some j) h = ground arith

and_parts : (a b : Bool) → (a && b) ≡ true → (a ≡ true) × (b ≡ true)
and_parts a b h = ground arith

entries_in-find :
    (d e : Registry) (k : ℕ) (i : BlockInfo)
    → entries_in d e ≡ true
    → find k d ≡ some i
    → find k e ≡ some i
entries_in-find [] e k i h found = cc
entries_in-find (entry ∷ d) e k i h found =
    let (here, others) = and_parts (same_entry entry.1 (find entry.0 e)) (entries_in d e) h in
    elim (Bool-cases (entry.0 == k)) [
      | inl same ↦
          let key : entry.0 ≡ k = (==_iff entry.0 k).0 same in
          let value : entry.1 ≡ i = ground arith in
          rw (← key) (rw (← value) (same_entry_lem entry.1 (find entry.0 e) here))
      | inr other ↦ entries_in-find d e k i others (ground arith)
    ]

-- Equal dicts answer every look-up alike.
same_registry-find : (d e : Registry) (k : ℕ) → same_registry d e ≡ true → find k d ≡ find k e
same_registry-find d e k h =
    let (there, back) = and_parts (entries_in d e) (entries_in e d) h in
    elim (Option-cases (find k d)) [
      | inr (i, found) ↦ found ∙ sym (entries_in-find d e k i there found)
      | inl missing ↦ elim (Option-cases (find k e)) [
        | inl missing' ↦ missing ∙ sym missing'
        | inr (i, found) ↦ absurd (cc (entries_in-find e d k i back found))
      ]
    ]

module _ {ℓ} {F : Type ℓ} ⦃float : Float F⦄ where
  -- The score of what the registry says of a block.
  abbrev pub importance : Option BlockInfo → Option F
  importance none = none
  importance (some i) = some (positional_importance i.position i.n_total)

  -- The scores are those of the registry.
  abbrev pub IsCurrent : FastBlockTracker F → Type ℓ
  IsCurrent t = (b : ℕ) → find b t.block_scores ≡ importance (find b t.block_info)

  recompute_scores_lem :
      (info : Registry) (b : ℕ) → find b (recompute_scores {F = F} info) ≡ importance (find b info)
  recompute_scores_lem [] b = refl
  recompute_scores_lem (entry ∷ info) b = elim (Bool-cases (entry.0 == b)) [
    | inl e ↦ rw e refl
    | inr e ↦ rw e (recompute_scores_lem info b)
  ]

  -- From a tracker whose scores are those of its registry, as a new one's are, `update_registry` leads
  -- to such a tracker; and then the score of a block is the importance of its position in the
  -- running sequences as they are now, or 0.3 for a block of none of them.
  pub update_registry-IsCurrent :
      (t : FastBlockTracker F) (tables : BlockTables) (groups : List SeqGroup)
      → IsCurrent t
      → IsCurrent (update_registry t tables groups)
        × ((b : ℕ)
            → fast_score (update_registry t tables groups) b
              ≡ option_or (importance (find b (registry_of [] tables groups))) (float.decimal 3 1))
  unfolding update_registry
  update_registry-IsCurrent t tables groups current =
      let info = registry_of [] tables groups in
      elim (Bool-cases (same_registry info t.block_info)) [
        | inl e ↦ (
          rw e current,
          rw e λ b.
              ap (λ o. option_or o (float.decimal 3 1))
                (current b ∙ ap importance (sym (same_registry-find info t.block_info b e))),
        )
        | inr e ↦ (
          rw e λ b. recompute_scores_lem info b,
          rw e λ b. ap (λ o. option_or o (float.decimal 3 1)) (recompute_scores_lem info b),
        )
      ]

  pub new_fast_tracker-IsCurrent : IsCurrent (new_fast_tracker {F = F})
  unfolding new_fast_tracker
  new_fast_tracker-IsCurrent b = refl
